-- ===== src/Window/Starting/Same.antt =====
-- internal/window/window.go: what exits and stops leave of a saver's children, and the children as
-- they were started.
use retrosaver.Prelude.{
  ℕ, zero, suc, ◌%◌, ◌≡◌, inl, inr, refl, sym, ap, ◌∙◌, true, false, List, [], ◌∷◌, ◌++◌, Option,
  none, some, Bool-cases, if-both, length, get_elem?, set, Text, map, ◌==◌, ◌||◌,
}
use retrosaver.Window.{Files}
use retrosaver.Window.Saver.{
  Child, Saver, System, exited, child_exited, stop, stop_child, stop_children,
}
use retrosaver.Window.Starting.{Grace, pass}

-- A child as it was when it started.
abbrev pub as_new : Child → Child
as_new c = record c { reaped = false }

module _ (o : System) where
  -- An exit and a stop leave the children as they were started, and an exit leaves the saver open.
  set-as_new :
      (cs : List Child) (i : ℕ) (c d : Child)
      → get_elem? cs i ≡ some c
      → as_new d ≡ as_new c
      → map as_new (set cs i d) ≡ map as_new cs
  set-as_new [] i c d e h = refl
  set-as_new (b ∷ cs) zero c d e h =
      let first : c ≡ b = cc in ap (λ n. n ∷ map as_new cs) (h ∙ ap as_new first)
  set-as_new (b ∷ cs) (suc i) c d e h = ap (λ ns. as_new b ∷ ns) (set-as_new cs i c d e h)

  abbrev SameChildren : Saver → Saver → Type 0
  SameChildren t s = (map as_new t.children ≡ map as_new s.children) × (t.stopping ≡ s.stopping)

  exited-same :
      (i : ℕ) (c : Option Child) (s : Saver)
      → get_elem? s.children i ≡ c
      → SameChildren (exited o i c s) s
  exited-same i none s e = (refl, refl)
  exited-same i (some c) s e = elim (Bool-cases c.reaped) [
    | inl r ↦ rw r (refl, refl)
    | inr r ↦ rw r (set-as_new s.children i c (record c { reaped = true }) e refl, refl)
  ]

  child_exited-same : (i : ℕ) (s : Saver) → SameChildren (child_exited o i s) s
  unfolding child_exited
  child_exited-same i s = exited-same i (get_elem? s.children i) s refl

  pub pass-same :
      (g : Grace) (i : ℕ) (cs : List Child) (s : Saver) → SameChildren (pass o g i cs s) s
  unfolding pass
  pass-same g i [] s = (refl, refl)
  pass-same g i (c ∷ cs) s =
      if-both (λ (t : Saver). SameChildren (pass o g (suc i) cs t) s) (g.exits c.pid)
        (child_exited o i s) s
        (λ _.
          let (same, still) = pass-same g (suc i) cs (child_exited o i s) in
          let (same', still') = child_exited-same i s in (same ∙ same', still ∙ still'))
        λ _. pass-same g (suc i) cs s

  as_new-stop_child : (c : Child) → as_new (stop_child o c).1 ≡ as_new c
  unfolding stop_child
  as_new-stop_child c =
      if-both (λ (r : List ℕ × Child). as_new r.1 ≡ as_new c) (c.pid == 0 || c.reaped) ([], c)
        (c.pid ∷ [], record c { reaped = o.dies c.pid }) (λ _. refl) (λ _. refl)

  stop_children-same : (cs : List Child) → map as_new (stop_children o cs).1 ≡ map as_new cs
  unfolding stop_children
  stop_children-same [] = refl
  stop_children-same (c ∷ cs) =
      ap (λ d. d ∷ map as_new (stop_children o cs).1) (as_new-stop_child c)
      ∙ ap (λ ds. as_new c ∷ ds) (stop_children-same cs)

  pub stop-same :
      (s : Saver) (files : Files) → map as_new (stop o s files).0.children ≡ map as_new s.children
  unfolding stop
  stop-same s files = elim (Bool-cases s.stopping) [
    | inl h ↦ rw h refl
    | inr h ↦ rw h (stop_children-same s.children)
  ]

  -- The children that were started in the windows from monitor `i` on, in turn: each is the process
  -- that the system gave for its module's path and its window, and where there are fewer children
  -- than windows, the next one did not start.
  abbrev pub AsStarted : Text → List Text → ℕ → List ℕ → List Child → Type 0
  AsStarted dir names i [] cs = cs ≡ []
  AsStarted dir names i (w ∷ ws) [] =
      (name : Text) × (get_elem? names (i % length names) ≡ some name)
      × (o.start (dir ++ 47 ∷ name) w ≡ none)
  AsStarted dir names i (w ∷ ws) (c ∷ cs) =
      ((name : Text) × (get_elem? names (i % length names) ≡ some name)
        × (o.start (dir ++ 47 ∷ name) w ≡ some c.pid)
        × (c.module_name ≡ name)
        × (c.window ≡ w)
        × (c.monitor ≡ i))
      × AsStarted dir names (suc i) ws cs

  pub AsStarted-new :
      (dir : Text) (names : List Text) (i : ℕ) (ws : List ℕ) (cs ds : List Child)
      → map as_new ds ≡ map as_new cs
      → AsStarted dir names i ws cs
      → AsStarted dir names i ws ds
  AsStarted-new dir names i [] [] [] e a = refl
  AsStarted-new dir names i [] [] (d ∷ ds) e a = cc
  AsStarted-new dir names i [] (c ∷ cs) ds e a = cc
  AsStarted-new dir names i (w ∷ ws) [] [] e a = a
  AsStarted-new dir names i (w ∷ ws) [] (d ∷ ds) e a = cc
  AsStarted-new dir names i (w ∷ ws) (c ∷ cs) [] e a = cc
  AsStarted-new dir names i (w ∷ ws) (c ∷ cs) (d ∷ ds) e
        ((name, at_i, begun, called, shown, on), a) =
      let same : as_new d ≡ as_new c = ∷-head e in
      (
        (
          name,
          at_i,
          begun ∙ ap (λ (x : Child). some x.pid) (sym same),
          ap (λ (x : Child). x.module_name) same ∙ called,
          ap (λ (x : Child). x.window) same ∙ shown,
          ap (λ (x : Child). x.monitor) same ∙ on,
        ),
        AsStarted-new dir names (suc i) ws cs ds (∷-tail e) a,
      )
    where
      ∷-head : {c d : Child} {cs ds : List Child} → d ∷ ds ≡ c ∷ cs → d ≡ c
      ∷-head e = cc

      ∷-tail : {c d : Child} {cs ds : List Child} → d ∷ ds ≡ c ∷ cs → ds ≡ cs
      ∷-tail e = cc
