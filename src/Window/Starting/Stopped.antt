-- ===== src/Window/Starting/Stopped.antt =====
-- internal/window/window.go: what `Stop` leaves of a saver's processes.
use retrosaver.Prelude.{
  ℕ, ◌≡◌, ◌⊎◌, inl, inr, refl, true, false, List, [], ◌∷◌, ◌++◌, arith, Bool-cases, All, Member,
  ◌==◌,
}
use retrosaver.Window.{Files}
use retrosaver.Window.Saver.{
  Child, Saver, System, stop_child, stop_children, unclutter_signals, stop,
}

-- A process that is gone, or that was sent a signal.
abbrev pub IsDealtWith : List ℕ → Child → Type 0
IsDealtWith signals c = (c.reaped ≡ true) ⊎ ((c.pid ≡ 0) ⊎ Member c.pid signals)

-- A saver that was stopped: no window is left, and each of its processes was dealt with.
abbrev pub IsStopped : Saver → Type 0
IsStopped s =
    (s.stopping ≡ true) × (s.screen_open ≡ false) × All (IsDealtWith s.signalled) s.children

Member-left : (x : ℕ) (xs ys : List ℕ) → Member x xs → Member x (xs ++ ys)
Member-left x [] ys m = absurd m
Member-left x (y ∷ xs) ys (inl e) = inl e
Member-left x (y ∷ xs) ys (inr m) = inr (Member-left x xs ys m)

Member-right : (x : ℕ) (xs ys : List ℕ) → Member x ys → Member x (xs ++ ys)
Member-right x [] ys m = m
Member-right x (y ∷ xs) ys m = inr (Member-right x xs ys m)

dealt_more : (xs ys : List ℕ) (c : Child) → IsDealtWith xs c → IsDealtWith (xs ++ ys) c
dealt_more xs ys c (inl e) = inl e
dealt_more xs ys c (inr (inl e)) = inr (inl e)
dealt_more xs ys c (inr (inr m)) = inr (inr (Member-left c.pid xs ys m))

dealt_before : (xs ys : List ℕ) (c : Child) → IsDealtWith ys c → IsDealtWith (xs ++ ys) c
dealt_before xs ys c (inl e) = inl e
dealt_before xs ys c (inr (inl e)) = inr (inl e)
dealt_before xs ys c (inr (inr m)) = inr (inr (Member-right c.pid xs ys m))

All-map : (P Q : Child → Type 0) (cs : List Child) → ((c : Child) → P c → Q c) → All P cs → All Q cs
All-map P Q [] f h = tt
All-map P Q (c ∷ cs) f h = (f c h.0, All-map P Q cs f h.1)

module _ (o : System) where
  stop_child-IsDealtWith : (c : Child) → IsDealtWith (stop_child o c).0 (stop_child o c).1
  unfolding stop_child
  stop_child-IsDealtWith c = elim (Bool-cases (c.pid == 0)) [
    | inl e ↦ rw e (inr (inl (ground arith)))
    | inr e ↦ elim (Bool-cases c.reaped) [
      | inl r ↦ rw e (rw r (inl refl))
      | inr r ↦ rw e (rw r (inr (inr (inl refl))))
    ]
  ]

  stop_children-All :
      (cs : List Child) → All (IsDealtWith (stop_children o cs).0) (stop_children o cs).1
  unfolding stop_children
  stop_children-All [] = tt
  stop_children-All (c ∷ cs) =
      let (signals, c') = stop_child o c in
      let (more, cs') = stop_children o cs in
      (
        dealt_more signals more c' (stop_child-IsDealtWith c),
        All-map (IsDealtWith more) (IsDealtWith (signals ++ more)) cs' (dealt_before signals more)
            (stop_children-All cs),
      )

  pub stop-IsStopped :
      (s : Saver) (files : Files) → s.stopping ≡ false → IsStopped (stop o s files).0
  unfolding stop
  stop-IsStopped s files h =
      let (signals, cs) = stop_children o s.children in
      rw h (
        refl,
        refl,
        All-map (IsDealtWith signals)
            (IsDealtWith (signals ++ unclutter_signals o s ++ s.signalled)) cs
            (λ c d.
              dealt_more (signals ++ unclutter_signals o s) s.signalled c
                (dealt_more signals (unclutter_signals o s) c d))
            (stop_children-All s.children),
      )
