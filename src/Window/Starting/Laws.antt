-- ===== src/Window/Starting/Laws.antt =====
-- internal/window/window.go: a launch that fails is stopped, and one that succeeds runs what it was
-- given.
use native.Mathlib.Nat.{mod-lt, zero-lt-suc}
use retrosaver.Prelude.{
  ℕ, zero, suc, ◌<◌, ◌%◌, ◌≡◌, inl, inr, refl, sym, ap, ◌∙◌, Bool, true, false, List, [], ◌∷◌, ◌++◌,
  append_assoc, append-nil, Option, none, some, some-injective, arith, Bool-cases, if-both, length,
  get_elem?, All, Text, map, ◌==◌, ltb,
}
use retrosaver.Chars.{after_last}
use retrosaver.Window.{Files, write_state}
use retrosaver.Window.Saver.{
  Child, Saver, System, base, pids, modules, started, start_child, stop, path_of,
}
use retrosaver.Window.Starting.{
  Launched, up, down, onto_children, Grace, pass, awaited, new_saver, start_until, stopped,
  after_start, launch_all, path, real_launch,
}
use retrosaver.Window.Starting.Same.{as_new, pass-same, stop-same, AsStarted, AsStarted-new}
use retrosaver.Window.Starting.Stopped.{IsStopped, stop-IsStopped}

-- A name without a slash.
abbrev pub IsElement : Text → Type 0
IsElement = All (λ c. (c == 47) ≡ false)

after_last-element : (acc t : Text) → IsElement t → after_last 47 acc t ≡ acc ++ t
unfolding after_last
after_last-element acc [] h = sym (append-nil acc)
after_last-element acc (c ∷ cs) h =
    rw (h.0) (after_last-element (acc ++ c ∷ []) cs h.1 ∙ append_assoc acc (c ∷ []) cs)

after_last-path :
    (acc dir name : Text) → IsElement name → after_last 47 acc (dir ++ 47 ∷ name) ≡ name
unfolding after_last
after_last-path acc [] name h = after_last-element [] name h
after_last-path acc (c ∷ cs) name h = elim (Bool-cases (c == 47)) [
  | inl e ↦ rw e (after_last-path [] cs name h)
  | inr e ↦ rw e (after_last-path (acc ++ c ∷ []) cs name h)
]

get_elem?-map :
    (f : Text → Text) (xs : List Text) (i : ℕ) (x : Text)
    → get_elem? xs i ≡ some x
    → get_elem? (map f xs) i ≡ some (f x)
get_elem?-map f [] i x h = cc
get_elem?-map f (y ∷ ys) zero x h = ap (λ z. some (f z)) (some-injective y x h)
get_elem?-map f (y ∷ ys) (suc i) x h = get_elem?-map f ys i x h

get_elem?-in :
    (P : Text → Type 0) (xs : List Text) (i : ℕ)
    → All P xs
    → i < length xs
    → (x : Text) × (get_elem? xs i ≡ some x) × P x
get_elem?-in P [] i h b = absurd (omega arith)
get_elem?-in P (x ∷ xs) zero h b = (x, refl, h.0)
get_elem?-in P (x ∷ xs) (suc i) h b = get_elem?-in P xs i h.1 (omega arith)

length-map : (f : Text → Text) (xs : List Text) → length (map f xs) ≡ length xs
length-map f [] = refl
length-map f (x ∷ xs) = ap suc (length-map f xs)

module _ (o : System) where
  base-path : (dir name : Text) → IsElement name → base (path dir name) ≡ name
  base-path dir name h = after_last-path [] dir name h

  path_of-map :
      (dir name : Text) (names : List Text) (i : ℕ)
      → All IsElement (name ∷ names)
      → (n : Text) × (get_elem? (name ∷ names) (i % length (name ∷ names)) ≡ some n)
        × (path_of o (map (path dir) (name ∷ names)) i ≡ path dir n)
        × IsElement n
  path_of-map dir name names i h =
      let ns = name ∷ names in
      let (n, at, element) =
        get_elem?-in IsElement ns (i % length ns) h (mod-lt i (zero-lt-suc (length names))) in
      (
        n,
        at,
        ap (λ k. item (get_elem? (map (path dir) ns) (i % k))) (length-map (path dir) ns)
            ∙ ap item (get_elem?-map (path dir) ns (i % length ns) n at),
        element,
      )
    where
      item : Option Text → Text
      item x = elim x [ none ↦ [] | some p ↦ p ]

  -- What one more window adds.
  onto-AsStarted :
      (dir n p : Text) (names : List Text) (i w : ℕ) (ws : List ℕ) (pid : Option ℕ)
      (rest : List Child × Bool)
      → get_elem? names (i % length names) ≡ some n
      → p ≡ path dir n
      → base p ≡ n
      → o.start p w ≡ pid
      → AsStarted o dir names (suc i) ws rest.0
      → (rest.1 ≡ true → length rest.0 ≡ length ws)
      → let r = onto_children (started o p w i pid) rest in
        AsStarted o dir names i (w ∷ ws) r.0 × (r.1 ≡ true → length r.0 ≡ suc (length ws))
  onto-AsStarted dir n p names i w ws none rest at_i is_path name e a all =
      ((n, at_i, ap (λ t. o.start t w) (sym is_path) ∙ e), λ h. cc)
  onto-AsStarted dir n p names i w ws (some pid) (cs, ok) at_i is_path name e a all = (
    ((n, at_i, ap (λ t. o.start t w) (sym is_path) ∙ e, name, refl, refl), a),
    λ h. ap suc (all h),
  )

  start_until-AsStarted :
      (dir name : Text) (names : List Text) (i : ℕ) (windows : List ℕ)
      → All IsElement (name ∷ names)
      → let r = start_until o (map (path dir) (name ∷ names)) i windows in
        AsStarted o dir (name ∷ names) i windows r.0 × (r.1 ≡ true → length r.0 ≡ length windows)
  unfolding start_until start_child
  start_until-AsStarted dir name names i [] h = (refl, λ _. refl)
  start_until-AsStarted dir name names i (w ∷ ws) h =
      let paths = map (path dir) (name ∷ names) in
      let (n, at_i, is_path, element) = path_of-map dir name names i h in
      let (a, all) = start_until-AsStarted dir name names (suc i) ws h in
      onto-AsStarted dir n (path_of o paths i) (name ∷ names) i w ws (o.start (path_of o paths i) w)
        (start_until o paths (suc i) ws) at_i is_path (ap base is_path ∙ base-path dir n element)
        refl a all

  -- How a launch of names ends: each window has its process, and the files name these; or what was
  -- started is dealt with.
  abbrev pub Starts : Text → List Text → List ℕ → ℕ → Files → Launched → Type 0
  Starts dir names windows unclutter files (up s f) =
      AsStarted o dir names 0 windows s.children
      × (length s.children ≡ length windows)
      × (f ≡ write_state (pids s) (modules s) unclutter files)
      × (s.stopping ≡ false)
  Starts dir names windows unclutter files (down none f) = ⊥
  Starts dir names windows unclutter files (down (some s) f) =
      AsStarted o dir names 0 windows s.children × IsStopped s

  stopped-Starts :
      (dir : Text) (names : List Text) (windows : List ℕ) (unclutter : ℕ) (files : Files)
      (s : Saver)
      → s.stopping ≡ false
      → AsStarted o dir names 0 windows s.children
      → Starts dir names windows unclutter files (stopped o (stop o s files))
  stopped-Starts dir names windows unclutter files s h a = (
    AsStarted-new o dir names 0 windows s.children (stop o s files).0.children (stop-same o s files)
        a,
    stop-IsStopped o s files h,
  )

  length-as_new : (cs ds : List Child) → map as_new ds ≡ map as_new cs → length ds ≡ length cs
  length-as_new [] [] e = refl
  length-as_new [] (d ∷ ds) e = cc
  length-as_new (c ∷ cs) [] e = cc
  length-as_new (c ∷ cs) (d ∷ ds) e = ap suc (length-as_new cs ds (tail e))
    where
      tail : {c d : Child} {cs ds : List Child} → d ∷ ds ≡ c ∷ cs → ds ≡ cs
      tail e = cc

  after_start-Starts :
      (each : Bool) (g : Grace) (dir : Text) (names : List Text) (windows : List ℕ) (unclutter : ℕ)
      (files : Files) (children : List Child) (ok : Bool)
      → AsStarted o dir names 0 windows children
      → (ok ≡ true → length children ≡ length windows)
      → Starts dir names windows unclutter files
          (after_start o each g unclutter windows (children, ok) files)
  after_start-Starts each g dir names windows unclutter files children false a all =
      stopped-Starts dir names windows unclutter files (new_saver windows children) refl a
  after_start-Starts each g dir names windows unclutter files children true a all =
      let s = new_saver windows children in
      let s' = pass o g 0 children s in
      let (same, still) = pass-same o g 0 children s in
      let a' = AsStarted-new o dir names 0 windows children s'.children same a in
      if-both (Starts dir names windows unclutter files) (awaited each g children) _ _
        (λ _. (a', length-as_new children s'.children same ∙ all refl, refl, still))
        λ _. stopped-Starts dir names windows unclutter files s' still a'

  -- The daemon's launcher, in the windows that it is given, starts in each, in turn, the module
  -- that is named for its monitor, or for its turn if there are fewer names than monitors, at its
  -- path in the modules' directory, and what it writes to the runtime files names these processes;
  -- or the launch fails, and each process that it started, in the windows up to the first in which
  -- none starts, is gone or was sent a signal, and the windows are closed. A name is one element of
  -- a path.
  pub real_launch-Starts :
      (dir name : Text) (names : List Text) (g : Grace) (unclutter : ℕ) (windows : List ℕ)
      (files : Files)
      → All IsElement (name ∷ names)
      → Starts dir
          (name ∷ names)
          windows
          unclutter
          files
          (real_launch o dir (name ∷ names) g unclutter (some windows) files)
  unfolding launch_all
  real_launch-Starts dir name names g unclutter windows files h =
      let paths = map (path dir) (name ∷ names) in
      let (children, ok) = start_until o paths 0 windows in
      let (a, all) = start_until-AsStarted dir name names 0 windows h in
      after_start-Starts (ltb 1 (length paths)) g dir (name ∷ names) windows unclutter files
        children ok a all
