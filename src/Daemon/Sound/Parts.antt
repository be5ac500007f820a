-- ===== src/Daemon/Sound/Parts.antt =====
-- The parts that the handlers of internal/daemon/daemon.go are made of keep the screen sound, and
-- so does `handleLaunch`.
use retrosaver.Prelude.{
  ℕ, ◌≤◌, ◌<◌, ◌≡◌, inl, inr, refl, Bool, true, false, List, [], ◌∷◌, Option, none, some, arith,
  Bool-cases, is_some, if◌then◌else◌, Member, ltb, ◌&&◌, ◌||◌, Option-cases, not, ◌==◌, Text,
}
use retrosaver.Daemon.{LaunchError, SaverId, lock, World, Launch, LaunchResult, Machine}
use retrosaver.Daemon.Pick.{monitors}
use retrosaver.Daemon.Launches.{
  is_saver_stage, reached, start_launch, stop_saver, close_dead, handle_launch,
  close_unless_launching, retryable, retry, land, settle, take_over, stop_current,
}
use retrosaver.Daemon.Screen.{screen, GensBelow, gen_bound, IsSound}

pub GensBelow-mono : (a b : ℕ) (ls : List Launch) → a ≤ b → GensBelow a ls → GensBelow b ls
GensBelow-mono a b [] h g = tt
GensBelow-mono a b (l ∷ ls) h g = (omega arith, GensBelow-mono a b ls h g.1)

pub GensBelow-Member :
    (n : ℕ) (l : Launch) (ls : List Launch) → GensBelow n ls → Member l ls → l.gen < n
GensBelow-Member n l [] g m = elim m [ ]
GensBelow-Member n l (k ∷ ls) g m = elim m [
  | inl e ↦ ground arith
  | inr later ↦ GensBelow-Member n l ls g.1 later
]

pub branch-IsSound :
    (b : Bool) (x y : Machine)
    → (b ≡ true → IsSound (screen x))
    → (b ≡ false → IsSound (screen y))
    → IsSound (screen (if b then x else y))
branch-IsSound true x y p q = p refl
branch-IsSound false x y p q = q refl

module _ (w : World) where
  pub start_launch-stage : (m : Machine) → (start_launch w m).stage ≡ m.stage
  unfolding start_launch monitors
  start_launch-stage m = ground arith

  pub start_launch-IsSound :
      (m : Machine)
      → is_saver_stage m.stage ≡ true
      → IsSound (screen m)
      → IsSound (screen (start_launch w m))
  unfolding start_launch monitors
  start_launch-IsSound m s i = ground arith

  pub stop_saver-IsSound :
      (m : Machine)
      → GensBelow (gen_bound m.stage m.gen) m.launches
      → m.panicked ≡ false
      → IsSound (screen (stop_saver m))
  unfolding stop_saver
  stop_saver-IsSound m g p = ground arith

  close_dead-IsSound : (m : Machine) → IsSound (screen m) → IsSound (screen (close_dead m))
  unfolding close_dead
  close_dead-IsSound m i = ground arith

  retry-IsSound :
      (e : LaunchError) (m : Machine)
      → is_saver_stage m.stage ≡ true
      → IsSound (screen m)
      → IsSound (screen (retry w e m))
  retry-IsSound e m s i = elim (Bool-cases (retryable e && ltb m.attempts 2)) [
    | inl yes_retry ↦ rw yes_retry (start_launch-IsSound m s i)
    | inr no_retry ↦ rw no_retry i
  ]

  pub close_unless_launching-IsSound :
      (m : Machine) → IsSound (screen m) → IsSound (screen (close_unless_launching m))
  close_unless_launching-IsSound m i = elim (Bool-cases (is_some m.cancel)) [
    | inl launching ↦ rw launching i
    | inr nothing ↦ rw nothing (close_dead-IsSound m i)
  ]

  settle-IsSound :
      (r : LaunchResult) (m : Machine) → IsSound (screen m) → IsSound (screen (settle r m))
  settle-IsSound r m i = ground arith

  take_over-IsSound :
      (names : List Text) (s : SaverId) (m : Machine)
      → is_saver_stage m.stage ≡ true
      → IsSound (screen m)
      → IsSound (screen (take_over names (some s) m))
  take_over-IsSound names s m h i = ground arith

  stop_current-IsSound :
      (s : Option SaverId) (m : Machine) → IsSound (screen m) → IsSound (screen (stop_current s m))
  stop_current-IsSound s m i = ground arith

  -- A result that is not discarded finds the machine in the saver stage.
  landing_stage :
      (r : LaunchResult) (m : Machine)
      → GensBelow (gen_bound m.stage m.gen) m.launches
      → Member r.origin m.launches
      → (not (r.origin.gen == m.gen) || reached lock m) ≡ false
      → is_saver_stage m.stage ≡ true
  landing_stage r m g mem e =
      ground (arith, GensBelow-Member (gen_bound m.stage m.gen) r.origin m.launches g mem)

  land-IsSound :
      (r : LaunchResult) (m : Machine)
      → (r.error ≡ none → is_some r.saver ≡ true)
      → is_saver_stage m.stage ≡ true
      → IsSound (screen m)
      → IsSound (screen (land w r m))
  land-IsSound r m good s i = elim (Option-cases r.error) [
    | inr (e, failed) ↦
        rw failed (close_unless_launching-IsSound (retry w e m) (retry-IsSound e m s i))
    | inl fine ↦ elim (Option-cases r.saver) [
      | inr (id, got) ↦ rw (fine, got) (take_over-IsSound r.origin.names id m s i)
      | inl missing ↦ ground (arith, good fine)
    ]
  ]

  pub handle_launch-IsSound :
      (r : LaunchResult) (m : Machine)
      → Member r.origin m.launches
      → (r.error ≡ none → is_some r.saver ≡ true)
      → IsSound (screen m)
      → IsSound (screen (handle_launch w r m))
  unfolding handle_launch
  handle_launch-IsSound r m mem good i =
      let m' = settle r m in
      let i' = settle-IsSound r m i in
      let mem' : Member r.origin m'.launches = launches-settle mem in
      elim (Bool-cases (not (r.origin.gen == m'.gen) || reached lock m')) [
        | inl discard ↦ rw discard (stop_current-IsSound r.saver m' i')
        | inr keep ↦ rw keep (land-IsSound r m' good (landing_stage r m' i'.gens mem' keep) i')
      ]
    where
      launches-settle : Member r.origin m.launches → Member r.origin (settle r m).launches
      launches-settle h = let e : (settle r m).launches ≡ m.launches = ground arith in rw e h
