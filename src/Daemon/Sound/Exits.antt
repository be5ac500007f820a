-- ===== src/Daemon/Sound/Exits.antt =====
-- `onModuleExit` and `onCopyExit` of internal/daemon/daemon.go keep the screen sound.
use retrosaver.Prelude.{
  ℕ, zero, suc, ◌<◌, ◌≡◌, true, not, Option, none, some, arith, Bool-cases, is_some, if◌then◌else◌,
  leb, length, Text, lt→ltb, ◌+◌, inl, inr,
}
use retrosaver.Daemon.{SaverId, World, CopyExit, Machine, Call}
use retrosaver.Daemon.Watches.{call, is_locked}
use retrosaver.Daemon.Pick.{after, pick}
use retrosaver.Daemon.Launches.{is_saver_stage, start_launch, close_unless_launching}
use retrosaver.Daemon.Exits.{
  on_module_exit, copy_rounds, on_copy_exit, max_relaunches, relaunch, try_replace, replace_copy,
  copy_round, copy_stays, counted, replacing, finished,
}
use retrosaver.Daemon.Screen.{screen, IsSound}
use retrosaver.Daemon.Sound.Parts.{
  branch-IsSound, start_launch-IsSound, close_unless_launching-IsSound,
}

module _ (w : World) where
  relaunch-IsSound :
      (m : Machine)
      → is_saver_stage m.stage ≡ true
      → IsSound (screen m)
      → IsSound (screen (relaunch w m))
  relaunch-IsSound m s i =
      let again = record (call Call.locked m) { deaths = m.deaths + 1; attempts = 0 } in
      branch-IsSound (is_locked w m) (call Call.locked m) (start_launch w again) (λ h. i)
        λ h. start_launch-IsSound w again s i

  on_done-IsSound :
      (m : Machine)
      → IsSound (screen m)
      → IsSound (
          screen (
            if not (is_saver_stage m.stage)
            then close_unless_launching m
            else if is_some m.cancel
            then m
            else close_unless_launching (if leb max_relaunches m.deaths then m else relaunch w m)))
  on_done-IsSound m i = elim (Bool-cases (is_saver_stage m.stage)) [
    | inr elsewhere ↦ rw elsewhere (close_unless_launching-IsSound w m i)
    | inl here ↦ rw here (
        branch-IsSound (is_some m.cancel) m
          (close_unless_launching (if leb max_relaunches m.deaths then m else relaunch w m))
          (λ h. i)
          λ h.
            close_unless_launching-IsSound w
              (if leb max_relaunches m.deaths then m else relaunch w m)
              (branch-IsSound (leb max_relaunches m.deaths) m (relaunch w m) (λ t. i)
                λ t. relaunch-IsSound m here i))
  ]

  pub on_module_exit-IsSound :
      (m : Machine)
      → is_some m.current_done ≡ true
      → IsSound (screen m)
      → IsSound (screen (on_module_exit w m))
  unfolding on_module_exit
  on_module_exit-IsSound m up i =
      on_done-IsSound (record m { current_done = none; dead = true }) (ground arith)

  -- A round that gives a machine gives a sound one.
  abbrev Sound? : Option Machine → Type 0
  Sound? none = Unit
  Sound? (some m) = IsSound (screen m)

  abbrev pub InRange : CopyExit → Machine → Type 0
  InRange e m = (is_some m.current ≡ true) × (e.monitor < length m.current_names)

  -- The next round keeps the screen sound, from any machine where the exit is in range.
  abbrev Keeps : CopyExit → (Machine → Option Machine) → Type 0
  Keeps e again = (n : Machine) → InRange e n → IsSound (screen n) → Sound? (again n)

  try_replace-IsSound :
      (again : Machine → Option Machine) (e : CopyExit) (name : Text) (c : Option SaverId)
      (m : Machine)
      → Keeps e again
      → is_some c ≡ true
      → InRange e m
      → IsSound (screen m)
      → Sound? (try_replace w again e name c m)
  try_replace-IsSound again e name none m k up r i = cc
  try_replace-IsSound again e name (some s) m k up r i =
      elim (Bool-cases (w.replace m.history s e.monitor name)) [
        | inl done ↦ rw done (rw (lt→ltb e.monitor (length m.current_names) r.1) i)
        | inr refused ↦ rw refused (k (replacing w e s name m) r i)
      ]

  replace_copy-IsSound :
      (again : Machine → Option Machine) (e : CopyExit) (drawn : Option Text) (m : Machine)
      → Keeps e again
      → InRange e m
      → IsSound (screen m)
      → Sound? (replace_copy w again e drawn m)
  replace_copy-IsSound again e none m k r i = i
  replace_copy-IsSound again e (some name) m k r i =
      try_replace-IsSound again e name m.current m k r.0 r i

  copy_round-IsSound :
      (again : Machine → Option Machine) (e : CopyExit) (m : Machine)
      → Keeps e again
      → InRange e m
      → IsSound (screen m)
      → Sound? (copy_round w again e m)
  copy_round-IsSound again e m k r i =
      let d = pick w m.current_names (counted w e m) in
      elim (Bool-cases (copy_stays e m)) [
        | inl stays ↦ rw stays i
        | inr goes ↦ rw goes (elim (Bool-cases (is_locked w m)) [
          | inl shut ↦ rw shut i
          | inr unlocked ↦
              rw unlocked (replace_copy-IsSound again e d.result (after (counted w e m) d) k r i)
        ])
      ]

  copy_rounds-IsSound :
      (fuel : ℕ) (e : CopyExit) (m : Machine)
      → InRange e m
      → IsSound (screen m)
      → Sound? (copy_rounds w fuel e m)
  unfolding copy_rounds
  copy_rounds-IsSound zero e m r i = tt
  copy_rounds-IsSound (suc fuel) e m r i =
      copy_round-IsSound (λ m'. copy_rounds w fuel e m') e m
        (λ n q j. copy_rounds-IsSound fuel e n q j) r i

  finished-IsSound :
      (m : Machine) (o : Option Machine)
      → IsSound (screen m)
      → Sound? o
      → IsSound (screen (finished w m o))
  finished-IsSound m none i s = i
  finished-IsSound m (some n) i s = s

  pub on_copy_exit-IsSound :
      (e : CopyExit) (m : Machine)
      → InRange e m
      → IsSound (screen m)
      → IsSound (screen (on_copy_exit w e m))
  unfolding on_copy_exit
  on_copy_exit-IsSound e m r i =
      finished-IsSound m (copy_rounds w (suc max_relaunches) e m) i
        (copy_rounds-IsSound (suc max_relaunches) e m r i)
