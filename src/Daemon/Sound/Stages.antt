-- ===== src/Daemon/Sound/Stages.antt =====
-- The stage handlers of internal/daemon/daemon.go keep the screen sound, and so do the handlers of
-- a module's exit.
use retrosaver.Prelude.{
  suc, ◌<◌, ◌≡◌, ap, sym, subst, ◌∙◌, Bool, true, false, not, Option, none, some, arith, word,
}
use retrosaver.Config.{Config}
use retrosaver.Daemon.{
  saver_watch, cycle_watch, lock_watch, blank_watch, active_watch, saver, lock, blank, WatchId,
  WatchKind, World, Machine, Call,
}
use retrosaver.Daemon.Watches.{call, is_locked, arm_cycle, ensure_active_watch, rearm, find_watch}
use retrosaver.Daemon.Launches.{is_saver_stage, reached, start_launch, stop_saver}
use retrosaver.Daemon.Stages.{
  on_saver, on_cycle, on_lock, on_blank, reset, on_active, reload, on_lock_change, handle_watch,
  on_found, reloaded, ignores_lock, same_config, next_gen, or_fatal,
}
use retrosaver.Daemon.Screen.{
  Screen, screen, GensBelow, gen_bound, IsSound, screen-ensure_active_watch, screen-arm_cycle,
  screen-rearm,
}
use retrosaver.Daemon.Sound.Parts.{
  branch-IsSound, GensBelow-mono, start_launch-IsSound, stop_saver-IsSound,
}

-- A reset or a lock moves to a new generation, and no uint64 wraps below 2 ^ 64.
GensBelow-next :
    (m : Machine) → suc m.gen < word → IsSound (screen m) → GensBelow (next_gen m.gen) m.launches
GensBelow-next m h i =
    GensBelow-mono (gen_bound m.stage m.gen) (next_gen m.gen) m.launches (ground arith) i.gens

module _ (w : World) where
  to_saver-IsSound :
      (m : Machine)
      → reached saver m ≡ false
      → IsSound (screen m)
      → IsSound (screen (ensure_active_watch w (record m { stage = saver })))
  to_saver-IsSound m early i = rw screen-ensure_active_watch (
      let later : GensBelow (suc m.gen) m.launches =
        GensBelow-mono (gen_bound m.stage m.gen) (suc m.gen) m.launches (ground arith) i.gens in
      ground arith)

  saver_stage-ensure_active_watch :
      (m : Machine) → is_saver_stage (ensure_active_watch w m).stage ≡ is_saver_stage m.stage
  saver_stage-ensure_active_watch m =
      ap (λ (s : Screen). is_saver_stage s.stage) (screen-ensure_active_watch w m)

  -- A launch after the next swap is armed.
  cycle_and_launch-IsSound :
      (m : Machine)
      → is_saver_stage m.stage ≡ true
      → IsSound (screen m)
      → IsSound (screen (start_launch w (arm_cycle w m)))
  cycle_and_launch-IsSound m s i =
      start_launch-IsSound w (arm_cycle w m)
        (ap (λ (s : Screen). is_saver_stage s.stage) (screen-arm_cycle w m) ∙ s)
        (rw screen-arm_cycle i)

  on_saver-IsSound : (m : Machine) → IsSound (screen m) → IsSound (screen (on_saver w m))
  unfolding on_saver
  on_saver-IsSound m i =
      let m' = ensure_active_watch w (record m { stage = saver }) in
      branch-IsSound (reached saver m) _ _ (λ late. i)
        λ early.
          let i' = to_saver-IsSound m early i in
          branch-IsSound (is_locked w m') _ _ (λ h. i')
            λ h.
              cycle_and_launch-IsSound (call Call.locked m')
                (saver_stage-ensure_active_watch (record m { stage = saver })) i'

  on_cycle-IsSound :
      (id : WatchId) (m : Machine) → IsSound (screen m) → IsSound (screen (on_cycle w id m))
  unfolding on_cycle
  on_cycle-IsSound id m i =
      branch-IsSound (not (is_saver_stage m.stage)) _ _ (λ h. i)
        λ here.
          branch-IsSound (is_locked w _) _ _ (λ h. i)
            λ h. cycle_and_launch-IsSound _ (ground arith) i

  stop_armed-IsSound :
      (m : Machine)
      → GensBelow (gen_bound m.stage m.gen) m.launches
      → m.panicked ≡ false
      → IsSound (screen (stop_saver (ensure_active_watch w m)))
  stop_armed-IsSound m g p =
      let e = screen-ensure_active_watch w m in
      stop_saver-IsSound w (ensure_active_watch w m)
        (subst (λ (s : Screen). GensBelow (gen_bound s.stage s.gen) s.launches) (sym e) g)
        (ap (λ (s : Screen). s.panicked) e ∙ p)

  -- Any stage but idle admits launches of the current generation.
  GensBelow-suc : (m : Machine) → IsSound (screen m) → GensBelow (suc m.gen) m.launches
  GensBelow-suc m i =
      GensBelow-mono (gen_bound m.stage m.gen) (suc m.gen) m.launches (ground arith) i.gens

  on_lock-IsSound : (m : Machine) → IsSound (screen m) → IsSound (screen (on_lock w m))
  unfolding on_lock
  on_lock-IsSound m i =
      branch-IsSound (reached lock m) _ _ (λ late. i)
        λ early. stop_armed-IsSound (record m { stage = lock }) (GensBelow-suc m i) i.no_panic

  on_blank-IsSound : (m : Machine) → IsSound (screen m) → IsSound (screen (on_blank w m))
  unfolding on_blank
  on_blank-IsSound m i =
      let i' = stop_armed-IsSound (record m { stage = blank }) (GensBelow-suc m i) i.no_panic in
      branch-IsSound (reached blank m) _ _ (λ late. i)
        λ early. branch-IsSound (w.set_idle_delay _ _) _ _ (λ h. i') (λ h. i')

  pub reset-IsSound :
      (m : Machine) → suc m.gen < word → IsSound (screen m) → IsSound (screen (reset w m))
  unfolding reset
  reset-IsSound m h i = ground (arith, GensBelow-next m h i)

  pub screen-or_fatal : (x : Machine × Bool) → screen (or_fatal w x) ≡ screen x.0
  screen-or_fatal x = ground arith

  reset_and_rearm-IsSound :
      (m : Machine)
      → suc m.gen < word
      → IsSound (screen m)
      → IsSound (screen (or_fatal w (rearm w (reset w m))))
  reset_and_rearm-IsSound m h i = rw (screen-or_fatal, screen-rearm) (reset-IsSound m h i)

  reloaded-IsSound :
      (c : Option Config) (m : Machine)
      → suc m.gen < word
      → IsSound (screen m)
      → IsSound (screen (reloaded w c m))
  reloaded-IsSound none m h i = i
  reloaded-IsSound (some c) m h i =
      branch-IsSound (same_config c m.cfg) _ _ (λ same. i) λ changed. reset_and_rearm-IsSound _ h i

  pub reload-IsSound :
      (m : Machine) → suc m.gen < word → IsSound (screen m) → IsSound (screen (reload w m))
  unfolding reload
  reload-IsSound m h i = reloaded-IsSound (w.load_config m.history) (call Call.load_config m) h i

  pub on_lock_change-IsSound :
      (locked : Bool) (m : Machine)
      → suc m.gen < word
      → IsSound (screen m)
      → IsSound (screen (on_lock_change locked m))
  unfolding on_lock_change
  on_lock_change-IsSound locked m h i =
      branch-IsSound (ignores_lock locked m) _ _ (λ ignored. i)
        λ here.
          stop_saver-IsSound w (record m { gen = next_gen m.gen })
            (GensBelow-mono (next_gen m.gen) (gen_bound m.stage (next_gen m.gen)) m.launches
              (ground arith) (GensBelow-next m h i))
            i.no_panic

  on_found-IsSound :
      (k : Option WatchKind) (id : WatchId) (m : Machine)
      → suc m.gen < word
      → IsSound (screen m)
      → IsSound (screen (on_found w k id m))
  unfolding on_active
  on_found-IsSound none id m h i = i
  on_found-IsSound (some saver_watch) id m h i = on_saver-IsSound m i
  on_found-IsSound (some cycle_watch) id m h i = on_cycle-IsSound id m i
  on_found-IsSound (some lock_watch) id m h i = on_lock-IsSound m i
  on_found-IsSound (some blank_watch) id m h i = on_blank-IsSound m i
  on_found-IsSound (some active_watch) id m h i = reset_and_rearm-IsSound m h i

  pub handle_watch-IsSound :
      (id : WatchId) (m : Machine)
      → suc m.gen < word
      → IsSound (screen m)
      → IsSound (screen (handle_watch w id m))
  unfolding handle_watch
  handle_watch-IsSound id m h i = on_found-IsSound (find_watch id m.watches) id m h i
