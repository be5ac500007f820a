-- ===== src/Daemon/Order.antt =====
-- How the stage moves, in internal/daemon/daemon.go: it only advances until a reset.
use retrosaver.Prelude.{
  ◌≤◌, ◌≡◌, ◌≢◌, inl, inr, refl, ap, ◌∙◌, false, Option, none, some, arith, Bool-cases, add64,
}
use retrosaver.Config.{Config}
use retrosaver.Daemon.{
  saver, lock, blank, WatchId, WatchKind, saver_watch, cycle_watch, lock_watch, blank_watch,
  active_watch, World, Machine, Call,
}
use retrosaver.Daemon.Watches.{call, ensure_active_watch, arm_cycle, find_watch, delete_watch}
use retrosaver.Daemon.Launches.{rank, start_launch, stop_saver}
use retrosaver.Daemon.Stages.{
  on_saver, on_cycle, on_lock, on_blank, reload, reloaded, same_config, handle_watch, on_found,
}
use retrosaver.Daemon.Run.{
  Event, fired, launched, module_done, copy_exit, lock_changed, reload_asked, handle,
}
use retrosaver.Daemon.Screen.{Screen, screen-ensure_active_watch, screen-arm_cycle}
use retrosaver.Daemon.Policy.{
  Policy, policy-stop_saver, policy-handle_launch, policy-on_module_exit, policy-on_copy_exit,
  policy-on_lock_change,
}
use retrosaver.Daemon.Sound.Parts.{start_launch-stage}

module _ (w : World) where
  -- The events that reset the machine: user activity, and a reload of a config that differs.
  abbrev pub Resets : Event → Machine → Type 0
  Resets (fired id) m = find_watch id m.watches ≡ some active_watch
  Resets reload_asked m =
      (c : Config) × (w.load_config m.history ≡ some c) × (same_config c m.cfg ≡ false)
  Resets _ m = ⊥

  abbrev Advances : Machine → Machine → Type 0
  Advances m n = rank m.stage ≤ rank n.stage

  stage-cycle_and_launch : (m : Machine) → (start_launch w (arm_cycle w m)).stage ≡ m.stage
  stage-cycle_and_launch m =
      start_launch-stage w (arm_cycle w m) ∙ ap (λ (s : Screen). s.stage) (screen-arm_cycle w m)

  stage-ensure_active_watch : (m : Machine) → (ensure_active_watch w m).stage ≡ m.stage
  stage-ensure_active_watch m = ap (λ (s : Screen). s.stage) (screen-ensure_active_watch w m)

  stage-stop_saver : (m : Machine) → (stop_saver m).stage ≡ m.stage
  stage-stop_saver m = ap (λ (p : Policy). p.stage) (policy-stop_saver m)

  on_saver-Advances : (m : Machine) → Advances m (on_saver w m)
  unfolding on_saver
  on_saver-Advances m =
      let m0 = record m { stage = saver } in
      let m' = ensure_active_watch w m0 in
      ground (arith, stage-ensure_active_watch m0, stage-cycle_and_launch (call Call.locked m'))

  on_cycle-Advances : (id : WatchId) (m : Machine) → Advances m (on_cycle w id m)
  unfolding on_cycle
  on_cycle-Advances id m =
      let m' = record (call (Call.remove_watch id) m) { watches = delete_watch id m.watches } in
      ground (
        arith,
        stage-cycle_and_launch
            (record (call Call.locked m') { cycles = add64 m.cycles 1; attempts = 0 }),
      )

  on_lock-Advances : (m : Machine) → Advances m (on_lock w m)
  unfolding on_lock
  on_lock-Advances m =
      let m0 = record m { stage = lock } in
      ground (arith, stage-stop_saver (ensure_active_watch w m0), stage-ensure_active_watch m0)

  on_blank-Advances : (m : Machine) → Advances m (on_blank w m)
  unfolding on_blank
  on_blank-Advances m =
      let m0 = record m { stage = blank } in
      ground (arith, stage-stop_saver (ensure_active_watch w m0), stage-ensure_active_watch m0)

  on_found-Advances :
      (k : Option WatchKind) (id : WatchId) (m : Machine)
      → k ≢ some active_watch
      → Advances m (on_found w k id m)
  on_found-Advances none id m h = omega arith
  on_found-Advances (some saver_watch) id m h = on_saver-Advances m
  on_found-Advances (some cycle_watch) id m h = on_cycle-Advances id m
  on_found-Advances (some lock_watch) id m h = on_lock-Advances m
  on_found-Advances (some blank_watch) id m h = on_blank-Advances m
  on_found-Advances (some active_watch) id m h = absurd (h refl)

  reloaded-Advances :
      (c : Option Config) (m n : Machine)
      → n.stage ≡ m.stage
      → ¬ ((c' : Config) × (c ≡ some c') × (same_config c' n.cfg ≡ false))
      → Advances m (reloaded w c n)
  reloaded-Advances none m n e h = ground arith
  reloaded-Advances (some c) m n e h = elim (Bool-cases (same_config c n.cfg)) [
    | inl same ↦ rw same (ground arith)
    | inr changed ↦ absurd (h (c, refl, changed))
  ]

  -- Whatever the event, the stage does not go back: only user activity and a reload of a config
  -- that differs take the machine out of the order idle, saver, lock, blank. This holds of events
  -- that come twice or out of order, too.
  pub handle-advances :
      (e : Event) (m : Machine) → ¬ Resets e m → rank m.stage ≤ rank (handle w e m).stage
  unfolding handle handle_watch reload
  handle-advances (fired id) m h = on_found-Advances (find_watch id m.watches) id m h
  handle-advances (launched r) m h =
      ground (arith, ap (λ (p : Policy). p.stage) (policy-handle_launch w r m))
  handle-advances module_done m h =
      ground (arith, ap (λ (p : Policy). p.stage) (policy-on_module_exit w m))
  handle-advances (copy_exit e) m h =
      ground (arith, ap (λ (p : Policy). p.stage) (policy-on_copy_exit w e m))
  handle-advances (lock_changed b) m h =
      ground (arith, ap (λ (p : Policy). p.stage) (policy-on_lock_change w b m))
  handle-advances reload_asked m h =
      reloaded-Advances (w.load_config m.history) m (call Call.load_config m) refl h
  handle-advances _ m h = omega arith
