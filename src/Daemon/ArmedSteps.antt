-- ===== src/Daemon/ArmedSteps.antt =====
-- Every handler of internal/daemon/daemon.go keeps the watch map in order.
use retrosaver.Prelude.{
  ℕ, ◌≤◌, ◌≡◌, refl, sym, ap, subst, Bool, true, false, not, Option, none, some, arith, length,
  if◌then◌else◌, if-both, add64,
}
use retrosaver.Config.{Config}
use retrosaver.Daemon.{
  Stage, idle, saver, lock, blank, WatchId, WatchKind, saver_watch, cycle_watch, lock_watch,
  blank_watch, active_watch, World, Machine, Call,
}
use retrosaver.Daemon.Watches.{
  call, delete_watch, find_watch, arm, rearm, remove_watches, ensure_active_watch, arm_cycle,
  is_locked,
}
use retrosaver.Daemon.Launches.{is_saver_stage, reached, start_launch, stop_saver, handle_launch}
use retrosaver.Daemon.Stages.{
  on_saver, on_cycle, on_lock, on_blank, reset, on_active, reload, reloaded, same_config, or_fatal,
  on_lock_change, handle_watch, on_found, apply_config, blank_idle_delay,
}
use retrosaver.Daemon.Exits.{on_module_exit, on_copy_exit}
use retrosaver.Daemon.Run.{
  Event, fired, launched, module_done, copy_exit, lock_changed, reload_asked, new_machine, handle,
}
use retrosaver.Daemon.Reach.{Reach, start, next}
use retrosaver.Daemon.Policy.{
  policy, policy-stop_saver, policy-start_launch, policy-handle_launch, policy-on_module_exit,
  policy-on_copy_exit, policy-on_lock_change,
}
use retrosaver.Daemon.Armed.{
  count_kind, is_idle, count_kind-delete_watch, count_kind-found, count_kind-arm,
  count_kind-ensure_active_watch, count_kind-arm_cycle, IsArmed, length-count_kind,
}

abbrev Armed : Machine → Type 0
Armed m = IsArmed (policy m)

Armed-same : (m n : Machine) → policy n ≡ policy m → Armed m → Armed n
Armed-same m n e a = subst IsArmed (sym e) a

module _ (w : World) where
  ensure-flag :
      (m : Machine)
      → (ensure_active_watch w m).active_armed ≡ false
      → ((ensure_active_watch w m).watches ≡ m.watches) × (m.active_armed ≡ false)
  unfolding ensure_active_watch
  ensure-flag m h = ground arith

  ensure-armed :
      (m : Machine) → m.active_armed ≡ true → (ensure_active_watch w m).watches ≡ m.watches
  unfolding ensure_active_watch
  ensure-armed m h = ground arith

  ensure-stage : (m : Machine) → (ensure_active_watch w m).stage ≡ m.stage
  unfolding ensure_active_watch
  ensure-stage m = ground arith

  ensure-Armed : (m : Machine) → is_idle m.stage ≡ false → Armed m → Armed (ensure_active_watch w m)
  ensure-Armed m s a =
      let up = λ (k : WatchKind). count_kind-ensure_active_watch w k m in
      ground (
        arith,
        ensure-stage m,
        ensure-flag m,
        ensure-armed m,
        up active_watch,
        up cycle_watch,
        up saver_watch,
        up lock_watch,
        up blank_watch,
      )

  cycle-flag :
      (m : Machine)
      → ((arm_cycle w m).active_armed ≡ m.active_armed) × ((arm_cycle w m).stage ≡ m.stage)
  unfolding arm_cycle
  cycle-flag m = ground arith

  cycle-Armed :
      (m : Machine)
      → is_idle m.stage ≡ false
      → count_kind cycle_watch m.watches ≡ 0
      → Armed m
      → Armed (arm_cycle w m)
  cycle-Armed m s z a =
      let up = λ (k : WatchKind). count_kind-arm_cycle w k m in
      ground (
        arith,
        cycle-flag m,
        up active_watch,
        up cycle_watch,
        up saver_watch,
        up lock_watch,
        up blank_watch,
      )

  launch-Armed : (m : Machine) → Armed m → Armed (start_launch w m)
  launch-Armed m a = Armed-same m (start_launch w m) (policy-start_launch w m) a

  to_saver-Armed : (m : Machine) → Armed m → Armed (record m { stage = saver })
  to_saver-Armed m a = ground arith

  on_saver-Armed : (m : Machine) → Armed m → Armed (on_saver w m)
  unfolding on_saver
  on_saver-Armed m a =
      let m0 = record m { stage = saver } in
      let m' = ensure_active_watch w m0 in
      let asked = call Call.locked m' in
      let a' = ensure-Armed m0 refl (to_saver-Armed m a) in
      if-both Armed (reached saver m) m
        (if is_locked w m' then asked else start_launch w (arm_cycle w asked)) (λ late. a)
        λ early.
          if-both Armed (is_locked w m') asked (start_launch w (arm_cycle w asked)) (λ h. a')
            λ h. launch-Armed (arm_cycle w asked) (
              cycle-Armed asked (ap is_idle (ensure-stage m0))
                (ground (arith, count_kind-ensure_active_watch w cycle_watch m0)) a')

  to_count : (n k : ℕ) (m : Machine) → Armed m → Armed (record m { cycles = n; attempts = k })
  to_count n k m a = ground arith

  on_cycle-Armed :
      (id : WatchId) (m : Machine)
      → find_watch id m.watches ≡ some cycle_watch
      → Armed m
      → Armed (on_cycle w id m)
  unfolding on_cycle
  on_cycle-Armed id m found a =
      let m' = record (call (Call.remove_watch id) m) { watches = delete_watch id m.watches } in
      let asked = call Call.locked m' in
      let fresh = record asked { cycles = add64 m.cycles 1; attempts = 0 } in
      let less = λ (k : WatchKind). count_kind-delete_watch k id m.watches in
      let a' : Armed m' = ground (
        arith,
        less active_watch,
        less cycle_watch,
        less saver_watch,
        less lock_watch,
        less blank_watch,
      ) in
      let recount = λ (b : Armed m'). to_count (add64 m.cycles 1) 0 asked b in
      if-both Armed (not (is_saver_stage m.stage)) m'
        (if is_locked w m' then asked else start_launch w (arm_cycle w fresh)) (λ h. a')
        λ here.
          if-both Armed (is_locked w m') asked (start_launch w (arm_cycle w fresh)) (λ h. a')
            λ h. launch-Armed (arm_cycle w fresh) (
              cycle-Armed fresh (ground arith)
                (ground (arith, count_kind-found cycle_watch id m.watches found)) (recount a'))

  stop-Armed : (m : Machine) → Armed m → Armed (stop_saver m)
  stop-Armed m a = Armed-same m (stop_saver m) (policy-stop_saver m) a

  to_stage-Armed :
      (s : Stage) (m : Machine) → is_idle s ≡ false → Armed m → Armed (record m { stage = s })
  to_stage-Armed s m h a = ground arith

  on_lock-Armed : (m : Machine) → Armed m → Armed (on_lock w m)
  unfolding on_lock
  on_lock-Armed m a =
      let m0 = record m { stage = lock } in
      let n = stop_saver (ensure_active_watch w m0) in
      if-both Armed (reached lock m) m (call Call.lock_session n) (λ late. a)
        λ early.
          stop-Armed (ensure_active_watch w m0)
            (ensure-Armed m0 refl (to_stage-Armed lock m refl a))

  on_blank-Armed : (m : Machine) → Armed m → Armed (on_blank w m)
  unfolding on_blank
  on_blank-Armed m a =
      let m0 = record m { stage = blank } in
      let n = stop_saver (ensure_active_watch w m0) in
      let set = call (Call.set_idle_delay blank_idle_delay) n in
      let done = w.set_idle_delay n.history blank_idle_delay in
      let a' : Armed n =
        stop-Armed (ensure_active_watch w m0)
          (ensure-Armed m0 refl (to_stage-Armed blank m refl a)) in
      let dimmed : Armed (record set { blanked = true }) = ground arith in
      if-both Armed (reached blank m) m (if done then record set { blanked = true } else set)
        (λ late. a)
        λ early. if-both Armed done (record set { blanked = true }) set (λ h. dimmed) (λ h. a')

  arm-flag :
      (m : Machine) → ((arm w m).0.active_armed ≡ m.active_armed) × ((arm w m).0.stage ≡ m.stage)
  unfolding arm
  arm-flag m = ground arith

  -- A fresh set of watches, in the idle stage.
  arm-Armed : (m : Machine) → is_idle m.stage ≡ true → m.active_armed ≡ false → Armed (arm w m).0
  arm-Armed m s f =
      let up = λ (k : WatchKind). count_kind-arm w k m in
      ground (
        arith,
        arm-flag m,
        up active_watch,
        up cycle_watch,
        up saver_watch,
        up lock_watch,
        up blank_watch,
      )

  or_fatal-Armed : (x : Machine × Bool) → Armed x.0 → Armed (or_fatal w x)
  or_fatal-Armed (m, ok) a = ground arith

  pub reset-stage : (m : Machine) → (reset w m).stage ≡ idle
  unfolding reset
  reset-stage m = refl

  pub rearmed-Armed : (m : Machine) → Armed (or_fatal w (rearm w (reset w m)))
  unfolding rearm
  rearmed-Armed m =
      let n = reset w m in
      or_fatal-Armed (rearm w n) (
        arm-Armed (record n { active_armed = false; history = remove_watches n.watches n.history })
          (ap is_idle (reset-stage m)) refl)

  on_found-Armed :
      (k : Option WatchKind) (id : WatchId) (m : Machine)
      → find_watch id m.watches ≡ k
      → Armed m
      → Armed (on_found w k id m)
  unfolding on_active
  on_found-Armed none id m e a = a
  on_found-Armed (some saver_watch) id m e a = on_saver-Armed m a
  on_found-Armed (some cycle_watch) id m e a = on_cycle-Armed id m e a
  on_found-Armed (some lock_watch) id m e a = on_lock-Armed m a
  on_found-Armed (some blank_watch) id m e a = on_blank-Armed m a
  on_found-Armed (some active_watch) id m e a = rearmed-Armed m

  reloaded-Armed : (c : Option Config) (m : Machine) → Armed m → Armed (reloaded w c m)
  reloaded-Armed none m a = a
  reloaded-Armed (some c) m a =
      if-both Armed (same_config c m.cfg) m (apply_config w c m) (λ h. a) (λ h. rearmed-Armed _)

  Armed-gen : (g : ℕ) (m : Machine) → Armed m → Armed (record m { gen = g })
  Armed-gen g m a = ground arith

  handle-Armed : (e : Event) (m : Machine) → Armed m → Armed (handle w e m)
  unfolding handle handle_watch reload
  handle-Armed (fired id) m a = on_found-Armed (find_watch id m.watches) id m refl a
  handle-Armed (launched r) m a = Armed-same m (handle_launch w r m) (policy-handle_launch w r m) a
  handle-Armed module_done m a = Armed-same m (on_module_exit w m) (policy-on_module_exit w m) a
  handle-Armed (copy_exit e) m a = Armed-same m (on_copy_exit w e m) (policy-on_copy_exit w e m) a
  handle-Armed (lock_changed b) m a =
      let g = (on_lock_change b m).gen in
      Armed-same (record m { gen = g }) (on_lock_change b m) (policy-on_lock_change w b m)
        (Armed-gen g m a)
  handle-Armed reload_asked m a =
      reloaded-Armed (w.load_config m.history) (call Call.load_config m) a
  handle-Armed _ m a = a

  Reach-Armed : {m : Machine} → Reach w m → Armed m
  Reach-Armed (start c h) = arm-Armed (new_machine c h) refl refl
  Reach-Armed (next e r h a) = handle-Armed e _ (Reach-Armed r)

  one_of_kind : (m : Machine) (k : WatchKind) → Armed m → count_kind k m.watches ≤ 1
  one_of_kind m saver_watch i = i.one_saver
  one_of_kind m lock_watch i = i.one_lock
  one_of_kind m blank_watch i = i.one_blank
  one_of_kind m active_watch i = i.one_active
  one_of_kind m cycle_watch i = i.one_swap

  -- In every machine that `Reach` admits the watch map holds at most one watch of each kind, so at
  -- most five, also when LOCK_AFTER=0 lets the saver swap modules all night; and in the idle stage
  -- it holds no user-active watch and no swap watch.
  pub Reach-watches :
      {m : Machine}
      → Reach w m
      → (length m.watches ≤ 5)
        × ((k : WatchKind) → count_kind k m.watches ≤ 1)
        × (m.stage ≡ idle
            → (count_kind active_watch m.watches ≡ 0) × (count_kind cycle_watch m.watches ≡ 0))
  Reach-watches {m} r =
      let i = Reach-Armed r in
      (
        ground (arith, i, length-count_kind m.watches),
        λ k. one_of_kind m k i,
        λ here. ground (arith, i),
      )
