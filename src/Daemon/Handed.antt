-- ===== src/Daemon/Handed.antt =====
-- The stage handlers of internal/daemon/daemon.go leave no module behind, and so no event does.
use retrosaver.Prelude.{
  suc, ◌<◌, ◌≡◌, ◌≢◌, ◌⊎◌, inl, inr, Bool, false, not, List, [], ◌∷◌, Option, none, some, arith,
  if-both, if◌then◌else◌, Member, word, add64,
}
use retrosaver.Config.{Config}
use retrosaver.Daemon.{
  saver, lock, blank, SaverId, WatchId, WatchKind, saver_watch, cycle_watch, lock_watch,
  blank_watch, active_watch, World, Machine, Call,
}
use retrosaver.Daemon.Watches.{
  call, find_watch, delete_watch, is_locked, ensure_active_watch, arm_cycle, arm, rearm,
  remove_watches,
}
use retrosaver.Daemon.Launches.{is_saver_stage, reached, start_launch, stop_saver, handle_launch}
use retrosaver.Daemon.Stages.{
  on_saver, on_cycle, on_lock, on_blank, on_active, on_found, on_lock_change, handle_watch, reset,
  reload, reloaded, same_config, apply_config, or_fatal, next_gen, ignores_lock,
}
use retrosaver.Daemon.Run.{
  Event, fired, launched, module_done, copy_exit, lock_changed, reload_asked, context_done,
  fired_closed, locks_closed, handle,
}
use retrosaver.Daemon.Held.{
  Held, start_launch-Held, stop_saver-Held, handle_launch-Held, on_module_exit-Held,
  on_copy_exit-Held, handed-Held,
}
use retrosaver.Daemon.Later.{after_events}
use retrosaver.Daemon.Reach.{Allowed, Reach, next, Reach-quiet}

module _ (w : World) (s : SaverId) where
  ensure_active_watch-Held : (m : Machine) → Held w s m → Held w s (ensure_active_watch w m)
  unfolding ensure_active_watch
  ensure_active_watch-Held m h = ground arith

  arm_cycle-Held : (m : Machine) → Held w s m → Held w s (arm_cycle w m)
  unfolding arm_cycle
  arm_cycle-Held m h = ground arith

  cycle_and_launch-Held : (m : Machine) → Held w s m → Held w s (start_launch w (arm_cycle w m))
  cycle_and_launch-Held m h = start_launch-Held w s (arm_cycle w m) (arm_cycle-Held m h)

  stop_armed-Held : (m : Machine) → Held w s m → Held w s (stop_saver (ensure_active_watch w m))
  stop_armed-Held m h = stop_saver-Held w s (ensure_active_watch w m) (ensure_active_watch-Held m h)

  asked-Held : (m : Machine) → Held w s m → Held w s (call Call.locked m)
  asked-Held m h = ground arith

  on_saver-Held : (m : Machine) → Held w s m → Held w s (on_saver w m)
  unfolding on_saver
  on_saver-Held m h =
      let m' = ensure_active_watch w (record m { stage = saver }) in
      let asked = call Call.locked m' in
      let h' = asked-Held m' (ensure_active_watch-Held (record m { stage = saver }) h) in
      if-both (Held w s) (reached saver m) m
        (if is_locked w m' then asked else start_launch w (arm_cycle w asked)) (λ _. h)
        λ _.
          if-both (Held w s) (is_locked w m') asked (start_launch w (arm_cycle w asked)) (λ _. h')
            (λ _. cycle_and_launch-Held asked h')

  on_cycle-Held : (id : WatchId) (m : Machine) → Held w s m → Held w s (on_cycle w id m)
  unfolding on_cycle
  on_cycle-Held id m h =
      let m' = record (call (Call.remove_watch id) m) { watches = delete_watch id m.watches } in
      let asked = call Call.locked m' in
      let next = record asked { cycles = add64 m.cycles 1; attempts = 0 } in
      let h' : Held w s m' = ground arith in
      if-both (Held w s) (not (is_saver_stage m.stage)) m'
        (if is_locked w m' then asked else start_launch w (arm_cycle w next)) (λ _. h')
        λ _.
          if-both (Held w s) (is_locked w m') asked (start_launch w (arm_cycle w next))
            (λ _. asked-Held m' h') (λ _. cycle_and_launch-Held next (asked-Held m' h'))

  on_lock-Held : (m : Machine) → Held w s m → Held w s (on_lock w m)
  unfolding on_lock
  on_lock-Held m h = ground (arith, stop_armed-Held (record m { stage = lock }) h)

  on_blank-Held : (m : Machine) → Held w s m → Held w s (on_blank w m)
  unfolding on_blank
  on_blank-Held m h = ground (arith, stop_armed-Held (record m { stage = blank }) h)

  reset-Held : (m : Machine) → Held w s m → Held w s (reset w m)
  unfolding reset
  reset-Held m h = ground (arith, stop_saver-Held w s (record m { gen = next_gen m.gen }) h)

  remove_watches-Member :
      (c : Call) (ws : List (WatchId × WatchKind)) (h : List Call)
      → Member c h
      → Member c (remove_watches ws h)
  unfolding remove_watches
  remove_watches-Member c [] h k = k
  remove_watches-Member c ((id, kind) ∷ ws) h k =
      remove_watches-Member c ws (Call.remove_watch id ∷ h) (inr k)

  arm-Held : (m : Machine) → Held w s m → Held w s (arm w m).0
  unfolding arm
  arm-Held m h = ground arith

  rearm-Held : (m : Machine) → Held w s m → Held w s (rearm w m).0
  unfolding rearm
  rearm-Held m h =
      arm-Held (record m { active_armed = false; history = remove_watches m.watches m.history })
        (elim h [
          | inl up ↦ inl up
          | inr gone ↦ inr (remove_watches-Member (Call.stop s) m.watches m.history gone)
        ])

  or_fatal-Held : (x : Machine × Bool) → Held w s x.0 → Held w s (or_fatal w x)
  or_fatal-Held x h = ground arith

  rearmed-Held : (m : Machine) → Held w s m → Held w s (or_fatal w (rearm w (reset w m)))
  rearmed-Held m h = or_fatal-Held (rearm w (reset w m)) (rearm-Held (reset w m) (reset-Held m h))

  on_found-Held :
      (k : Option WatchKind) (id : WatchId) (m : Machine)
      → Held w s m
      → Held w s (on_found w k id m)
  unfolding on_active
  on_found-Held none id m h = h
  on_found-Held (some saver_watch) id m h = on_saver-Held m h
  on_found-Held (some cycle_watch) id m h = on_cycle-Held id m h
  on_found-Held (some lock_watch) id m h = on_lock-Held m h
  on_found-Held (some blank_watch) id m h = on_blank-Held m h
  on_found-Held (some active_watch) id m h = rearmed-Held m h

  reloaded-Held : (o : Option Config) (m : Machine) → Held w s m → Held w s (reloaded w o m)
  reloaded-Held none m h = h
  reloaded-Held (some c) m h =
      if-both (Held w s) (same_config c m.cfg) m (apply_config w c m) (λ _. h)
        (λ _. rearmed-Held _ (ground arith))

  on_lock_change-Held : (b : Bool) (m : Machine) → Held w s m → Held w s (on_lock_change b m)
  unfolding on_lock_change
  on_lock_change-Held b m h =
      if-both (Held w s) (ignores_lock b m) m (stop_saver (record m { gen = next_gen m.gen }))
        (λ _. h) (λ _. stop_saver-Held w s (record m { gen = next_gen m.gen }) h)

  handle-Held : (e : Event) (m : Machine) → Held w s m → Held w s (handle w e m)
  unfolding handle handle_watch reload
  handle-Held (fired id) m h = on_found-Held (find_watch id m.watches) id m h
  handle-Held (launched r) m h = handle_launch-Held w s r m h
  handle-Held module_done m h = on_module_exit-Held w s m h
  handle-Held (copy_exit e) m h = on_copy_exit-Held w s e m h
  handle-Held (lock_changed b) m h = on_lock_change-Held b m h
  handle-Held reload_asked m h =
      reloaded-Held (w.load_config m.history) (call Call.load_config m) (ground arith)
  handle-Held _ m h = h

-- What a launch result hands over: no saver comes with an error.
abbrev IsHonest : Event → Type 0
IsHonest (launched r) = (r.error ≡ none) ⊎ (r.saver ≡ none)
IsHonest _ = Unit

-- Some launch result among the events hands the saver over.
abbrev pub HandedIn : SaverId → List Event → Type 0
HandedIn s [] = ⊥
HandedIn s (launched r ∷ es) = (r.saver ≡ some s) ⊎ HandedIn s es
HandedIn s (_ ∷ es) = HandedIn s es

module _ (w : World) where
  -- Each event may come to the machine that receives it.
  abbrev pub AllAllowed : List Event → Machine → Type 0
  AllAllowed [] m = Unit
  AllAllowed (e ∷ es) m =
      (suc m.gen < word) × Allowed e m × IsHonest e × AllAllowed es (handle w e m)

  after_events-Reach :
      (es : List Event) (m : Machine) → Reach w m → AllAllowed es m → Reach w (after_events w es m)
  after_events-Reach [] m r a = r
  after_events-Reach (e ∷ es) m r (fits, fine, _, a) =
      after_events-Reach es (handle w e m) (next e r fits fine) a

  after_events-Held :
      (s : SaverId) (es : List Event) (m : Machine) → Held w s m → Held w s (after_events w es m)
  after_events-Held s [] m h = h
  after_events-Held s (e ∷ es) m h = after_events-Held s es (handle w e m) (handle-Held w s e m h)

  HandedIn-Held :
      (s : SaverId) (es : List Event) (m : Machine)
      → AllAllowed es m
      → HandedIn s es
      → Held w s (after_events w es m)
  unfolding handle
  HandedIn-Held s [] m a h = absurd h
  HandedIn-Held s (launched r ∷ es) m (_, _, honest, a) (inl e) =
      after_events-Held s es (handle_launch w r m) (handed-Held w s r m honest e)
  HandedIn-Held s (launched r ∷ es) m (_, _, _, a) (inr h) =
      HandedIn-Held s es (handle_launch w r m) a h
  HandedIn-Held s (fired id ∷ es) m (_, _, _, a) h = HandedIn-Held s es _ a h
  HandedIn-Held s (module_done ∷ es) m (_, _, _, a) h = HandedIn-Held s es _ a h
  HandedIn-Held s (copy_exit e ∷ es) m (_, _, _, a) h = HandedIn-Held s es _ a h
  HandedIn-Held s (lock_changed b ∷ es) m (_, _, _, a) h = HandedIn-Held s es _ a h
  HandedIn-Held s (reload_asked ∷ es) m (_, _, _, a) h = HandedIn-Held s es _ a h
  HandedIn-Held s (context_done ∷ es) m (_, _, _, a) h = HandedIn-Held s es _ a h
  HandedIn-Held s (fired_closed ∷ es) m (_, _, _, a) h = HandedIn-Held s es _ a h
  HandedIn-Held s (locks_closed ∷ es) m (_, _, _, a) h = HandedIn-Held s es _ a h

  -- No module is left behind: after any sequence of events that may come to a reachable machine,
  -- each saver that one of their launch results has handed over is the one on screen or has been
  -- stopped; and outside the saver stage it has been stopped. No saver comes with an error, and the
  -- generation does not wrap.
  pub no_module_left :
      {m : Machine} (s : SaverId) (es : List Event)
      → Reach w m
      → AllAllowed es m
      → HandedIn s es
      → let n = after_events w es m in
        ((n.current ≡ some s) ⊎ Member (Call.stop s) n.history)
        × (n.stage ≢ saver → Member (Call.stop s) n.history)
  no_module_left {m} s es r a h =
      let held = HandedIn-Held s es m a h in
      (
        held,
        λ other.
            stopped (after_events w es m) held
              (Reach-quiet w (after_events-Reach es m r a) other).0,
      )
    where
      stopped :
          (n : Machine)
          → (n.current ≡ some s) ⊎ Member (Call.stop s) n.history
          → n.current ≡ none
          → Member (Call.stop s) n.history
      stopped n (inl up) dark = cc
      stopped n (inr gone) dark = gone
