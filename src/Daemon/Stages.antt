-- ===== src/Daemon/Stages.antt =====
-- internal/daemon/daemon.go: the stage handlers `onSaver`, `onCycle`, `onLock`, `onBlank`,
-- `onActive`, with `reset`, `reload`, `sameConfig`, `onLockChange` and `handleWatch`.
use retrosaver.Prelude.{
  ℕ, ◌+◌, ◌%◌, Bool, true, false, not, ◌&&◌, ◌||◌, [], Option, none, some, ◌==◌, if◌then◌else◌,
  is_some, add64, word, texts_eq,
}
use retrosaver.Config.{MonitorMode, same, different, Config}
use retrosaver.Daemon.{
  idle, saver, lock, blank, WatchId, WatchKind, saver_watch, cycle_watch, lock_watch, blank_watch,
  active_watch, World, Machine, Call,
}
use retrosaver.Daemon.Watches.{
  call, delete_watch, find_watch, rearm, ensure_active_watch, is_locked, arm_cycle,
}
use retrosaver.Daemon.Launches.{reached, is_saver_stage, start_launch, stop_saver}

abbrev pub blank_idle_delay : ℕ
blank_idle_delay = 10

-- `gen` is a uint64, and wraps.
abbrev pub next_gen : ℕ → ℕ
next_gen g = (g + 1) % word

abbrev same_mode : MonitorMode → MonitorMode → Bool
same_mode same same = true
same_mode different different = true
same_mode _ _ = false

unfoldable pub same_config : Config → Config → Bool
same_config a b =
    a.saver_delay == b.saver_delay
    && a.lock_after == b.lock_after
    && a.blank_after == b.blank_after
    && a.cycle_after == b.cycle_after
    && same_mode a.monitors b.monitors
    && texts_eq a.include b.include
    && texts_eq a.exclude b.exclude

abbrev pub ignores_lock : Bool → Machine → Bool
ignores_lock locked m =
    not locked || not (is_saver_stage m.stage) || not (is_some m.current || is_some m.cancel)

unfoldable pub on_lock_change : Bool → Machine → Machine
on_lock_change locked m =
    if ignores_lock locked m then m else stop_saver (record m { gen = next_gen m.gen })

module _ (w : World) where
  unfoldable pub on_saver : Machine → Machine
  on_saver m =
      if reached saver m
      then m
      else let m' = ensure_active_watch w (record m { stage = saver }) in
        let asked = call Call.locked m' in
        if is_locked w m' then asked else start_launch w (arm_cycle w asked)

  unfoldable pub on_cycle : WatchId → Machine → Machine
  on_cycle id m =
      let m' = record (call (Call.remove_watch id) m) { watches = delete_watch id m.watches } in
      let asked = call Call.locked m' in
      if not (is_saver_stage m.stage)
      then m'
      else if is_locked w m'
      then asked
      else start_launch w (arm_cycle w (record asked { cycles = add64 m.cycles 1; attempts = 0 }))

  unfoldable pub on_lock : Machine → Machine
  on_lock m =
      if reached lock m
      then m
      else call Call.lock_session (stop_saver (ensure_active_watch w (record m { stage = lock })))

  unfoldable pub on_blank : Machine → Machine
  on_blank m =
      if reached blank m
      then m
      else let m' = stop_saver (ensure_active_watch w (record m { stage = blank })) in
        let set = call (Call.set_idle_delay blank_idle_delay) m' in
        if w.set_idle_delay m'.history blank_idle_delay then record set { blanked = true } else set

  -- `SetIdleDelay(0)` if the display was blanked; it stays owed if that fails.
  abbrev pub unblank : Machine → Machine
  unblank m =
      if m.blanked
      then record (call (Call.set_idle_delay 0) m) { blanked = not (w.set_idle_delay m.history 0) }
      else m

  unfoldable pub reset : Machine → Machine
  unfolding stop_saver
  reset m = record (unblank (stop_saver (record m { gen = next_gen m.gen }))) {
    stage = idle;
    used = [];
    attempts = 0;
    cycles = 0;
    deaths = 0;
    monitor_deaths = [];
  }

  abbrev pub or_fatal : Machine × Bool → Machine
  or_fatal (m, ok) = if ok then m else record m { fatal = true }

  unfoldable pub on_active : Machine → Machine
  on_active m = or_fatal (rearm w (reset m))

  abbrev pub apply_config : Config → Machine → Machine
  apply_config c m = or_fatal (
      rearm w (
        reset (record (call (Call.set_filters c.include c.exclude) m) {
          cfg = c;
          include = c.include;
          exclude = c.exclude;
        })))

  abbrev pub reloaded : Option Config → Machine → Machine
  reloaded none m = m
  reloaded (some c) m = if same_config c m.cfg then m else apply_config c m

  unfoldable pub reload : Machine → Machine
  unfolding same_config
  reload m = reloaded (w.load_config m.history) (call Call.load_config m)

  abbrev pub on_kind : WatchKind → WatchId → Machine → Machine
  on_kind saver_watch id m = on_saver m
  on_kind cycle_watch id m = on_cycle id m
  on_kind lock_watch id m = on_lock m
  on_kind blank_watch id m = on_blank m
  on_kind active_watch id m = on_active m

  -- An unknown id is ignored.
  abbrev pub on_found : Option WatchKind → WatchId → Machine → Machine
  on_found none id m = m
  on_found (some kind) id m = on_kind kind id m

  unfoldable pub handle_watch : WatchId → Machine → Machine
  handle_watch id m = on_found (find_watch id m.watches) id m
