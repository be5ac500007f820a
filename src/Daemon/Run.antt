-- ===== src/Daemon/Run.antt =====
-- internal/daemon/daemon.go: `Run`, its event loop, and `shutdown`. The channels that `Run` selects
-- on are a list of events; the goroutines behind them choose the order.
use retrosaver.Prelude.{Bool, false, List, [], ◌∷◌, Option, none, some, if◌then◌else◌}
use retrosaver.Config.{Config}
use retrosaver.Daemon.{Stage, WatchId, World, LaunchResult, CopyExit, Machine, Call}
use retrosaver.Daemon.Watches.{call, arm}
use retrosaver.Daemon.Launches.{handle_launch, stop_saver, stop_current}
use retrosaver.Daemon.Stages.{handle_watch, on_lock_change, reload, next_gen}
use retrosaver.Daemon.Exits.{on_module_exit, on_copy_exit}

pub data Event : Type 0 where
  context_done fired_closed module_done locks_closed reload_asked : Event
  fired : WatchId → Event
  launched : LaunchResult → Event
  copy_exit : CopyExit → Event
  lock_changed : Bool → Event

-- What `Run` does next: wait for another event, or return with no error or with one.
pub data Verdict : Type 0 where
  waiting returned failed : Verdict

abbrev pub new_machine : Config → List Call → Machine
new_machine c h = record {
  cfg = c;
  include = c.include;
  exclude = c.exclude;
  watches = [];
  stage = Stage.idle;
  gen = 0;
  cancel = none;
  current = none;
  current_names = [];
  current_done = none;
  current_exits = none;
  dead = false;
  blanked = false;
  active_armed = false;
  used = [];
  attempts = 0;
  cycles = 0;
  deaths = 0;
  monitor_deaths = [];
  fatal = false;
  launches = [];
  history = h;
  panicked = false;
}

module _ (w : World) where
  -- The handlers; an event that no handler serves leaves the machine alone.
  unfoldable pub handle : Event → Machine → Machine
  handle (fired id) m = handle_watch w id m
  handle (launched r) m = handle_launch w r m
  handle module_done m = on_module_exit w m
  handle (copy_exit e) m = on_copy_exit w e m
  handle (lock_changed locked) m = on_lock_change locked m
  handle reload_asked m = reload w m
  handle context_done m = m
  handle fired_closed m = m
  handle locks_closed m = m

  abbrev pub verdict : Event → Machine → Verdict
  verdict context_done m = returned
  verdict fired_closed m = failed
  verdict locks_closed m = waiting
  verdict _ m = if m.fatal then failed else waiting

  -- The loop, over the events that the channels deliver. Once it is over, events stay unread.
  unfoldable pub loop : List Event → Machine → Machine × Verdict
  loop [] m = (m, waiting)
  loop (e ∷ es) m =
      let m' = handle e m in
      elim (verdict e m') [
        | waiting ↦ loop es m'
        | returned ↦ (m', returned)
        | failed ↦ (m', failed)
      ]

  abbrev stop_pending : Option LaunchResult → Machine → Machine
  stop_pending none m = m
  stop_pending (some r) m = stop_current r.saver m

  -- `pending` is a launch result that is still in the channel.
  unfoldable pub shutdown : Option LaunchResult → Machine → Machine
  shutdown pending m =
      let m' = stop_saver (record m { gen = next_gen m.gen }) in
      call Call.restore_idle_delay (call Call.backstop (stop_pending pending m'))

  -- The deferred calls, last deferred first; the lock watcher is closed if there is one.
  abbrev pub tear_down : Bool → Option LaunchResult → Machine → Machine
  tear_down watching pending m =
      let m' = if watching then call Call.close_locks m else m in
      call Call.close_monitor (shutdown pending m')

  abbrev pub serve : Bool → Option LaunchResult → List Event → Machine → Machine × Verdict
  serve watching pending es m =
      let (m', v) = loop es m in
      elim v [
        | waiting ↦ (m', waiting)
        | returned ↦ (tear_down watching pending m', returned)
        | failed ↦ (tear_down watching pending m', failed)
      ]

  abbrev pub armed_run :
      Bool → Option LaunchResult → List Event → Machine × Bool → Machine × Verdict
  armed_run watching pending es (m, ok) =
      if ok then serve watching pending es m else (tear_down watching pending m, failed)

  abbrev pub owned_run : Config → Option LaunchResult → List Event → List Call → Machine × Verdict
  owned_run c pending es h =
      armed_run (w.watch_locks h) pending es (arm w (new_machine c (Call.watch_locks ∷ h)))

  unfoldable pub run : Config → Option LaunchResult → List Event → Machine × Verdict
  run c pending es =
      let connected = Call.connect ∷ [] in
      let owning = Call.set_idle_delay 0 ∷ connected in
      if w.connect []
      then (if w.set_idle_delay connected 0
          then owned_run c pending es owning
          else (new_machine c (Call.close_monitor ∷ owning), failed))
      else (new_machine c connected, failed)
