-- ===== src/Daemon.antt =====
-- internal/daemon/daemon.go: the state of the idle state machine and the collaborators it calls.
-- The handlers are in the children: Watches (arming), Pick, Launch, Stages, Exits, Run.
--
-- The collaborators (idleMonitor, launcher, controller, saver, lockWatcher) are interfaces in the
-- source. `World` gives their answers as functions of the history of calls made so far, so every
-- sequence of answers is some world; what each call did is the history itself, newest call first.
-- Log lines and the tests' trace channel are left out.
pub mod Watches
pub mod Pick
pub mod PickLaws
pub mod Launches
pub mod Stages
pub mod Exits
pub mod Run
pub mod Screen
pub mod Sound
pub mod Policy
pub mod Armed
pub mod ArmedSteps
pub mod Copies
pub mod Swaps
pub mod Schedule
pub mod Reach
pub mod Stale
pub mod Later
pub mod Past
pub mod Held
pub mod Handed
pub mod Order
pub mod Zero
pub mod Launcher
use retrosaver.Prelude.{ℕ, Bool, List, Option, Text}
use retrosaver.Config.{Duration, Config}

pub data Stage : Type 0 where
  idle saver lock blank : Stage

pub data WatchKind : Type 0 where
  saver_watch cycle_watch lock_watch blank_watch active_watch : WatchKind

-- A watch id, a running saver and a launch's context are known to the machine by their identity.
abbrev pub WatchId : Type 0
WatchId = ℕ

abbrev pub SaverId : Type 0
SaverId = ℕ

abbrev pub ContextId : Type 0
ContextId = ℕ

-- How a launch fails: `errors.Is` tells the two context errors and ErrNoWindow from the rest.
pub data LaunchError : Type 0 where
  canceled deadline_exceeded no_window other_failure : LaunchError

pub data Call : Type 0 where
  add_idle_watch : Duration → Call
  add_user_active_watch : Call
  remove_watch : WatchId → Call
  idletime : Call
  locked : Call
  lock_session : Call
  set_idle_delay : ℕ → Call
  restore_idle_delay : Call
  pick : List Text → Call
  monitors : Call
  set_filters : List Text → List Text → Call
  launch : ContextId → List Text → Call
  cancel_context : ContextId → Call
  stop : SaverId → Call
  replace : SaverId → ℕ → Text → Call
  load_config : Call
  backstop : Call
  connect : Call
  watch_locks : Call
  close_locks : Call
  close_monitor : Call

-- The answers. `none`, or `false` for a call with no result, is an error.
pub record World : Type 0 where
  pub connect : List Call → Bool
  pub watch_locks : List Call → Bool
  pub add_idle_watch : List Call → Duration → Option WatchId
  pub add_user_active_watch : List Call → Option WatchId
  pub idletime : List Call → Option Duration
  pub locked : List Call → Option Bool
  pub set_idle_delay : List Call → ℕ → Bool
  -- The launcher picks under the lists that SetFilters gave it: include, exclude, avoid.
  pub pick : List Call → List Text → List Text → List Text → Option Text
  pub monitors : List Call → Option ℕ
  pub replace : List Call → SaverId → ℕ → Text → Bool
  pub load_config : List Call → Option Config

-- A launch that the worker goroutine was started for.
pub record Launch : Type 0 where
  pub context : ContextId
  pub gen : ℕ
  pub names : List Text

-- `launchResult`: the launch that ended, and the saver or the error it hands back.
pub record LaunchResult : Type 0 where
  pub origin : Launch
  pub saver : Option SaverId
  pub error : Option LaunchError

-- `window.Exit`, less what is only logged.
pub record CopyExit : Type 0 where
  pub monitor : ℕ
  pub name : Text

-- `machine`, with the parts of `Daemon` that change (the config, and the launcher's two lists).
-- Three fields are the model's: `launches` has every worker goroutine started, newest first,
-- `history` the calls made, and `panicked` records where Go would panic (a call through a nil
-- interface, an index out of range). `gen` is a uint64. The counters `attempts`, `deaths` and
-- those of `monitor_deaths` stay below 4, so they are plain numbers.
pub record Machine : Type 0 where
  pub cfg : Config
  pub include : List Text
  pub exclude : List Text
  pub watches : List (WatchId × WatchKind)
  pub stage : Stage
  pub gen : ℕ
  pub cancel : Option ContextId
  pub current : Option SaverId
  pub current_names : List Text
  pub current_done : Option SaverId
  pub current_exits : Option SaverId
  pub dead : Bool
  pub blanked : Bool
  pub active_armed : Bool
  pub used : List Text
  pub attempts : ℕ
  pub cycles : ℕ
  pub deaths : ℕ
  pub monitor_deaths : List (ℕ × ℕ)
  pub fatal : Bool
  pub launches : List Launch
  pub history : List Call
  pub panicked : Bool
