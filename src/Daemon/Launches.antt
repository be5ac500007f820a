-- ===== src/Daemon/Launches.antt =====
-- internal/daemon/daemon.go: `startLaunch`, `handleLaunch`, `retryable`, `stopSaver`, `closeDead`.
use retrosaver.Prelude.{
  ℕ, ◌+◌, Bool, true, false, not, ◌&&◌, ◌||◌, List, [], ◌∷◌, ◌++◌, Option, none, some, ltb, ◌==◌,
  if◌then◌else◌, is_some, length, Text, texts_eq,
}
use retrosaver.Daemon.{
  Stage, idle, saver, lock, blank, SaverId, LaunchError, canceled, deadline_exceeded, World,
  LaunchResult, Machine, Call,
}
use retrosaver.Daemon.Watches.{call}
use retrosaver.Daemon.Pick.{after, pick_set, monitors}

abbrev pub rank : Stage → ℕ
rank idle = 0
rank saver = 1
rank lock = 2
rank blank = 3

-- `m.stage >= s`
abbrev pub reached : Stage → Machine → Bool
reached s m = not (ltb (rank m.stage) (rank s))

abbrev pub is_saver_stage : Stage → Bool
is_saver_stage saver = true
is_saver_stage _ = false

-- `current.Stop()`, whose error is only logged.
abbrev pub stop_current : Option SaverId → Machine → Machine
stop_current none m = m
stop_current (some s) m = call (Call.stop s) m

-- `context.WithCancel` and the worker goroutine. A launch's context is the number of launches
-- started before it.
abbrev pub begin_launch : List Text → Machine → Machine
begin_launch names m =
    let context = length m.launches in
    record m {
      used = m.used ++ names;
      attempts = m.attempts + 1;
      cancel = some context;
      launches = record { context = context; gen = m.gen; names = names } ∷ m.launches;
      history = Call.launch context names ∷ m.history;
    }

abbrev pub launch_names : List Text → Machine → Machine
launch_names names m =
    if is_some m.current && not m.dead && texts_eq names m.current_names
    then m
    else begin_launch names m

abbrev pub launch_drawn : Option (List Text) → Machine → Machine
launch_drawn none m = m
launch_drawn (some names) m = launch_names names m

unfoldable pub start_launch : World → Machine → Machine
start_launch w m =
    let (m', n) = monitors w m in let d = pick_set w n m' in launch_drawn d.result (after m' d)

abbrev pub cancel_launch : Machine → Machine
cancel_launch m = elim m.cancel [
  | none ↦ m
  | some c ↦ record (call (Call.cancel_context c) m) { cancel = none }
]

unfoldable pub stop_saver : Machine → Machine
stop_saver m =
    let m' = cancel_launch m in
    record (stop_current m'.current m') {
      current_done = none;
      current_exits = none;
      dead = false;
      current = none;
      current_names = [];
    }

-- A call through a nil saver would panic.
abbrev pub stop_dead : Option SaverId → Machine → Machine
stop_dead none m = record m { panicked = true }
stop_dead (some s) m = record (call (Call.stop s) m) { current = none; current_names = [] }

unfoldable pub close_dead : Machine → Machine
close_dead m = if m.dead then stop_dead m.current (record m { dead = false }) else m

abbrev pub retryable : LaunchError → Bool
retryable canceled = false
retryable deadline_exceeded = false
retryable _ = true

-- `r.cancel()`, and the current launch's own cancel function is spent.
abbrev pub settle : LaunchResult → Machine → Machine
settle r m =
    let m' = call (Call.cancel_context r.origin.context) m in
    if r.origin.gen == m.gen then record m' { cancel = none } else m'

abbrev pub retry : World → LaunchError → Machine → Machine
retry w e m = if retryable e && ltb m.attempts 2 then start_launch w m else m

abbrev pub close_unless_launching : Machine → Machine
close_unless_launching m = if is_some m.cancel then m else close_dead m

-- A launch with no error hands back a saver; asking a nil one for its channels would panic.
abbrev pub take_over : List Text → Option SaverId → Machine → Machine
take_over names none m = record m { panicked = true }
take_over names (some s) m =
    let each = ltb 1 (length names) in
    record (stop_current m.current m) {
      current = some s;
      current_names = names;
      current_done = if each then none else some s;
      current_exits = if each then some s else none;
      dead = false;
    }

abbrev pub land : World → LaunchResult → Machine → Machine
land w r m = elim r.error [
  | some e ↦ close_unless_launching (retry w e m)
  | none ↦ take_over r.origin.names r.saver m
]

unfoldable pub handle_launch : World → LaunchResult → Machine → Machine
unfolding start_launch close_dead
handle_launch w r m =
    let m' = settle r m in
    if not (r.origin.gen == m'.gen) || reached lock m' then stop_current r.saver m' else land w r m'
