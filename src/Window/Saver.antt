-- ===== src/Window/Saver.antt =====
-- internal/window/window.go: a saver, one module process per monitor, from its launch to its stop.
-- The X server's windows, the processes that start and whether they die, and the runtime files are
-- given.
use retrosaver.Prelude.{
  ℕ, suc, ◌%◌, Bool, true, false, not, ◌&&◌, ◌||◌, List, [], ◌∷◌, ◌++◌, Option, none, some, map,
  ltb, ◌==◌, if◌then◌else◌, length, get_elem?, set, Text,
}
use retrosaver.Chars.{after_last}
use retrosaver.Window.{Files, read_pids, write_state, clear_state_for, first_pid}

-- `child`, once its process is started.
pub record Child : Type 0 where
  pub pid : ℕ
  pub module_name : Text
  pub monitor : ℕ
  pub window : ℕ
  pub retired : Bool
  pub reaped : Bool

-- `Exit`
pub record Exit : Type 0 where
  pub monitor : ℕ
  pub module_name : Text
  pub pid : ℕ

-- `Saver`, and what it has done outside: the reports that were sent on `exits`, and the PIDs of the
-- process groups that were signalled, the last one first.
pub record Saver : Type 0 where
  pub children : List Child
  pub windows : List ℕ
  pub screen_open : Bool
  pub done : Bool
  pub stopping : Bool
  pub unclutter : ℕ
  pub unclutter_reaped : Bool
  pub reports : List Exit
  pub signalled : List ℕ

abbrev pub child_pids : List Child → List ℕ
child_pids [] = []
child_pids (c ∷ cs) = let rest = child_pids cs in if ltb 0 c.pid then c.pid ∷ rest else rest

-- `PIDs`
abbrev pub pids : Saver → List ℕ
pids s = child_pids s.children

-- `Modules`
abbrev pub modules : Saver → List Text
modules s = map (λ (c : Child). c.module_name) s.children

-- filepath.Base
abbrev pub base : Text → Text
base path = after_last 47 [] path

-- The operating system: the PID of a process started at a path in a window, and whether a process
-- dies of the signals that it is sent.
pub record System : Type 0 where
  pub start : Text → ℕ → Option ℕ
  pub dies : ℕ → Bool

module _ (o : System) where
  abbrev pub started : Text → ℕ → ℕ → Option ℕ → Option Child
  started path window monitor none = none
  started path window monitor (some pid) = some (record {
    pid = pid;
    module_name = base path;
    monitor = monitor;
    window = window;
    retired = false;
    reaped = false;
  })

  -- `startChild`, with the monitor that its callers set.
  unfoldable pub start_child : Text → ℕ → ℕ → Option Child
  start_child path window monitor = started path window monitor (o.start path window)

  -- `child.stop`: what is signalled, and the child afterwards.
  unfoldable pub stop_child : Child → List ℕ × Child
  stop_child c =
      if c.pid == 0 || c.reaped then ([], c) else (c.pid ∷ [], record c { reaped = o.dies c.pid })

  unfoldable pub stop_children : List Child → List ℕ × List Child
  stop_children [] = ([], [])
  stop_children (c ∷ cs) =
      let (signals, c') = stop_child c in
      let (more, cs') = stop_children cs in (signals ++ more, c' ∷ cs')

  abbrev pub unclutter_signals : Saver → List ℕ
  unclutter_signals s = if ltb 0 s.unclutter && not s.unclutter_reaped then s.unclutter ∷ [] else []

  abbrev pub any_reaped : List Child → Bool
  any_reaped [] = false
  any_reaped (c ∷ cs) = c.reaped || any_reaped cs

  -- `Stop`; a second call finds the saver stopping and changes nothing.
  unfoldable pub stop : Saver → Files → Saver × Files
  stop s files =
      let (signals, children) = stop_children s.children in
      if s.stopping then (s, files) else (
        record s {
          stopping = true;
          children = children;
          screen_open = false;
          done = s.done || any_reaped children;
          signalled = signals ++ unclutter_signals s ++ s.signalled;
        },
        clear_state_for (first_pid (pids s)) files,
      )

  abbrev pub report : Saver → Child → List Exit
  report s c =
      if c.retired || s.stopping
      then []
      else record { monitor = c.monitor; module_name = c.module_name; pid = c.pid } ∷ []

  abbrev pub exited : ℕ → Option Child → Saver → Saver
  exited i none s = s
  exited i (some c) s = if c.reaped then s else record s {
    children = set s.children i (record c { reaped = true });
    done = true;
    reports = report s c ++ s.reports;
  }

  -- The process on monitor `i` exits, and `watch` reports it.
  unfoldable pub child_exited : ℕ → Saver → Saver
  child_exited i s = exited i (get_elem? s.children i) s

  -- The runtime files are rewritten while they still name the saver.
  abbrev pub rewritten : ℕ → List ℕ → Saver → Files → Files
  rewritten first [] s files = files
  rewritten first (p ∷ ps) s files =
      if p == first then write_state (pids s) (modules s) s.unclutter files else files

  abbrev pub in_place : ℕ → ℕ → Option Child → Saver → Files → Bool × (Saver × Files)
  in_place i first none s files = (false, (s, files))
  in_place i first (some c) s files =
      let s' = record s { children = set s.children i c } in
      (true, (s', rewritten first (read_pids files.pids) s' files))

  abbrev pub replaced : ℕ → Text → Option Child → Option ℕ → Saver → Files → Bool × (Saver × Files)
  replaced i path none window s files = (false, (s, files))
  replaced i path (some old) none s files = (false, (s, files))
  replaced i path (some old) (some window) s files =
      let (signals, stopped) = stop_child (record old { retired = true }) in
      let s' = record s {
        children = set s.children i stopped;
        done = s.done || stopped.reaped;
        signalled = signals ++ s.signalled;
      } in
      in_place i (first_pid (pids s)) (start_child path window i) s' files

  -- `Replace`: whether it succeeds, the saver and the runtime files afterwards. The old process is
  -- retired, so its exit is not reported; one that survives its signals is not followed once
  -- another has taken its place. Every child has a window, from `launch`, where Go would panic
  -- without one.
  unfoldable pub replace : ℕ → Text → Saver → Files → Bool × (Saver × Files)
  replace i path s files =
      if s.stopping
      then (false, (s, files))
      else replaced i path (get_elem? s.children i) (get_elem? s.windows i) s files

  abbrev pub add_child : Option Child → Option (List Child) → Option (List Child)
  add_child none rest = none
  add_child (some c) none = none
  add_child (some c) (some rest) = some (c ∷ rest)

  abbrev pub path_of : List Text → ℕ → Text
  path_of paths i = elim (get_elem? paths (i % length paths)) [ none ↦ [] | some p ↦ p ]

  -- The loop of `launch` that starts a child in each window, from monitor `i` on.
  unfoldable pub start_children : List Text → ℕ → List ℕ → Option (List Child)
  start_children paths i [] = some []
  start_children paths i (window ∷ windows) =
      add_child (start_child (path_of paths i) window i) (start_children paths (suc i) windows)

  abbrev pub launched : ℕ → Bool → List ℕ → Option (List Child) → Files → Option (Saver × Files)
  launched unclutter awaited windows none files = none
  launched unclutter awaited windows (some children) files =
      let s : Saver = record {
        children = children;
        windows = windows;
        screen_open = true;
        done = false;
        stopping = false;
        unclutter = unclutter;
        unclutter_reaped = false;
        reports = [];
        signalled = [];
      } in
      if awaited then some (s, write_state (pids s) (modules s) unclutter files) else none

  abbrev pub in_screen : List Text → ℕ → Bool → Option (List ℕ) → Files → Option (Saver × Files)
  in_screen paths unclutter awaited none files = none
  in_screen paths unclutter awaited (some windows) files =
      launched unclutter awaited windows (start_children paths 0 windows) files

  -- `launch` of a list of paths: the windows that `openScreen` opens, the PID of unclutter or 0,
  -- and whether the wait for the startup ended well. What a launch that fails has started, and
  -- stops, is left out.
  unfoldable pub launch : List Text → Option (List ℕ) → ℕ → Bool → Files → Option (Saver × Files)
  launch [] windows unclutter awaited files = none
  launch (p ∷ ps) windows unclutter awaited files =
      in_screen (p ∷ ps) unclutter awaited windows files

-- `awaitStartup` and `awaitAny`, of which children have exited when the grace is over.
abbrev pub await_startup : List Bool → Bool → Bool
await_startup [] cancelled = not cancelled
await_startup (exited ∷ rest) cancelled = not exited && await_startup rest cancelled

abbrev pub some_runs : List Bool → Bool
some_runs [] = false
some_runs (exited ∷ rest) = not exited || some_runs rest

abbrev pub await_any : List Bool → Bool → Bool
await_any children cancelled = some_runs children && not cancelled
