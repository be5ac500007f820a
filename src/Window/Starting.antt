-- ===== src/Window/Starting.antt =====
-- internal/window/window.go: `launch` with the exits of its startup grace and with what a launch
-- that fails leaves behind, and internal/daemon/daemon.go: `realLauncher`, which gives it the paths
-- of the modules.
use retrosaver.Prelude.{
  ℕ, zero, suc, Bool, true, false, not, ◌&&◌, ◌||◌, List, [], ◌∷◌, ◌++◌, Option, none, some, ltb,
  if◌then◌else◌, length, Text, text_eq, codes, map, ◌/◌, ◌%◌,
}
use retrosaver.Chars.{hex_digit}
use retrosaver.Window.{Files, write_state}
use retrosaver.Window.Saver.{
  Child, Saver, System, pids, modules, start_child, stop, child_exited, replace, path_of,
  await_startup, await_any,
}
pub mod Stopped
pub mod Same
pub mod Laws

-- How a launch ends: with a saver, or with an error and the saver that it stopped, if there was
-- one.
pub data Launched : Type 0 where
  up : Saver → Files → Launched
  down : Option Saver → Files → Launched

-- The children that `launch` starts, up to the first that does not start, and whether all did.
abbrev pub onto_children : Option Child → List Child × Bool → List Child × Bool
onto_children none rest = ([], false)
onto_children (some c) (cs, ok) = (c ∷ cs, ok)

-- What happens in the startup grace: which processes exit, and whether the launch is canceled.
pub record Grace : Type 0 where
  pub exits : ℕ → Bool
  pub canceled : Bool

-- `LaunchEach` is content with one module that runs, `LaunchContext` with nothing but all of them.
abbrev pub awaited : Bool → Grace → List Child → Bool
awaited each g children =
    let exited = map (λ (c : Child). g.exits c.pid) children in
    if each then await_any exited g.canceled else await_startup exited g.canceled

abbrev pub new_saver : List ℕ → List Child → Saver
new_saver windows children = record {
  children = children;
  windows = windows;
  screen_open = true;
  done = false;
  stopping = false;
  unclutter = 0;
  unclutter_reaped = false;
  reports = [];
  signalled = [];
}

-- `Finder.Path`, of a directory that needs no cleaning and a name that is one element of a path.
abbrev pub path : Text → Text → Text
path dir name = dir ++ 47 ∷ name

module _ (o : System) where
  -- `watchChildren`: a child that exits is reported.
  unfoldable pub pass : Grace → ℕ → List Child → Saver → Saver
  pass g i [] s = s
  pass g i (c ∷ cs) s = pass g (suc i) cs (if g.exits c.pid then child_exited o i s else s)

  unfoldable pub start_until : List Text → ℕ → List ℕ → List Child × Bool
  start_until paths i [] = ([], true)
  start_until paths i (window ∷ windows) =
      onto_children (start_child o (path_of o paths i) window i) (start_until paths (suc i) windows)

  abbrev pub stopped : Saver × Files → Launched
  stopped (s, files) = down (some s) files

  abbrev pub after_grace : Bool → ℕ → Saver → Files → Launched
  after_grace ok unclutter s files =
      if ok
      then up (record s { unclutter = unclutter })
          (write_state (pids s) (modules s) unclutter files)
      else stopped (stop o s files)

  abbrev pub after_start : Bool → Grace → ℕ → List ℕ → List Child × Bool → Files → Launched
  after_start each g unclutter windows (children, ok) files =
      let s = new_saver windows children in
      if ok
      then after_grace (awaited each g children) unclutter (pass g 0 children s) files
      else stopped (stop o s files)

  abbrev pub on_windows : Bool → List Text → Grace → ℕ → Option (List ℕ) → Files → Launched
  on_windows each paths g unclutter none files = down none files
  on_windows each paths g unclutter (some windows) files =
      after_start each g unclutter windows (start_until paths 0 windows) files

  -- `launch`, of `LaunchEach` or of `LaunchContext`.
  unfoldable pub launch_all : Bool → List Text → Grace → ℕ → Option (List ℕ) → Files → Launched
  launch_all each [] g unclutter windows files = down none files
  launch_all each (p ∷ ps) g unclutter windows files =
      on_windows each (p ∷ ps) g unclutter windows files

  -- `realLauncher.Launch`, with the finder's directory.
  abbrev pub real_launch : Text → List Text → Grace → ℕ → Option (List ℕ) → Files → Launched
  real_launch dir names g unclutter windows files =
      let paths = map (path dir) names in
      launch_all (ltb 1 (length paths)) paths g unclutter windows files

  -- `realSaver.Replace`
  abbrev pub real_replace : Text → ℕ → Text → Saver → Files → Bool × (Saver × Files)
  real_replace dir i name s files = replace o i (path dir name) s files

-- `moduleDisplay`, of the variable DISPLAY.
abbrev pub module_display : Text → Text
module_display display = if text_eq display [] then codes ":0" else display

-- The variable that `moduleEnv` adds to the environment.
abbrev pub module_env : List Text → Text → List Text
module_env environ display = environ ++ (codes "DISPLAY=" ++ module_display display) ∷ []

-- `%x` of a uint32, which has eight digits at most.
unfoldable pub to_hex : ℕ → ℕ → Text → Text
to_hex zero n acc = acc
to_hex (suc fuel) n acc =
    let rest = to_hex fuel (n / 16) (hex_digit (n % 16) ∷ acc) in
    if ltb n 16 then hex_digit n ∷ acc else rest

-- `windowIDArgs`
abbrev pub window_id_args : ℕ → List Text
window_id_args w = codes "-window-id" ∷ (codes "0x" ++ to_hex 8 w []) ∷ []

abbrev pub or_else : Option Text → Option Text → Option Text
or_else none second_one = second_one
or_else (some first) second_one = some first

abbrev pub started_at : (Text → Option ℕ) → Option Text → Option ℕ
started_at start none = none
started_at start (some bin) = start bin

-- `startUnclutter`, of the binaries that are found and the process that starts: none for nil.
abbrev pub start_unclutter : (Text → Option Text) → (Text → Option ℕ) → Option ℕ
start_unclutter look_path start =
    started_at start
      (or_else (look_path (codes "unclutter-xfixes")) (look_path (codes "unclutter")))

-- `pidOf`
abbrev pub pid_of : Option ℕ → ℕ
pid_of none = 0
pid_of (some pid) = pid
