-- ===== src/Tests/Signals.antt =====
-- The D-Bus signals, a saver's processes, and the daemon with its launcher and idle monitor, at
-- concrete inputs.
use retrosaver.Prelude.{
  ℕ, ◌+◌, ◌%◌, some-injective, ◌≡◌, ◌≤◌, refl, true, false, List, [], ◌∷◌, ◌++◌, Option, none, some,
  arith, codes, length, text_eq, contains,
}
use retrosaver.Chars.{after_last}
use retrosaver.Config.{Config, defaults}
use retrosaver.Config.Parse.{holds, load}
use retrosaver.Signals.{
  uint32, Signal, watch_fired_id, watch_fired, idle_path, receives, reader_takes, signal, Pump,
  turns, turn, add_idle_watch,
}
use retrosaver.Signals.Laws.{pending, decoded, turns-order}
use retrosaver.Window.{Files, read_pids, write_state, clear_state}
use retrosaver.Window.Saver.{
  System, Saver, launch, stop, pids, modules, start_children, start_child,
}
use retrosaver.Window.Owns.{GivesPids, exits, replaces, acts, lifecycle}
use retrosaver.Daemon.{World, Call}
use retrosaver.Daemon.Run.{run, new_machine, failed, handle, reload_asked}
use retrosaver.Daemon.Pick.{pick_set}
use retrosaver.Daemon.PickLaws.{DrawnSet}
use retrosaver.Daemon.Launcher.{with_launcher, launcher-pick_set}
use retrosaver.Daemon.Stages.{same_config}
use retrosaver.Daemon.Zero.{zero_delay-fatal}
use retrosaver.Modules.{select, keep}
use retrosaver.Tests.Files.{no_files}
use retrosaver.Tests.Modules.{installed, atlantis, flame, both_installed}
use retrosaver.Tests.Worlds.{calm}

abbrev fired_7 : Option Signal
fired_7 = some (record { path = idle_path; name = watch_fired; body = uint32 7 ∷ [] })

abbrev quiet_pump : Pump ℕ
quiet_pump = record { sent = []; held = none; closed = false }

still_open :
    (turns watch_fired_id
      (receives (signal fired_7) ∷ receives (signal none) ∷ reader_takes ∷ [])
      quiet_pump).closed
    ≡ false
unfolding turns turn watch_fired_id text_eq
still_open = refl

turns-order_example :
    (turns watch_fired_id
        (receives (signal fired_7) ∷ receives (signal none) ∷ reader_takes ∷ [])
        quiet_pump).sent
      ++ pending watch_fired_id
          (turns watch_fired_id
            (receives (signal fired_7) ∷ receives (signal none) ∷ reader_takes ∷ [])
            quiet_pump).held
    ≡ decoded watch_fired_id
        (receives (signal fired_7) ∷ receives (signal none) ∷ reader_takes ∷ [])
        quiet_pump
turns-order_example =
    turns-order watch_fired_id
      (receives (signal fired_7) ∷ receives (signal none) ∷ reader_takes ∷ []) quiet_pump still_open

-- Two monitors: window 5 gives its process PID 105, window 6 PID 106.
abbrev system : System
system = record { start = λ path window. some (100 + window % 100); dies = λ pid. true }

abbrev on_two : Saver
on_two = record {
  children =
      record {
        pid = 105;
        module_name = codes "flame";
        monitor = 0;
        window = 5;
        retired = false;
        reaped = false;
      }
      ∷ record {
        pid = 106;
        module_name = codes "flame";
        monitor = 1;
        window = 6;
        retired = false;
        reaped = false;
      }
      ∷ [];
  windows = 5 ∷ 6 ∷ [];
  screen_open = true;
  done = false;
  stopping = false;
  unclutter = 0;
  unclutter_reaped = false;
  reports = [];
  signalled = [];
}

abbrev named_two : Files
named_two = write_state (pids on_two) (modules on_two) 0 no_files

launched_two :
    launch system (codes "/usr/bin/flame" ∷ []) (some (5 ∷ 6 ∷ [])) 0 true no_files
    ≡ some (on_two, named_two)
unfolding launch start_children start_child after_last
launched_two = refl

abbrev swapped : Saver × Files
swapped = acts system (exits 1 ∷ replaces 0 (codes "/usr/bin/atlantis") ∷ []) (on_two, named_two)

system-GivesPids : GivesPids system
system-GivesPids path window pid h =
    let given : 100 + window % 100 ≡ pid = some-injective (100 + window % 100) pid h in omega arith

lifecycle_example :
    (read_pids swapped.1.pids ≡ pids swapped.0)
    × ((stop system swapped.0 swapped.1).1 ≡ clear_state swapped.1)
    × ((acts system (exits 0 ∷ []) (stop system swapped.0 swapped.1)).0.reports ≡ swapped.0.reports)
    × ((acts system (exits 0 ∷ []) (stop system swapped.0 swapped.1)).1 ≡ clear_state swapped.1)
lifecycle_example =
    lifecycle system system-GivesPids (codes "/usr/bin/flame" ∷ []) 0 true 5 (6 ∷ []) on_two
      named_two no_files launched_two (exits 1 ∷ replaces 0 (codes "/usr/bin/atlantis") ∷ [])
      (exits 0 ∷ [])

both_selected : 2 ≤ length (select (atlantis ∷ flame ∷ []) defaults.include defaults.exclude)
unfolding select keep contains text_eq
both_selected = omega arith

launcher-pick_set_example :
    DrawnSet
      (with_launcher installed (λ h k. 0) calm)
      (select (atlantis ∷ flame ∷ []) defaults.include defaults.exclude)
      2
      (pick_set (with_launcher installed (λ h k. 0) calm) 2 (new_machine defaults []))
launcher-pick_set_example =
    launcher-pick_set installed (atlantis ∷ flame ∷ []) both_installed (λ h k. 0) (λ h k p. p) calm
      2 (new_machine defaults []) both_selected

abbrev at_once : Config
at_once = record defaults { saver_delay = 0 }

abbrev mutter : List Call → ℕ → Option ℕ
mutter h n = some n

abbrev reloading : World
reloading = record calm {
  add_idle_watch = λ h d. add_idle_watch (mutter h) d;
  load_config = λ h. some at_once;
}

now_differs : same_config at_once defaults ≡ false
unfolding same_config
now_differs = refl

zero_delay-fatal_example :
    (load (holds (codes "SAVER_DELAY=0")) ≡ (at_once, none))
    × ((run reloading at_once none []).1 ≡ failed)
    × ((handle reloading reload_asked (new_machine defaults [])).fatal ≡ true)
zero_delay-fatal_example =
    zero_delay-fatal reloading mutter (λ h d. refl) at_once none [] (new_machine defaults []) refl
      refl now_differs
