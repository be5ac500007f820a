-- ===== src/Tests/Events.antt =====
-- The config watch at a concrete buffer of inotify events, and the runtime files at a PID that is
-- in use again.
use retrosaver.Prelude.{
  ℕ, ◌==◌, ◌⊎◌, ◌++◌, Text, Option, none, some, true, false, if◌then◌else◌, ◌≡◌, refl, [], ◌∷◌,
  List, codes, arith,
}
use retrosaver.Window.{Files, clear_state}
use retrosaver.Window.Stopping.{exit_code, Spares, stop_running, stop_running-Spares}
use retrosaver.Watch.{mentions}
use retrosaver.Watch.Events.{Inotify, buffer, any_named, mentions-buffer}

abbrev saved : List Inotify
saved =
    record { wd = 1; mask = 8; cookie = 0; name = codes ".retrosaver.conf.swp"; padding = 12 }
    ∷ record { wd = 1; mask = 128; cookie = 7; name = codes "retrosaver.conf"; padding = 1 }
    ∷ []

mentions-buffer_example :
    mentions (buffer saved (1 ∷ 0 ∷ [])) (codes "retrosaver.conf")
    ≡ any_named (codes "retrosaver.conf") saved
mentions-buffer_example =
    mentions-buffer saved (1 ∷ 0 ∷ []) (codes "retrosaver.conf")
      ((omega arith, refl), ((omega arith, refl), tt)) (omega arith) (λ e. cc)

-- PID 4243 is now a shell.
abbrev command_line : ℕ → Option Text
command_line pid =
    if pid == 4_242
    then some (codes "/usr/libexec/xscreensaver/flame" ++ 0 ∷ [])
    else some (codes "bash" ++ 0 ∷ [])

abbrev left_over : Files
left_over = record {
  pids = some (codes "4242" ++ 10 ∷ codes "4243");
  modules = none;
  unclutter = none;
}

stop_running-Spares_example :
    Spares command_line
      (stop_running command_line (λ p. true) (λ p. false) (exit_code 1) true left_over).1.0.0
    × Spares command_line
        (stop_running command_line (λ p. true) (λ p. false) (exit_code 1) true left_over).1.0.1
    × (((stop_running command_line (λ p. true) (λ p. false) (exit_code 1) true left_over).0 ≡ false)
        ⊎ ((stop_running command_line (λ p. true) (λ p. false) (exit_code 1) true left_over).1.1
            ≡ clear_state left_over))
stop_running-Spares_example =
    stop_running-Spares command_line (λ p. true) (λ p. false) (exit_code 1) true left_over
