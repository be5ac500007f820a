-- ===== src/Tests/Files.antt =====
-- The config file, the saved idle delay, the runtime files and the config watch at concrete inputs.
use retrosaver.Prelude.{
  false, List, contains, text_eq, Fits64, ℕ, ◌*◌, ◌≡◌, ◌↔◌, ◌⊎◌, refl, true, [], ◌∷◌, ◌++◌, none,
  some, arith, codes, Text, Member,
}
use retrosaver.Config.{defaults, second}
use retrosaver.Chars.{
  atoi, itoa, digits, fields, words, is_space, split, join, trim_space, trim_left, trim_right,
  has_prefix, cut,
}
use retrosaver.Config.Parse.{
  parsed, holds, load, seconds, parse, parse_lines, scan_line, parse_line, set_key, unquote,
}
use retrosaver.Config.Write.{
  set_config, render, assignment, has_unwanted, apply, last_lines, assigned_key, replace_lines,
  missing_lines, append_lines, ends_line, lookup, all_module_names, all_name_chars,
}
use retrosaver.Config.Bounds.{Spelled, AllAccepted, seconds_lem, load_lem}
use retrosaver.Session.{
  Answers, save_idle_delay, restore_idle_delay, parse_idle_delay, saved_value, default_idle_delay,
}
use retrosaver.Session.Laws.{save-restore, restore_idle_delay_lem}
use retrosaver.Window.{Files, Monitor, distinct}
use retrosaver.Watch.{
  Watch, raw, settled, taken, step, steps, mentions, mentions_from, drop_bytes, take, trim_nul,
}
use retrosaver.Watch.Laws.{steps-reported}
use retrosaver.Window.Laws.{distinct_lem, DistinctMonitors}

two_minutes : seconds (codes "120") ≡ parsed (120 * second)
unfolding seconds atoi digits
two_minutes = refl

seconds_lem_example : Spelled (atoi (codes "120")) (120 * second)
seconds_lem_example = seconds_lem (codes "120") (120 * second) two_minutes

abbrev pub two_settings : Text
two_settings = codes "SAVER_DELAY=60" ++ 10 ∷ codes "LOCK_AFTER = 'soon'" ++ 10 ∷ []

load_lem_example :
    AllAccepted (load (holds two_settings)).0
    × (((load (holds two_settings)).1 ≡ none) ⊎ ((load (holds two_settings)).0 ≡ defaults))
load_lem_example = load_lem (holds two_settings)

abbrev pub five_minutes : Answers
five_minutes = record {
  config_dir = true;
  mkdir_ok = true;
  gsettings_get = some (codes "uint32 300");
  create_ok = true;
  write_ok = true;
  close_ok = true;
  remove_ok = true;
  partial = [];
}

delay_printed : parse_idle_delay (codes "uint32 300") ≡ some 300
unfolding parse_idle_delay fields words is_space atoi digits
delay_printed = refl

saving_succeeds : (save_idle_delay five_minutes none).0 ≡ true
unfolding save_idle_delay parse_idle_delay fields words is_space atoi digits
saving_succeeds = refl

save-restore_example : restore_idle_delay (save_idle_delay five_minutes none).1 ≡ some (itoa 300)
save-restore_example = save-restore five_minutes 300 (omega arith) delay_printed saving_succeeds

restore_idle_delay_lem_example :
    ((n : ℕ) × Fits64 n
      × (saved_value (some (codes "never")) ≡ some n)
      × (restore_idle_delay (some (codes "never")) ≡ some (itoa n)))
    ⊎ ((saved_value (some (codes "never")) ≡ none)
        × (restore_idle_delay (some (codes "never")) ≡ some (itoa default_idle_delay)))
restore_idle_delay_lem_example = restore_idle_delay_lem (some (codes "never"))

abbrev pub left_screen : Monitor
left_screen = record { x = 0; y = 0; width = 1920; height = 1080 }

abbrev pub right_screen : Monitor
right_screen = record { x = 1920; y = 0; width = 1920; height = 1080 }

distinct_lem_example :
    DistinctMonitors (distinct (left_screen ∷ right_screen ∷ left_screen ∷ []))
    × ((m : Monitor)
        → Member m (distinct (left_screen ∷ right_screen ∷ left_screen ∷ []))
          ↔ Member m (left_screen ∷ right_screen ∷ left_screen ∷ []))
distinct_lem_example = distinct_lem (left_screen ∷ right_screen ∷ left_screen ∷ [])

-- A file with one setting, and the file after the lock delay is set to thirty seconds.
abbrev pub one_setting : Text
one_setting = codes "SAVER_DELAY=60" ++ 10 ∷ []

abbrev pub lock_delay : List (Text × Text)
lock_delay = (codes "LOCK_AFTER", codes "30") ∷ []

abbrev pub with_lock_delay : Text
with_lock_delay = codes "SAVER_DELAY=60" ++ 10 ∷ codes "LOCK_AFTER=30" ++ 10 ∷ []

pub lock_delay_set : set_config (holds one_setting) lock_delay ≡ parsed (some with_lock_delay)
unfolding set_config render assignment has_unwanted contains text_eq apply last_lines assigned_key
    replace_lines missing_lines append_lines ends_line lookup split join trim_space trim_left
    trim_right has_prefix cut is_space parse parse_lines scan_line parse_line set_key seconds atoi
    digits unquote fields words all_module_names all_name_chars
lock_delay_set = refl

abbrev pub watching : Watch
watching = record { timer = false; pending = false; closed = false }

steps-reported_example :
    ((step settled (steps (raw ∷ raw ∷ settled ∷ raw ∷ []) watching)).pending ≡ true)
    × ((step taken (step settled (steps (raw ∷ raw ∷ settled ∷ raw ∷ []) watching))).pending
        ≡ false)
    × ((step taken (step settled (steps (raw ∷ raw ∷ settled ∷ raw ∷ []) watching))).timer ≡ false)
steps-reported_example = steps-reported (raw ∷ settled ∷ raw ∷ []) watching tt refl

-- A buffer with one event, its name padded to sixteen bytes.
abbrev pub one_event : Text
one_event =
    1
    ∷ 0
    ∷ 0
    ∷ 0
    ∷ 2
    ∷ 0
    ∷ 0
    ∷ 0
    ∷ 0
    ∷ 0
    ∷ 0
    ∷ 0
    ∷ 16
    ∷ 0
    ∷ 0
    ∷ 0
    ∷ (codes "retrosaver.conf" ++ 0 ∷ [])

pub event_mentions : mentions one_event (codes "retrosaver.conf") ≡ true
unfolding mentions mentions_from drop_bytes take trim_nul text_eq
event_mentions = refl

event_mentions_no_other : mentions one_event (codes "retrosaver") ≡ false
unfolding mentions mentions_from drop_bytes take trim_nul text_eq
event_mentions_no_other = refl

abbrev pub no_files : Files
no_files = record { pids = none; modules = none; unclutter = none }
