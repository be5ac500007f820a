-- ===== src/Tests/Settings.antt =====
-- An edit of the config file at a concrete input.
use retrosaver.Prelude.{
  ◌*◌, ◌≡◌, refl, subst, inl, inr, true, false, List, [], ◌∷◌, ◌++◌, none, some, Bool-cases, Text,
  codes, text_eq, text_eq_iff, contains,
}
use retrosaver.Chars.{
  split, trim_space, trim_left, trim_right, has_prefix, cut, is_space, atoi, digits, join, fields,
  words,
}
use retrosaver.Config.{Config, defaults, second}
use retrosaver.Config.Parse.{
  parsed, holds, load, parse, parse_lines, scan_line, parse_line, set_key, seconds, unquote,
}
use retrosaver.Config.Write.{
  lookup, set_config, render, assignment, has_unwanted, apply, last_lines, assigned_key,
  replace_lines, missing_lines, append_lines, ends_line, all_module_names, all_name_chars,
}
use retrosaver.Config.Frame.{Value, delay, saver_delay, lock_after, value_of}
use retrosaver.Config.Keeps.{set_config-keeps}
use retrosaver.Config.EditSpec.{IsEdit}
use retrosaver.Config.Specified.{apply-IsEdit}
use retrosaver.Config.Sets.{set_config-sets}
use retrosaver.Config.Spelled.{spelled}
use retrosaver.Config.Disks.{Calls, Disk, set_file}
use retrosaver.Config.Atomic.{IsAtomic, IsSetFile, set_file-IsAtomic}
use retrosaver.Config.AnyOrder.{KeysOnce, SameMap, set_config-order}
use retrosaver.Tests.Files.{one_setting, lock_delay, with_lock_delay, lock_delay_set}

abbrev one_minute : Config
one_minute = record defaults { saver_delay = 60 * second }

one_minute_loads : load (holds one_setting) ≡ (one_minute, none)
unfolding load parse split parse_lines scan_line parse_line set_key text_eq seconds unquote
    trim_space trim_left trim_right has_prefix cut is_space atoi digits
one_minute_loads = refl

no_saver_delay : lookup lock_delay (codes "SAVER_DELAY") ≡ none
unfolding lookup text_eq
no_saver_delay = refl

set_config-keeps_example :
    (d : Config) × (load (holds with_lock_delay) ≡ (d, none))
    × (value_of saver_delay d ≡ value_of saver_delay one_minute)
set_config-keeps_example =
    set_config-keeps saver_delay lock_delay one_setting with_lock_delay one_minute one_minute_loads
      lock_delay_set no_saver_delay

abbrev half_minute : Value
half_minute = delay (30 * second)

lock_delay_given : lookup lock_delay (codes "LOCK_AFTER") ≡ some (codes "30")
unfolding lookup text_eq
lock_delay_given = refl

lock_delay_meant : spelled lock_after (codes "30") ≡ some half_minute
unfolding seconds atoi digits
lock_delay_meant = refl

set_config-sets_example :
    (d : Config) × (load (holds with_lock_delay) ≡ (d, none))
    × (value_of lock_after d ≡ half_minute)
set_config-sets_example =
    set_config-sets lock_after (holds one_setting) lock_delay (codes "30") with_lock_delay
      half_minute lock_delay_set lock_delay_given lock_delay_meant

abbrev rendered_delays : List (Text × Text)
rendered_delays =
    (codes "SAVER_DELAY", codes "SAVER_DELAY=90") ∷ (codes "LOCK_AFTER", codes "LOCK_AFTER=30") ∷ []

apply-IsEdit_example : IsEdit rendered_delays one_setting (apply one_setting rendered_delays)
apply-IsEdit_example = apply-IsEdit one_setting rendered_delays

-- The delay of the lock and the module list, in both orders.
abbrev lock_first : List (Text × Text)
lock_first = (codes "LOCK_AFTER", codes "30") ∷ (codes "INCLUDE", codes "flame") ∷ []

abbrev list_first : List (Text × Text)
list_first = (codes "INCLUDE", codes "flame") ∷ (codes "LOCK_AFTER", codes "30") ∷ []

abbrev with_both : Text
with_both =
    codes "SAVER_DELAY=60"
    ++ 10 ∷ codes "LOCK_AFTER=30"
    ++ 10 ∷ codes "INCLUDE="
    ++ 34 ∷ codes "flame"
    ++ 34 ∷ 10 ∷ []

both_set : set_config (holds one_setting) lock_first ≡ parsed (some with_both)
unfolding set_config render assignment has_unwanted contains text_eq apply last_lines assigned_key
    replace_lines missing_lines append_lines ends_line lookup split join trim_space trim_left
    trim_right has_prefix cut is_space parse parse_lines scan_line parse_line set_key seconds atoi
    digits unquote fields words all_module_names all_name_chars
both_set = refl

list_first-KeysOnce : KeysOnce list_first
unfolding lookup text_eq
list_first-KeysOnce = (refl, (refl, tt))

different_keys :
    (key : Text) → text_eq (codes "LOCK_AFTER") key ≡ true → text_eq (codes "INCLUDE") key ≡ false
unfolding text_eq
different_keys key h =
    subst (λ k. text_eq (codes "INCLUDE") k ≡ false) ((text_eq_iff (codes "LOCK_AFTER") key).0 h)
      refl

orders-SameMap : SameMap lock_first list_first
unfolding lookup
orders-SameMap key = elim (Bool-cases (text_eq (codes "LOCK_AFTER") key)) [
  | inl e ↦ rw e (rw (different_keys key e) refl)
  | inr e ↦ rw e refl
]

set_config-order_example : set_config (holds one_setting) list_first ≡ parsed (some with_both)
set_config-order_example =
    set_config-order (holds one_setting) lock_first list_first (some with_both) list_first-KeysOnce
      orders-SameMap both_set

-- Only the rename fails.
abbrev no_rename : Calls
no_rename = record {
  readable = true;
  stat_ok = true;
  mkdir_ok = true;
  create_ok = true;
  cut = none;
  chmod_ok = true;
  sync_ok = true;
  close_ok = true;
  rename_ok = false;
}

abbrev private_file : Disk
private_file = record { target = some (record { bytes = one_setting; mode = 0o600 }); temp = none }

set_file-IsAtomic_example :
    IsAtomic
      (private_file.target)
      (IsSetFile no_rename lock_delay private_file)
      private_file
      (set_file no_rename lock_delay private_file)
set_file-IsAtomic_example =
    set_file-IsAtomic no_rename (codes "LOCK_AFTER", codes "30") [] private_file refl
