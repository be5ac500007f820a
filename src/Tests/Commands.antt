-- ===== src/Tests/Commands.antt =====
-- The commands at concrete inputs.
use retrosaver.Prelude.{
  ◌≡◌, refl, true, false, [], ◌∷◌, ◌++◌, none, some, arith, codes, Text, text_eq, contains,
}
use retrosaver.Config.{Config, defaults}
use retrosaver.Config.Parse.{holds, missing, load}
use retrosaver.Config.Write.{all_name_chars}
use retrosaver.Chars.{
  itoa, to_digits, atoi, digits, fields, words, is_space, contains_text, to_upper, quote_inner,
  join, trim_space, trim_left, trim_right, has_prefix,
}
use retrosaver.Chars.Trim.{is_one_line-OneLine}
use retrosaver.Session.{
  default_idle_delay, idle_delay, parse_idle_delay, save_idle_delay, restore_idle_delay,
  clear_saved_idle_delay,
}
use retrosaver.Modules.{
  discover, discover_in, sort_names, insert_sorted, text_lt, keep, executable_names,
  configured_names, add_name, trim_suffix, available, select,
}
use retrosaver.Command.Settings.{exists, shown, shown_lines, print_lines}
use retrosaver.Command.Settings.Show.{IsPrintable, FitsScanner, load-show}
use retrosaver.Command.Install.{Desktop, Host, preflight, cmd_setup, cmd_stop, cmd_teardown}
use retrosaver.Command.Install.Laws.{set_up, stopped, perform_all, setup-teardown, teardown-forgets}
use retrosaver.Tests.Files.{five_minutes, no_files}
use retrosaver.Tests.Modules.{installed}

abbrev with_flame : Config
with_flame = record defaults {
  exclude = codes "webcollage" ∷ [];
  include = codes "flame" ∷ codes "atlantis" ∷ [];
}

abbrev config_path : Text
config_path = codes "/home/ada/.config/retrosaver/retrosaver.conf"

with_flame-IsPrintable : IsPrintable with_flame
unfolding all_name_chars text_eq
with_flame-IsPrintable = record {
  saver = (300, omega arith, refl);
  cycle = (300, omega arith, refl);
  lock = (900, omega arith, refl);
  blank = (120, omega arith, refl);
  excluded = (refl, tt);
  included = (refl, (refl, tt));
}

lines_fit : FitsScanner config_path with_flame
unfolding quote_inner join
lines_fit = (omega arith, omega arith, omega arith)

load-show_example :
    load (holds (print_lines (shown_lines (shown config_path true with_flame))))
    ≡ (with_flame, none)
load-show_example =
    load-show config_path true with_flame with_flame-IsPrintable lines_fit
      (is_one_line-OneLine config_path refl)

-- A GNOME session in which every call succeeds, and one in which gsettings cannot be written.
abbrev gnome : Host
gnome = record {
  session_type = codes "wayland";
  desktop = codes "ubuntu:GNOME";
  display = codes ":0";
  idle_monitor = true;
  unclutter_xfixes = true;
  unclutter = false;
  finder = installed;
  unit_installed = true;
  config_path = true;
  stat = exists;
  example = none;
  mkdir_ok = true;
  write_ok = true;
  half_written = missing;
  gsettings_print = λ v. codes "uint32 " ++ v;
  gsettings_get_ok = true;
  gsettings_set_ok = true;
  saving = five_minutes;
  saved_readable = true;
  remove_ok = true;
  systemctl_reload = true;
  systemctl_enable = true;
  systemctl_disable = true;
  pkill_ok = true;
  clear_ok = true;
}

abbrev read_only : Host
read_only = record gnome { gsettings_set_ok = false }

abbrev ten_minutes : Desktop
ten_minutes = record {
  config = missing;
  saved = none;
  delay = codes "600";
  files = no_files;
  enabled = false;
}

delay_printed : idle_delay (some (codes "uint32 600")) ≡ some 600
unfolding parse_idle_delay fields words is_space atoi digits
delay_printed = refl

setup_succeeds : (cmd_setup gnome ten_minutes).0 ≡ true
unfolding cmd_setup preflight contains_text to_upper load available select discover discover_in
    sort_names insert_sorted text_lt keep contains text_eq executable_names configured_names
    add_name trim_suffix save_idle_delay parse_idle_delay fields words is_space atoi digits
    has_prefix
setup_succeeds = refl

abbrev later_on : Desktop
later_on =
    perform_all (set_up gnome ∷ stopped false true gnome ∷ []) (cmd_setup gnome ten_minutes).1

teardown_succeeds : (cmd_teardown gnome later_on).0 ≡ true
unfolding cmd_setup cmd_stop cmd_teardown preflight contains_text to_upper load available select
    discover discover_in sort_names insert_sorted text_lt keep contains text_eq executable_names
    configured_names add_name trim_suffix save_idle_delay parse_idle_delay fields words is_space
    atoi digits has_prefix restore_idle_delay clear_saved_idle_delay trim_space trim_left trim_right
    to_digits
teardown_succeeds = refl

setup-teardown_example :
    ((cmd_teardown gnome later_on).1.delay ≡ itoa 600)
    × ((cmd_teardown gnome later_on).1.saved ≡ none)
setup-teardown_example =
    setup-teardown 600 gnome gnome ten_minutes (set_up gnome ∷ stopped false true gnome ∷ [])
      (omega arith) refl delay_printed setup_succeeds refl teardown_succeeds

abbrev owned : Desktop
owned = record ten_minutes { saved = some (codes "600"); delay = codes "0"; enabled = true }

second_teardown : (cmd_teardown gnome (cmd_teardown read_only owned).1).0 ≡ true
unfolding cmd_setup cmd_stop cmd_teardown preflight contains_text to_upper load available select
    discover discover_in sort_names insert_sorted text_lt keep contains text_eq executable_names
    configured_names add_name trim_suffix save_idle_delay parse_idle_delay fields words is_space
    atoi digits has_prefix restore_idle_delay clear_saved_idle_delay trim_space trim_left trim_right
    to_digits
second_teardown = refl

teardown-forgets_example :
    ((cmd_teardown read_only owned).0 ≡ false)
    × ((cmd_teardown read_only owned).1.delay ≡ codes "0")
    × ((cmd_teardown read_only owned).1.saved ≡ none)
    × ((cmd_teardown gnome (cmd_teardown read_only owned).1).1.delay ≡ itoa default_idle_delay)
teardown-forgets_example = teardown-forgets read_only gnome owned refl refl refl second_teardown
