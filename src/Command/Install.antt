-- ===== src/Command/Install.antt =====
-- cmd/retrosaver/main.go: `setup`, `teardown` and `stop`. What they change is a `Desktop`, and the
-- answers of the system calls and helper processes on their way are a `Host`.
pub mod Laws
use retrosaver.Prelude.{
  ℕ, Bool, true, false, not, ◌&&◌, ◌||◌, List, [], ◌∷◌, ◌++◌, Option, none, some, if◌then◌else◌,
  is_some, Text, codes, text_eq,
}
use retrosaver.Config.{Config}
use retrosaver.Config.Parse.{ReadFile, LoadError, missing, unreadable, holds, load}
use retrosaver.Config.Write.{default_file}
use retrosaver.Chars.{to_upper, contains_text, itoa}
use retrosaver.Modules.{Finder, available}
use retrosaver.Session.{
  Answers, save_idle_delay, set_idle_delay, restore_idle_delay, clear_saved_idle_delay,
}
use retrosaver.Window.{Files, clear_state}
use retrosaver.Command.Settings.{Stat, exists, not_exist, stat_failed}

-- The config file, the saved idle delay, the argument of the last `gsettings set`, the runtime
-- files, and whether the unit is enabled.
pub record Desktop : Type 0 where
  pub config : ReadFile
  pub saved : Option Text
  pub delay : Text
  pub files : Files
  pub enabled : Bool

pub record Host : Type 0 where
  pub session_type : Text
  pub desktop : Text
  pub display : Text
  pub idle_monitor : Bool
  pub unclutter_xfixes : Bool
  pub unclutter : Bool
  pub finder : Finder
  pub unit_installed : Bool
  -- the config file: its path, its state, the packaged example, and what a failed write leaves
  pub config_path : Bool
  pub stat : Stat
  pub example : Option Text
  pub mkdir_ok : Bool
  pub write_ok : Bool
  pub half_written : ReadFile
  -- what `gsettings get` prints for a value, and whether `gsettings set` succeeds
  pub gsettings_print : Text → Text
  pub gsettings_get_ok : Bool
  pub gsettings_set_ok : Bool
  -- the file of the saved delay: the answers to its writing, and whether it can be read and removed
  pub saving : Answers
  pub saved_readable : Bool
  pub remove_ok : Bool
  pub systemctl_reload : Bool
  pub systemctl_enable : Bool
  pub systemctl_disable : Bool
  -- `window.StopRunning` but for the runtime files: the backstop, and their removal
  pub pkill_ok : Bool
  pub clear_ok : Bool

abbrev pub loads_ok : Config × Option LoadError → Option Config
loads_ok (cfg, none) = some cfg
loads_ok (cfg, some e) = none

-- `loadConfig` where its caller stops at an error.
abbrev pub load_config : Host → Desktop → Option Config
load_config h d = if h.config_path then loads_ok (load d.config) else none

abbrev pub require_binaries : Host → Bool
require_binaries h = h.unclutter_xfixes || h.unclutter

abbrev pub has_modules : Finder → Option Config → Bool
has_modules f none = false
has_modules f (some cfg) = is_some (available f cfg.include cfg.exclude)

unfoldable pub preflight : Host → Desktop → Bool
preflight h d =
    text_eq h.session_type (codes "wayland")
    && contains_text (to_upper h.desktop) (codes "GNOME")
    && not (text_eq h.display [])
    && h.idle_monitor
    && require_binaries h
    && has_modules h.finder (load_config h d)
    && h.unit_installed

abbrev pub or_default_file : Option Text → Text
or_default_file none = default_file
or_default_file (some content) = content

abbrev pub write_config : Host → Desktop → Option Bool × Desktop
write_config h d =
    if not h.mkdir_ok
    then (none, d)
    else if not h.write_ok
    then (none, record d { config = h.half_written })
    else (some true, record d { config = holds (or_default_file h.example) })

-- `installConfig`: whether a file was created, none for an error.
abbrev pub install_config : Host → Desktop → Stat → Option Bool × Desktop
install_config h d exists = (some false, d)
install_config h d stat_failed = (none, d)
install_config h d not_exist = write_config h d

-- `SaveIdleDelay` on the desktop: `gsettings get` prints the value that was set last.
abbrev pub saving_answers : Host → Desktop → Answers
saving_answers h d = record h.saving {
  gsettings_get = if h.gsettings_get_ok then some (h.gsettings_print d.delay) else none;
}

abbrev pub save_delay : Host → Desktop → Bool × Desktop
save_delay h d =
    let r = save_idle_delay (saving_answers h d) d.saved in (r.0, record d { saved = r.1 })

-- `gsettings set` with the argument, if there is one.
abbrev pub apply_delay : Host → Desktop → Option Text → Bool × Desktop
apply_delay h d none = (false, d)
apply_delay h d (some value) =
    if h.gsettings_set_ok then (true, record d { delay = value }) else (false, d)

-- One step after another, the second only if the first succeeds.
abbrev pub and_next : Bool × Desktop → (Desktop → Bool × Desktop) → Bool × Desktop
and_next (false, d) next = (false, d)
and_next (true, d) next = next d

abbrev pub enable_unit : Host → Desktop → Bool × Desktop
enable_unit h d =
    if not h.systemctl_reload
    then (false, d)
    else if not h.systemctl_enable
    then (false, d)
    else (true, record d { enabled = true })

abbrev pub configured : Host → Option Bool × Desktop → Bool × Desktop
configured h (none, d) = (false, d)
configured h (some created, d) =
    and_next (save_delay h d) λ d1. and_next (apply_delay h d1 (set_idle_delay 0)) (enable_unit h)

-- `cmdSetup`.
unfoldable pub cmd_setup : Host → Desktop → Bool × Desktop
cmd_setup h d =
    if not (preflight h d)
    then (false, d)
    else if not h.config_path
    then (false, d)
    else configured h (install_config h d h.stat)

-- `window.StopRunning` as far as the runtime files go.
abbrev pub stop_running : Host → Desktop → Bool × Desktop
stop_running h d =
    (h.pkill_ok && h.clear_ok, if h.clear_ok then record d { files = clear_state d.files } else d)

-- What `os.ReadFile` gives for the saved delay: none for any error.
abbrev pub read_saved : Host → Option Text → Option Text
read_saved h file = if h.saved_readable then file else none

-- `session.RestoreIdleDelay`
abbrev pub restore_delay : Host → Desktop → Bool × Desktop
restore_delay h d =
    if h.config_path
    then apply_delay h d (restore_idle_delay (read_saved h d.saved))
    else (false, d)

-- `session.ClearSavedIdleDelay`
abbrev pub clear_delay : Host → Desktop → Bool × Desktop
clear_delay h d =
    let r = clear_saved_idle_delay h.config_path h.remove_ok d.saved in
    (r.0, record d { saved = r.1 })

-- `cmdTeardown`: all three steps are made whatever the outcome of those before.
unfoldable pub cmd_teardown : Host → Desktop → Bool × Desktop
cmd_teardown h d =
    let disabled = if h.systemctl_disable then record d { enabled = false } else d in
    let stopped = stop_running h disabled in
    let restored = restore_delay h stopped.1 in
    let cleared = clear_delay h restored.1 in (stopped.0 && restored.0 && cleared.0, cleared.1)

-- `cmdStop`, with the `--keep-idle-delay` flag and the answer of `daemonRunning`.
unfoldable pub cmd_stop : Bool → Bool → Host → Desktop → Bool × Desktop
cmd_stop keep_idle_delay daemon_runs h d = and_next (stop_running h d) λ d1.
    if keep_idle_delay then (true, d1) else if daemon_runs then (true, d1) else restore_delay h d1
