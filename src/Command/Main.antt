-- ===== src/Command/Main.antt =====
-- cmd/retrosaver/main.go: the choice of the command, the exit status, the version's text, and what
-- the daemon is started with. The commands' work is in the other files.
use retrosaver.Prelude.{
  ℕ, Bool, true, false, ◌||◌, List, [], ◌∷◌, ◌++◌, Option, none, some, ltb, if◌then◌else◌, length,
  Text, codes, text_eq,
}
use retrosaver.Config.{Config, defaults}
use retrosaver.Config.Parse.{ReadFile, LoadError, load}
use retrosaver.Watch.{Watch, take}
use retrosaver.Watch.Reader.{Reader}
use retrosaver.Command.Reloads.{Triggers, reload_triggers}

pub data Name : Type 0 where
  daemon run stop list preview setup teardown config version help : Name

-- The test of `dispatch` on its first argument: none for an unknown command.
unfoldable pub dispatch : Text → Option Name
dispatch cmd =
    if text_eq cmd (codes "daemon")
    then some daemon
    else if text_eq cmd (codes "run")
    then some run
    else if text_eq cmd (codes "stop")
    then some stop
    else if text_eq cmd (codes "list")
    then some list
    else if text_eq cmd (codes "preview")
    then some preview
    else if text_eq cmd (codes "setup")
    then some setup
    else if text_eq cmd (codes "teardown")
    then some teardown
    else if text_eq cmd (codes "config")
    then some config
    else if text_eq cmd (codes "version")
        || text_eq cmd (codes "--version")
        || text_eq cmd (codes "-v")
    then some version
    else if text_eq cmd (codes "help") || text_eq cmd (codes "--help") || text_eq cmd (codes "-h")
    then some help
    else none

-- The exit status of a command that is run, or not found.
abbrev pub status : (Name → List Text → Bool) → List Text → Option Name → ℕ
status runs args none = 1
status runs args (some cmd) = if runs cmd args then 0 else 1

-- `main`, of the arguments after the program's name; a command succeeds or returns an error.
abbrev pub main : (Name → List Text → Bool) → List Text → ℕ
main runs [] = 2
main runs (cmd ∷ args) = status runs args (dispatch cmd)

-- The last value of a setting of the build.
unfoldable pub setting : Text → Text → List (Text × Text) → Text
setting key value [] = value
setting key value ((k, v) ∷ settings) = setting key (if text_eq k key then v else value) settings

abbrev pub short_revision : Text → Bool → Text
short_revision rev modified =
    (if ltb 12 (length rev) then take 12 rev else rev) ++ (if modified then codes "-dirty" else [])

-- `versionString`, of what the toolchain embedded.
unfoldable pub version_string : Text → Option (List (Text × Text)) → Text
version_string plain none = plain
version_string plain (some settings) =
    let rev = setting (codes "vcs.revision") [] settings in
    let when = setting (codes "vcs.time") [] settings in
    let modified = text_eq (setting (codes "vcs.modified") [] settings) (codes "true") in
    if text_eq rev []
    then plain
    else if text_eq when []
    then plain ++ codes " (" ++ short_revision rev modified ++ codes ")"
    else plain ++ codes " (" ++ short_revision rev modified ++ codes ", " ++ when ++ codes ")"

-- `setupLogging`: the level, and whether a text that is no level is reported. The levels are those
-- of slog.
abbrev pub level_of {ℓ} : {A : Type ℓ} → A → Option A → A × Bool
level_of info none = (info, true)
level_of info (some level) = (level, false)

abbrev pub log_level {ℓ} : {A : Type ℓ} → A → (Text → Option A) → Text → A × Bool
log_level info unmarshal raw =
    if text_eq raw [] then (info, false) else level_of info (unmarshal raw)

abbrev pub usable : Config × Option LoadError → Config × Bool
usable (cfg, none) = (cfg, true)
usable (cfg, some e) = (cfg, false)

-- `loadConfig` and `loadUserConfig`, with the file at the path, if there is a path: the settings
-- are usable whatever the error.
abbrev pub load_user_config : Option ReadFile → Config × Bool
load_user_config none = (defaults, false)
load_user_config (some file) = usable (load file)

-- `cmdDaemon`: what the daemon is run with.
abbrev pub cmd_daemon : Option ReadFile → Bool → Option (Reader × Watch) → Config × Triggers
cmd_daemon file path_ok watch = ((load_user_config file).0, reload_triggers path_ok watch)
