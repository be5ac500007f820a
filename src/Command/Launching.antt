-- ===== src/Command/Launching.antt =====
-- cmd/retrosaver/main.go and preview.go: what `run` and `preview` start, and what `stop` takes for
-- a running daemon. The monitors' number and the random numbers are arguments.
use retrosaver.Prelude.{
  ℕ, zero, suc, Bool, true, false, not, ◌&&◌, ◌||◌, List, [], ◌∷◌, ◌++◌, Option, none, some, leb,
  ◌==◌, if◌then◌else◌, length, Text, codes, text_eq, contains, map,
}
use retrosaver.Config.{Config, different_per_monitor}
use retrosaver.Chars.{split, join, itoa, trim_right_of, after_last, is_digit, cut}
use retrosaver.Modules.{Finder, discover, pick}
use retrosaver.Daemon.Pick.{is_nil}

-- A name for the next monitor, or none when the launch is given up.
abbrev pub or_repeat : Bool → Option Text → Option Text → Option Text
or_repeat none_yet (some name) again = some name
or_repeat true none again = none
or_repeat false none again = again

abbrev pub and_name : (Text → Option (List Text)) → Option Text → Option (List Text)
and_name next none = none
and_name next (some name) = next name

module _ (f : Finder) (random : ℕ → ℕ → ℕ) (cfg : Config) where
  -- `random i` draws the name of monitor `i`, and also the one that repeats when nothing else is
  -- left.
  abbrev pub next_name : List Text → Option Text
  next_name names =
      or_repeat (is_nil names) (pick f (random (length names)) cfg.include (cfg.exclude ++ names))
        (pick f (random (length names)) cfg.include cfg.exclude)

  -- The loop of `pickForRun`: `n` rounds to go, `names` chosen so far.
  unfoldable pub pick_names : ℕ → List Text → Option (List Text)
  pick_names zero names = some names
  pick_names (suc n) names = and_name (λ name. pick_names n (names ++ name ∷ [])) (next_name names)

  abbrev pub pick_for : Option ℕ → Option (List Text)
  pick_for none = none
  pick_for (some n) = pick_names n []

  -- `pickForRun`, with what `window.Monitors` answers.
  unfoldable pub pick_for_run : Option ℕ → Option (List Text)
  pick_for_run monitors = pick_for (if different_per_monitor cfg then monitors else some 1)

abbrev pub all_in : List Text → List Text → Bool
all_in discovered [] = true
all_in discovered (n ∷ ns) = contains discovered n && all_in discovered ns

abbrev pub checked_names : List Text → Option (List Text) → Option (List Text)
checked_names names none = none
checked_names names (some discovered) = if all_in discovered names then some names else none

-- The names that `run` launches: those given, if they are installed, or those picked.
abbrev pub names_to_run : Finder → (ℕ → ℕ → ℕ) → Config → Option ℕ → List Text → Option (List Text)
names_to_run f random cfg monitors [] = pick_for_run f random cfg monitors
names_to_run f random cfg monitors (n ∷ ns) = checked_names (n ∷ ns) (discover f)

-- `cmdRun` up to the launch: nothing is launched over a running module.
unfoldable pub cmd_run :
    Text × Bool → Finder → (ℕ → ℕ → ℕ) → Option Config → Option ℕ → List Text → Option (List Text)
cmd_run running f random none monitors args = none
cmd_run (name, true) f random (some cfg) monitors args = none
cmd_run (name, false) f random (some cfg) monitors args = names_to_run f random cfg monitors args

abbrev pub all_same : List Text → Bool
all_same [] = true
all_same (m ∷ ms) = all_as m ms
  where
    all_as : Text → List Text → Bool
    all_as m [] = true
    all_as m (n ∷ ns) = text_eq n m && all_as m ns

abbrev pub first_name : List Text → Text
first_name [] = []
first_name (m ∷ ms) = m

abbrev pub with_pids : List Text → List ℕ → List Text
with_pids (m ∷ ms) (p ∷ ps) = (m ++ codes " (pid " ++ itoa p ++ codes ")") ∷ with_pids ms ps
with_pids _ _ = []

-- `runningMessage`, of as many names as PIDs.
unfoldable pub running_message : List Text → List ℕ → Text
running_message modules pids =
    if length pids == 1
    then first_name modules
      ++ codes " running (pid "
      ++ join (codes ", ") (map itoa pids)
      ++ codes ")"
    else if all_same modules
    then first_name modules
      ++ codes " running on "
      ++ itoa (length pids)
      ++ codes " monitors (pids "
      ++ join (codes ", ") (map itoa pids)
      ++ codes ")"
    else codes "running on "
      ++ itoa (length pids)
      ++ codes " monitors: "
      ++ join (codes ", ") (with_pids modules pids)

unfoldable pub only_digits : Text → Bool
only_digits [] = true
only_digits (c ∷ cs) = is_digit c && only_digits cs

abbrev pub is_digits : Text → Bool
is_digits s = not (text_eq s []) && only_digits s

-- A directory entry of /proc, with the process's command line if it can be read.
pub record Process : Type 0 where
  pub name : Text
  pub cmdline : Option Text

abbrev pub is_daemon_argv : List Text → Bool
is_daemon_argv (program ∷ command ∷ _) =
    text_eq (after_last 47 [] program) (codes "retrosaver") && text_eq command (codes "daemon")
is_daemon_argv _ = false

abbrev pub is_daemon_cmdline : Option Text → Bool
is_daemon_cmdline none = false
is_daemon_cmdline (some b) = is_daemon_argv (split 0 (trim_right_of 0 b))

abbrev pub is_daemon : Text → Process → Bool
is_daemon self p =
    not (text_eq p.name self || not (is_digits p.name)) && is_daemon_cmdline p.cmdline

unfoldable pub any_daemon : Text → List Process → Bool
any_daemon self [] = false
any_daemon self (p ∷ ps) = is_daemon self p || any_daemon self ps

-- `daemonRunning`: none for a /proc that cannot be read.
unfoldable pub daemon_running : ℕ → Option (List Process) → Bool
daemon_running self none = false
daemon_running self (some ps) = any_daemon (itoa self) ps

-- `^[1-9][0-9]*$`
abbrev pub is_positive_number : Text → Bool
is_positive_number [] = false
is_positive_number (c ∷ cs) = leb 49 c && leb c 57 && only_digits cs

abbrev pub both_numbers : Option (Text × Text) → Bool
both_numbers none = false
both_numbers (some (width, height)) = is_positive_number width && is_positive_number height

-- `geometryPattern`: two numbers with an `x` between them.
unfoldable pub is_geometry : Text → Bool
is_geometry g = both_numbers (cut 120 g)

abbrev pub preview_of : Text → Text → Text → Option (List Text) → Option (List Text)
preview_of bin_dir name geometry none = none
preview_of bin_dir name geometry (some discovered) =
    if contains discovered name
    then some ((bin_dir ++ codes "/" ++ name) ∷ codes "-window" ∷ codes "-geometry" ∷ geometry ∷ [])
    else none

-- `previewArgv`, with the path of the finder's binaries.
unfoldable pub preview_argv : Finder → Text → Text → Text → Option (List Text)
preview_argv f bin_dir name geometry =
    if is_geometry geometry then preview_of bin_dir name geometry (discover f) else none
