-- ===== src/Window/Stopping.antt =====
-- internal/window/window.go: `StopRunning`, which stops what the runtime files name. The command
-- lines in /proc, and what the kernel answers to a signal, are arguments.
use retrosaver.Prelude.{
  arith, ℕ, Bool, true, false, ◌&&◌, ◌≡◌, ◌⊎◌, inl, inr, refl, sym, append-nil, leb, All, if-both,
  List, [], ◌∷◌, ◌++◌, Option, none, some, if◌then◌else◌, Text, codes,
}
use retrosaver.Chars.{cut, contains_text}
use retrosaver.Chars.Find.{Holds, Without, IsCut, contains_text-Holds, cut-IsCut}
use retrosaver.Window.{Files, read_pids, clear_state}

abbrev pub module_bin_dir : Text
module_bin_dir = codes "/usr/libexec/xscreensaver/"

abbrev pub first_argument : Text → Option (Text × Text) → Text
first_argument cmdline none = cmdline
first_argument cmdline (some (argv0, rest)) = argv0

-- `processMatches`, of the command line of a process, if it can be read.
abbrev pub process_matches : Option Text → Text → Bool
process_matches none want = false
process_matches (some cmdline) want = contains_text (first_argument cmdline (cut 0 cmdline)) want

-- The PIDs of a file whose processes are what the file says.
unfoldable pub matching : (ℕ → Option Text) → Text → List ℕ → List ℕ
matching cmdline want [] = []
matching cmdline want (p ∷ ps) =
    let rest = matching cmdline want ps in
    if process_matches (cmdline p) want then p ∷ rest else rest

-- A signal to a process, or to its process group.
pub data Target : Type 0 where
  process group : ℕ → Target

abbrev pub sent_to : Bool → ℕ → List Target
sent_to group_ok pid = if group_ok then group pid ∷ [] else group pid ∷ process pid ∷ []

-- `terminate`: SIGTERM, and SIGKILL to a process that is still there when the grace is over.
unfoldable pub terminate : (ℕ → Bool) → (ℕ → Bool) → ℕ → List Target × List Target
terminate is_leader lingers pid =
    (sent_to (is_leader pid) pid, if lingers pid then sent_to (is_leader pid) pid else [])

unfoldable pub terminate_all : (ℕ → Bool) → (ℕ → Bool) → List ℕ → List Target × List Target
terminate_all is_leader lingers [] = ([], [])
terminate_all is_leader lingers (p ∷ ps) =
    let (terms, kills) = terminate is_leader lingers p in
    let (more_terms, more_kills) = terminate_all is_leader lingers ps in
    (terms ++ more_terms, kills ++ more_kills)

-- What running pkill gives: an exit code, no such program, or another failure.
pub data Pkill : Type 0 where
  exit_code : ℕ → Pkill
  not_found start_failed : Pkill

-- `pkillPrefix`: pkill exits with 1 when no process matches.
abbrev pub pkill_succeeds : Pkill → Bool
pkill_succeeds (exit_code code) = leb code 1
pkill_succeeds not_found = true
pkill_succeeds start_failed = false

-- `StopRunning`: whether it succeeds, what is signalled, and the files afterwards, if they can be
-- removed.
unfoldable pub stop_running :
    (ℕ → Option Text)
    → (ℕ → Bool)
    → (ℕ → Bool)
    → Pkill
    → Bool
    → Files
    → Bool × ((List Target × List Target) × Files)
stop_running cmdline is_leader lingers pkill removable files =
    let modules = matching cmdline module_bin_dir (read_pids files.pids) in
    let pointers = matching cmdline (codes "unclutter") (read_pids files.unclutter) in
    (
      pkill_succeeds pkill && removable,
      (
        terminate_all is_leader lingers (modules ++ pointers),
        if removable then clear_state files else files,
      ),
    )

abbrev pub pid_of : Target → ℕ
pid_of (process pid) = pid
pid_of (group pid) = pid

-- What follows the first argument in a command line: nothing, or a zero byte and more.
abbrev IsTail : Text → Type 0
IsTail [] = Unit
IsTail (c ∷ _) = c ≡ 0

-- The first argument of a command line, up to its first zero byte, has a text in it.
abbrev pub Runs : Text → Option Text → Type 0
Runs want none = ⊥
Runs want (some line) =
    (argv0 : Text) × (tail : Text) × (line ≡ argv0 ++ tail)
    × Without 0 argv0
    × IsTail tail
    × Holds want argv0

cut-Runs :
    (want line : Text) (o : Option (Text × Text))
    → IsCut 0 line o
    → contains_text (first_argument line o) want ≡ true
    → Runs want (some line)
cut-Runs want line none h k =
    (line, [], sym (append-nil line), h, tt, contains_text-Holds line want k)
cut-Runs want line (some (argv0, rest)) h k =
    (argv0, 0 ∷ rest, h.1, h.0, refl, contains_text-Holds argv0 want k)

process_matches-Runs :
    (want : Text) (line : Option Text) → process_matches line want ≡ true → Runs want line
process_matches-Runs want none h = cc
process_matches-Runs want (some line) h = cut-Runs want line (cut 0 line) (cut-IsCut 0 line) h

module _ (cmdline : ℕ → Option Text) where
  -- A process that the program started: a module, or unclutter.
  abbrev pub IsOurs : ℕ → Type 0
  IsOurs pid = Runs module_bin_dir (cmdline pid) ⊎ Runs (codes "unclutter") (cmdline pid)

  abbrev pub Spares : List Target → Type 0
  Spares = All (λ t. IsOurs (pid_of t))

  Spares-append : (ts us : List Target) → Spares ts → Spares us → Spares (ts ++ us)
  Spares-append [] us h k = k
  Spares-append (t ∷ ts) us h k = (h.0, Spares-append ts us h.1 k)

  AllOurs-append : (ps qs : List ℕ) → All IsOurs ps → All IsOurs qs → All IsOurs (ps ++ qs)
  AllOurs-append [] qs h k = k
  AllOurs-append (p ∷ ps) qs h k = (h.0, AllOurs-append ps qs h.1 k)

  matching-All :
      (want : Text) (P : ℕ → Type 0) (ps : List ℕ)
      → ((p : ℕ) → process_matches (cmdline p) want ≡ true → P p)
      → All P (matching cmdline want ps)
  unfolding matching
  matching-All want P [] h = tt
  matching-All want P (p ∷ ps) h =
      if-both (All P) (process_matches (cmdline p) want) (p ∷ matching cmdline want ps)
        (matching cmdline want ps) (λ e. (h p e, matching-All want P ps h))
        λ _. matching-All want P ps h

  sent_to-Spares : (b : Bool) (p : ℕ) → IsOurs p → Spares (sent_to b p)
  sent_to-Spares true p h = (h, tt)
  sent_to-Spares false p h = (h, (h, tt))

  module _ (is_leader lingers : ℕ → Bool) where
    terminate_all-Spares :
        (ps : List ℕ)
        → All IsOurs ps
        → Spares (terminate_all is_leader lingers ps).0
          × Spares (terminate_all is_leader lingers ps).1
    unfolding terminate_all terminate
    terminate_all-Spares [] h = (tt, tt)
    terminate_all-Spares (p ∷ ps) h =
        let (terms, kills) = terminate_all-Spares ps h.1 in
        let ours = sent_to-Spares (is_leader p) p h.0 in
        (
          Spares-append (sent_to (is_leader p) p) (terminate_all is_leader lingers ps).0 ours terms,
          Spares-append (if lingers p then sent_to (is_leader p) p else [])
              (terminate_all is_leader lingers ps).1
              (if-both Spares (lingers p) (sent_to (is_leader p) p) [] (λ _. ours) (λ _. tt)) kills,
        )

    -- `StopRunning` spares strangers: whatever the runtime files hold, each process or group that
    -- it signals, first or last, is one whose command line now has the modules' directory or the
    -- word `unclutter` in its first argument, the text before the first zero byte; and when it
    -- succeeds the files are gone.
    pub stop_running-Spares :
        (pkill : Pkill) (removable : Bool) (files : Files)
        → let r = stop_running cmdline is_leader lingers pkill removable files in
          Spares r.1.0.0 × Spares r.1.0.1 × ((r.0 ≡ false) ⊎ (r.1.1 ≡ clear_state files))
    unfolding stop_running
    stop_running-Spares pkill removable files =
        let modules = matching cmdline module_bin_dir (read_pids files.pids) in
        let pointers = matching cmdline (codes "unclutter") (read_pids files.unclutter) in
        let (terms, kills) = terminate_all-Spares (modules ++ pointers) (
          AllOurs-append modules pointers
            (matching-All module_bin_dir IsOurs (read_pids files.pids)
              (λ p h. inl (process_matches-Runs module_bin_dir (cmdline p) h)))
            (matching-All (codes "unclutter") IsOurs (read_pids files.unclutter)
              (λ p h. inr (process_matches-Runs (codes "unclutter") (cmdline p) h)))) in
        (terms, kills, gone pkill removable)
      where
        gone :
            (pkill : Pkill) (removable : Bool)
            → ((pkill_succeeds pkill && removable) ≡ false)
              ⊎ ((if removable then clear_state files else files) ≡ clear_state files)
        gone pkill true = inr refl
        gone pkill false = inl (ground arith)
