-- ===== src/Window.antt =====
-- internal/window/window.go and internal/window/monitors.go: the runtime files that name the
-- running modules, the ring buffer for a module's stderr, and the monitors without duplicates. The
-- files and the processes that are alive are arguments.
pub mod Laws
pub mod Pids
pub mod Saver
pub mod Owns
pub mod Stopping
pub mod Screen
pub mod Starting
use retrosaver.Prelude.{
  ℕ, ◌+◌, ◌-◌, Bool, true, false, not, ◌&&◌, ◌||◌, List, [], ◌∷◌, ◌++◌, Option, none, some, map,
  ltb, ◌==◌, if◌then◌else◌, length, Text, lt64, le64,
}
use retrosaver.Chars.{trim_space, split, join, fields, atoi, itoa}

-- The PID file, the module file and unclutter's PID file: none for one that is not there or cannot
-- be read.
pub record Files : Type 0 where
  pub pids : Option Text
  pub modules : Option Text
  pub unclutter : Option Text

abbrev pub and_pid : Option ℕ → Option (List ℕ) → Option (List ℕ)
and_pid none rest = none
and_pid (some pid) none = none
and_pid (some pid) (some rest) = if le64 pid 1 then none else some (pid ∷ rest)

-- The loop of `readPIDs`: a line that is no plausible PID ends it with no PIDs at all.
unfoldable pub pids_in : List Text → Option (List ℕ)
pids_in [] = some []
pids_in (l ∷ ls) = and_pid (atoi (trim_space l)) (pids_in ls)

abbrev pub or_no_pids : Option (List ℕ) → List ℕ
or_no_pids none = []
or_no_pids (some pids) = pids

unfoldable pub read_pids : Option Text → List ℕ
read_pids none = []
read_pids (some content) = or_no_pids (pids_in (split 10 (trim_space content)))

-- The text that `writeFile` leaves.
abbrev pub file_of : Text → Option Text
file_of content = some (content ++ 10 ∷ [])

-- `writeState`, every write of which succeeds.
unfoldable pub write_state : List ℕ → List Text → ℕ → Files → Files
write_state pids modules unclutter files = record {
  pids = file_of (join (10 ∷ []) (map itoa pids));
  modules = file_of (join (10 ∷ []) modules);
  unclutter = if lt64 0 unclutter then file_of (itoa unclutter) else files.unclutter;
}

-- `clearState`, every removal of which succeeds.
abbrev pub clear_state : Files → Files
clear_state files = record { pids = none; modules = none; unclutter = none }

abbrev pub cleared_if_first : ℕ → List ℕ → Files → Files
cleared_if_first pid [] files = files
cleared_if_first pid (p ∷ ps) files = if p == pid then clear_state files else files

unfoldable pub clear_state_for : ℕ → Files → Files
clear_state_for pid files = cleared_if_first pid (read_pids files.pids) files

abbrev pub first_pid : List ℕ → ℕ
first_pid [] = 0
first_pid (p ∷ ps) = p

-- slices.ContainsFunc, with what `processMatches` says of each process.
unfoldable pub any_matches : (ℕ → Bool) → List ℕ → Bool
any_matches matches [] = false
any_matches matches (p ∷ ps) = matches p || any_matches matches ps

abbrev pub named : Option Text → Text
named none = []
named (some content) = join (44 ∷ 32 ∷ []) (fields content)

unfoldable pub running_module : (ℕ → Bool) → Files → Text × Bool
running_module matches files =
    if not (any_matches matches (read_pids files.pids))
    then ([], false)
    else (named files.modules, true)

pub record RingBuffer : Type 0 where
  pub buf : Text
  pub n : ℕ

unfoldable pub drop : ℕ → Text → Text
drop k [] = []
drop k (c ∷ cs) = let rest = drop (k - 1) cs in if k == 0 then c ∷ cs else rest

abbrev pub new_ring_buffer : ℕ → RingBuffer
new_ring_buffer n = record { buf = []; n = n }

-- The last bytes that the buffer has room for.
abbrev pub last_bytes : ℕ → Text → Text
last_bytes n buf = if ltb n (length buf) then drop (length buf - n) buf else buf

unfoldable pub write : Text → RingBuffer → RingBuffer
write p r = record r { buf = last_bytes r.n (r.buf ++ p) }

abbrev pub ring_text : RingBuffer → Text
ring_text r = trim_space r.buf

pub record Monitor : Type 0 where
  pub x : ℕ
  pub y : ℕ
  pub width : ℕ
  pub height : ℕ

abbrev pub same_monitor : Monitor → Monitor → Bool
same_monitor a b = a.x == b.x && a.y == b.y && a.width == b.width && a.height == b.height

unfoldable pub has_seen : List Monitor → Monitor → Bool
has_seen [] m = false
has_seen (s ∷ ss) m = same_monitor s m || has_seen ss m

-- The monitors that are not among those seen before.
unfoldable pub distinct_from : List Monitor → List Monitor → List Monitor
distinct_from seen [] = []
distinct_from seen (m ∷ ms) =
    let without = distinct_from seen ms in
    let with_it = distinct_from (m ∷ seen) ms in if has_seen seen m then without else m ∷ with_it

unfoldable pub distinct : List Monitor → List Monitor
distinct mons = distinct_from [] mons
