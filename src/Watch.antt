-- ===== src/Watch.antt =====
-- internal/watch/watch.go: `mentions`, which looks for the watched file's name in a buffer of
-- inotify events, and the loop of `run`, which gathers a burst of events into one reload.
pub mod Laws
pub mod Events
pub mod Reader
use retrosaver.Prelude.{
  ℕ, zero, suc, ◌+◌, ◌-◌, ◌*◌, Bool, true, false, not, ◌&&◌, ◌||◌, List, [], ◌∷◌, ◌++◌, ltb, ◌==◌,
  if◌then◌else◌, length, Text, text_eq,
}

unfoldable pub trim_nul : Text → Text
trim_nul [] = []
trim_nul (c ∷ cs) = let rest = trim_nul cs in if c == 0 then [] else c ∷ rest

unfoldable pub take : ℕ → Text → Text
take zero s = []
take (suc n) [] = []
take (suc n) (c ∷ cs) = c ∷ take n cs

unfoldable pub drop_bytes : ℕ → Text → Text
drop_bytes zero s = s
drop_bytes (suc n) [] = []
drop_bytes (suc n) (c ∷ cs) = drop_bytes n cs

-- unix.SizeofInotifyEvent
abbrev pub header : ℕ
header = 16

-- The four bytes of the name's length, in the byte order of a little-endian machine.
abbrev pub number : Text → ℕ
number (a ∷ b ∷ c ∷ d ∷ _) = a + 256 * b + 65_536 * c + 16_777_216 * d
number _ = 0

abbrev pub name_length : Text → ℕ
name_length buf = number (drop_bytes 12 buf)

-- The loop of `mentions` at what is left of the buffer. Each round takes a header at least, so that
-- the buffer's length is fuel enough.
unfoldable pub mentions_from : ℕ → Text → Text → Bool
mentions_from zero buf name = false
mentions_from (suc fuel) buf name =
    let len = name_length buf in
    let rest = mentions_from fuel (drop_bytes (header + len) buf) name in
    if ltb (length buf) header
    then false
    else if ltb (length buf) (header + len)
    then false
    else (ltb 0 len && text_eq (trim_nul (take len (drop_bytes header buf))) name) || rest

unfoldable pub mentions : Text → Text → Bool
mentions buf name = mentions_from (length buf) buf name

-- The state of `run`: the settle timer runs, a reload is waiting in `out`, `out` is closed.
pub record Watch : Type 0 where
  pub timer : Bool
  pub pending : Bool
  pub closed : Bool

-- What happens to it: a batch of events that mentions the file, the timer's end, the receiver
-- taking the reload, the cancelled context, and the end of the reader.
pub data Step : Type 0 where
  raw settled taken cancelled reader_stopped : Step

unfoldable pub step : Step → Watch → Watch
step raw s = if s.closed then s else record s { timer = true }
step settled s = if not s.closed && s.timer then record s { timer = false; pending = true } else s
step taken s = record s { pending = false }
step cancelled s = record s { closed = true }
step reader_stopped s = record s { closed = true }

unfoldable pub steps : List Step → Watch → Watch
steps [] s = s
steps (e ∷ es) s = steps es (step e s)
