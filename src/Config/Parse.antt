-- ===== src/Config/Parse.antt =====
-- internal/config/config.go: `Load`, `parse`, `unquote` and `seconds`. A file is the list of its
-- bytes; an error keeps what its message names.
use retrosaver.Prelude.{
  ℕ, suc, Bool, ◌||◌, List, [], ◌∷◌, Option, none, some, leb, ◌==◌, if◌then◌else◌, length, Text,
  codes, text_eq, lt64, mul64,
}
use retrosaver.Config.{Config, Duration, second, defaults, same, different}
use retrosaver.Chars.{trim_space, has_prefix, cut, split, fields, atoi}

abbrev pub max_seconds : ℕ
max_seconds = 9_223_372_036

pub data SecondsError : Type 0 where
  not_integer negative too_large : SecondsError

pub data ParseError : Type 0 where
  not_assignment : ℕ → Text → ParseError
  bad_seconds : ℕ → Text → SecondsError → ParseError
  bad_monitors : ℕ → Text → ParseError
  line_too_long : ParseError

pub data Outcome {ℓ κ} (E : Type ℓ) (A : Type κ) : Type (ℓ ⊔ κ) where
  failed : E → Outcome E A
  parsed : A → Outcome E A

abbrev pub in_range : Option ℕ → Outcome SecondsError Duration
in_range none = failed not_integer
in_range (some n) =
    if lt64 n 0
    then failed negative
    else if lt64 max_seconds n
    then failed too_large
    else parsed (mul64 n second)

unfoldable pub seconds : Text → Outcome SecondsError Duration
seconds s = in_range (atoi s)

abbrev pub opened_by : ℕ → Option Text → Option Text
opened_by c none = none
opened_by c (some inner) = some (c ∷ inner)

-- The text without its last byte, which is `q`.
abbrev pub closed_by : ℕ → Text → Option Text
closed_by q [] = none
closed_by q (c ∷ []) = if c == q then some [] else none
closed_by q (c ∷ d ∷ ds) = opened_by c (closed_by q (d ∷ ds))

abbrev pub or_whole : Text → Option Text → Text
or_whole s none = s
or_whole s (some inner) = inner

-- A quote is 34 or 39.
unfoldable pub unquote : Text → Text
unquote [] = []
unquote (c ∷ cs) = if c == 34 || c == 39 then or_whole (c ∷ cs) (closed_by c cs) else c ∷ cs

abbrev pub with_seconds :
    ℕ → Text → (Duration → Config) → Outcome SecondsError Duration → Outcome ParseError Config
with_seconds line key put (failed e) = failed (bad_seconds line key e)
with_seconds line key put (parsed d) = parsed (put d)

unfoldable pub set_key : ℕ → Text → Text → Config → Outcome ParseError Config
set_key line key value cfg =
    if text_eq key (codes "SAVER_DELAY")
    then with_seconds line key (λ d. record cfg { saver_delay = d }) (seconds value)
    else if text_eq key (codes "LOCK_AFTER")
    then with_seconds line key (λ d. record cfg { lock_after = d }) (seconds value)
    else if text_eq key (codes "BLANK_AFTER")
    then with_seconds line key (λ d. record cfg { blank_after = d }) (seconds value)
    else if text_eq key (codes "CYCLE_AFTER")
    then with_seconds line key (λ d. record cfg { cycle_after = d }) (seconds value)
    else if text_eq key (codes "MONITORS")
    then (if text_eq value (codes "same")
        then parsed (record cfg { monitors = same })
        else if text_eq value (codes "different")
        then parsed (record cfg { monitors = different })
        else failed (bad_monitors line value))
    else if text_eq key (codes "EXCLUDE")
    then parsed (record cfg { exclude = fields value })
    else if text_eq key (codes "INCLUDE")
    then parsed (record cfg { include = fields value })
    else parsed cfg

abbrev pub is_comment : Text → Bool
is_comment text = text_eq text [] || has_prefix text (35 ∷ [])

abbrev pub assign : ℕ → Text → Config → Option (Text × Text) → Outcome ParseError Config
assign line text cfg none = failed (not_assignment line text)
assign line text cfg (some (key, value)) =
    set_key line (trim_space key) (unquote (trim_space value)) cfg

-- One line of the file, already without the white space around it.
unfoldable pub parse_line : ℕ → Text → Config → Outcome ParseError Config
parse_line line text cfg =
    if is_comment text then parsed cfg else assign line text cfg (cut 61 text)

-- bufio.MaxScanTokenSize
abbrev pub max_token : ℕ
max_token = 65_536

-- The scanner gives no line that fills its buffer.
unfoldable pub scan_line : ℕ → Text → Config → Outcome ParseError Config
scan_line line raw cfg =
    if leb max_token (length raw)
    then failed line_too_long
    else parse_line line (trim_space raw) cfg

abbrev pub and_then :
    Outcome ParseError Config → (Config → Outcome ParseError Config) → Outcome ParseError Config
and_then (failed e) next = failed e
and_then (parsed cfg) next = next cfg

unfoldable pub parse_lines : ℕ → List Text → Config → Outcome ParseError Config
parse_lines line [] cfg = parsed cfg
parse_lines line (raw ∷ raws) cfg =
    and_then (scan_line line raw cfg) (λ cfg'. parse_lines (suc line) raws cfg')

-- The last piece of the split is empty when the file ends in a line feed: the scanner gives no such
-- line, and an empty line changes nothing.
unfoldable pub parse : Text → Config → Outcome ParseError Config
parse content cfg = parse_lines 1 (split 10 content) cfg

-- What reading the file gives: `unreadable` is one that cannot be opened or not be read to its end,
-- both of which end in the defaults and an error.
pub data ReadFile : Type 0 where
  missing unreadable : ReadFile
  holds : Text → ReadFile

pub data LoadError : Type 0 where
  opening : LoadError
  parsing : ParseError → LoadError

abbrev pub or_defaults : Outcome ParseError Config → Config × Option LoadError
or_defaults (failed e) = (defaults, some (parsing e))
or_defaults (parsed cfg) = (cfg, none)

unfoldable pub load : ReadFile → Config × Option LoadError
load missing = (defaults, none)
load unreadable = (defaults, some opening)
load (holds content) = or_defaults (parse content defaults)
