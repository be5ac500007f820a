-- ===== src/Config/Write.antt =====
-- internal/config/write.go: `Set` and what it edits the file with. A map is a list of its entries,
-- each key once; the file that is written is the result.
use retrosaver.Prelude.{
  ℕ, suc, ◌/◌, Bool, true, false, not, ◌&&◌, ◌||◌, List, [], ◌∷◌, ◌++◌, Option, none, some, leb,
  ◌==◌, if◌then◌else◌, set, Text, codes, text_eq, contains,
}
use retrosaver.Config.{Config, MonitorMode, defaults, second, same, different}
use retrosaver.Config.Parse.{
  Outcome, ParseError, ReadFile, failed, parsed, missing, unreadable, holds, is_comment, parse,
}
use retrosaver.Chars.{trim_space, cut, split, join, fields, itoa}

abbrev pub keys : List Text
keys =
    codes "SAVER_DELAY"
    ∷ codes "CYCLE_AFTER"
    ∷ codes "MONITORS"
    ∷ codes "LOCK_AFTER"
    ∷ codes "BLANK_AFTER"
    ∷ codes "EXCLUDE"
    ∷ codes "INCLUDE"
    ∷ []

abbrev pub list_keys : List Text
list_keys = codes "EXCLUDE" ∷ codes "INCLUDE" ∷ []

abbrev pub mode_text : MonitorMode → Text
mode_text same = codes "same"
mode_text different = codes "different"

-- The lines of the rendered defaults. The last one is empty: the file ends in a line feed.
abbrev pub default_lines : List Text
default_lines =
    codes "# Seconds of idle before the screensaver starts."
    ∷ (codes "SAVER_DELAY=" ++ (itoa (defaults.saver_delay / second)))
    ∷ []
    ∷ codes "# Seconds each module stays on screen before the saver switches to another"
    ∷ codes "# one. 0 disables switching, leaving the first module up until the lock."
    ∷ (codes "CYCLE_AFTER=" ++ (itoa (defaults.cycle_after / second)))
    ∷ []
    ∷ (codes "# What a second monitor shows: "
        ++ (34 ∷ [])
        ++ codes "same"
        ++ (34 ∷ [])
        ++ codes " runs one module on every monitor,")
    ∷ (codes "# "
        ++ (34 ∷ [])
        ++ codes "different"
        ++ (34 ∷ [])
        ++ codes " picks a different module for each.")
    ∷ (codes "MONITORS=" ++ (mode_text defaults.monitors))
    ∷ []
    ∷ codes "# Seconds after the screensaver starts before the session locks. 0 disables."
    ∷ (codes "LOCK_AFTER=" ++ (itoa (defaults.lock_after / second)))
    ∷ []
    ∷ codes "# Seconds after locking before the display powers off. 0 disables."
    ∷ (codes "BLANK_AFTER=" ++ (itoa (defaults.blank_after / second)))
    ∷ []
    ∷ codes "# Space-separated module names never to pick. These need image assets,"
    ∷ codes "# network access, or elevated capabilities and misbehave standalone."
    ∷ (codes "EXCLUDE=" ++ (34 ∷ []) ++ (join (32 ∷ []) defaults.exclude) ++ (34 ∷ []))
    ∷ []
    ∷ codes "# Optional: if non-empty, pick only from this space-separated list."
    ∷ (codes "# e.g. INCLUDE="
        ++ (34 ∷ [])
        ++ codes "atlantis flame ifs apollonian discrete coral sierpinski"
        ++ (34 ∷ []))
    ∷ (codes "INCLUDE=" ++ (34 ∷ []) ++ (join (32 ∷ []) defaults.include) ++ (34 ∷ []))
    ∷ []
    ∷ []

abbrev pub default_file : Text
default_file = join (10 ∷ []) default_lines

-- The characters of XScreenSaver module names: letters, digits, `-`, `_`, `.` and `+`.
abbrev pub is_name_char : ℕ → Bool
is_name_char c =
    (leb 97 c && leb c 122)
    || (leb 65 c && leb c 90)
    || (leb 48 c && leb c 57)
    || c == 45
    || c == 95
    || c == 46
    || c == 43

unfoldable pub all_name_chars : Text → Bool
all_name_chars [] = true
all_name_chars (c ∷ cs) = is_name_char c && all_name_chars cs

abbrev pub is_module_name : Text → Bool
is_module_name s = all_name_chars s && not (text_eq s [])

unfoldable pub all_module_names : List Text → Bool
all_module_names [] = true
all_module_names (n ∷ ns) = is_module_name n && all_module_names ns

-- Blank, tab, carriage return, line feed, a quote or `#`.
abbrev pub is_unwanted : ℕ → Bool
is_unwanted c = c == 32 || c == 9 || c == 13 || c == 10 || c == 34 || c == 39 || c == 35

unfoldable pub has_unwanted : Text → Bool
has_unwanted [] = false
has_unwanted (c ∷ cs) = is_unwanted c || has_unwanted cs

pub data UpdateError : Type 0 where
  unknown_key : Text → UpdateError
  not_module_name : Text → UpdateError
  not_single_word : Text → UpdateError

-- The `%q` of names that are module names puts quotes around them and changes nothing else.
unfoldable pub assignment : Text → Text → Outcome UpdateError Text
assignment key value =
    if not (contains keys key)
    then failed (unknown_key key)
    else if contains list_keys key
    then (if all_module_names (fields value)
        then parsed (key ++ (61 ∷ 34 ∷ []) ++ join (32 ∷ []) (fields value) ++ (34 ∷ []))
        else failed (not_module_name key))
    else if text_eq value [] || has_unwanted value
    then failed (not_single_word key)
    else parsed (key ++ (61 ∷ []) ++ value)

abbrev pub also_rendered :
    Text
    → Outcome UpdateError Text
    → Outcome UpdateError (List (Text × Text))
    → Outcome UpdateError (List (Text × Text))
also_rendered key (failed e) rest = failed e
also_rendered key (parsed line) (failed e) = failed e
also_rendered key (parsed line) (parsed rest) = parsed ((key, line) ∷ rest)

unfoldable pub render : List (Text × Text) → Outcome UpdateError (List (Text × Text))
render [] = parsed []
render ((key, value) ∷ updates) = also_rendered key (assignment key value) (render updates)

unfoldable pub lookup {ℓ} : {A : Type ℓ} → List (Text × A) → Text → Option A
lookup [] key = none
lookup ((k, a) ∷ entries) key =
    let rest = lookup entries key in if text_eq k key then some a else rest

-- The key that a line of the file assigns.
abbrev pub key_of : Option (Text × Text) → Option Text
key_of none = none
key_of (some (key, value)) = some (trim_space key)

unfoldable pub assigned_key : Text → Option Text
assigned_key raw =
    let text = trim_space raw in if is_comment text then none else key_of (cut 61 text)

abbrev pub mark_found {ℓ} : {A : Type ℓ} → Text → ℕ → Option A → List (Text × ℕ) → List (Text × ℕ)
mark_found key i none last = last
mark_found key i (some line) last = (key, i) ∷ last

abbrev pub mark : List (Text × Text) → ℕ → Option Text → List (Text × ℕ) → List (Text × ℕ)
mark rendered i none last = last
mark rendered i (some key) last = mark_found key i (lookup rendered key) last

-- The line of each key's last assignment: of two entries with one key, the first counts.
unfoldable pub last_lines : List (Text × Text) → ℕ → List Text → List (Text × ℕ) → List (Text × ℕ)
last_lines rendered i [] last = last
last_lines rendered i (l ∷ ls) last =
    last_lines rendered (suc i) ls (mark rendered i (assigned_key l) last)

abbrev pub put_line : ℕ → Option Text → List Text → List Text
put_line i none lines = lines
put_line i (some line) lines = set lines i line

abbrev pub replace_one : List (Text × Text) → Text → Option ℕ → List Text → List Text
replace_one rendered key none lines = lines
replace_one rendered key (some i) lines = put_line i (lookup rendered key) lines

-- The loop over the map of last lines: each rendered key at most once.
unfoldable pub replace_lines :
    List (Text × Text) → List (Text × ℕ) → List (Text × Text) → List Text → List Text
replace_lines rendered last [] lines = lines
replace_lines rendered last ((key, _) ∷ entries) lines =
    replace_lines rendered last entries (replace_one rendered key (lookup last key) lines)

abbrev pub needed : Option ℕ → Option Text → List Text → List Text
needed none (some line) rest = line ∷ rest
needed none none rest = rest
needed (some i) line rest = rest

unfoldable pub missing_lines : List (Text × Text) → List (Text × ℕ) → List Text → List Text
missing_lines rendered last [] = []
missing_lines rendered last (key ∷ ks) =
    needed (lookup last key) (lookup rendered key) (missing_lines rendered last ks)

unfoldable pub ends_line : Text → Bool
ends_line [] = false
ends_line (c ∷ []) = c == 10
ends_line (c ∷ d ∷ ds) = ends_line (d ∷ ds)

unfoldable pub append_lines : Text → List Text → Text
append_lines out [] = out
append_lines out (l ∷ ls) =
    (if not (text_eq out []) && not (ends_line out) then out ++ (10 ∷ []) else out)
    ++ join (10 ∷ []) (l ∷ ls)
    ++ (10 ∷ [])

unfoldable pub apply : Text → List (Text × Text) → Text
apply content rendered =
    let lines = split 10 content in
    let last = last_lines rendered 0 lines [] in
    append_lines (join (10 ∷ []) (replace_lines rendered last rendered lines))
      (missing_lines rendered last keys)

pub data SetError : Type 0 where
  bad_update : UpdateError → SetError
  reading : SetError
  refused : ParseError → SetError

abbrev pub checked : Text → Outcome ParseError Config → Outcome SetError (Option Text)
checked edited (failed e) = failed (refused e)
checked edited (parsed cfg) = parsed (some edited)

abbrev pub edit : Text → List (Text × Text) → Outcome SetError (Option Text)
edit content rendered =
    let edited = apply content rendered in checked edited (parse edited defaults)

abbrev pub set_rendered :
    ReadFile → Outcome UpdateError (List (Text × Text)) → Outcome SetError (Option Text)
set_rendered file (failed e) = failed (bad_update e)
set_rendered missing (parsed rendered) = edit default_file rendered
set_rendered unreadable (parsed rendered) = failed reading
set_rendered (holds content) (parsed rendered) = edit content rendered

-- `Set`: the text for `writeAtomic`, or none when there is nothing to write.
unfoldable pub set_config : ReadFile → List (Text × Text) → Outcome SetError (Option Text)
set_config file [] = parsed none
set_config file (u ∷ us) = set_rendered file (render (u ∷ us))
