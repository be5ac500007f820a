-- ===== src/Chars.antt =====
-- The functions of Go's strings and strconv packages that the program calls, on bytes: the
-- documented behaviour on ASCII, which is all that the config's syntax is made of.
pub mod Find
pub mod Numbers
pub mod Trim
use retrosaver.Prelude.{
  ℕ, zero, suc, ◌/◌, ◌+◌, ◌*◌, ◌-◌, Bool, true, false, ◌&&◌, ◌||◌, List, [], ◌∷◌, ◌++◌, Option,
  none, some, ltb, leb, ◌==◌, word, half_word, ◌%◌, if◌then◌else◌, Text, text_eq,
}

-- White space: tab, line feed, vertical tab, form feed, carriage return and blank.
unfoldable pub is_space : ℕ → Bool
is_space c = (leb 9 c && leb c 13) || c == 32

unfoldable pub trim_left : Text → Text
trim_left [] = []
trim_left (c ∷ cs) = let rest = trim_left cs in if is_space c then rest else c ∷ cs

-- A byte before what is left of the text without its trailing white space.
abbrev pub keep_unless_blank : ℕ → Text → Text
keep_unless_blank c [] = if is_space c then [] else c ∷ []
keep_unless_blank c (d ∷ ds) = c ∷ d ∷ ds

unfoldable pub trim_right : Text → Text
trim_right [] = []
trim_right (c ∷ cs) = keep_unless_blank c (trim_right cs)

-- strings.TrimSpace
unfoldable pub trim_space : Text → Text
trim_space s = trim_right (trim_left s)

-- strings.HasPrefix
unfoldable pub has_prefix : Text → Text → Bool
has_prefix s [] = true
has_prefix [] (p ∷ ps) = false
has_prefix (c ∷ cs) (p ∷ ps) = c == p && has_prefix cs ps

abbrev pub before : ℕ → Option (Text × Text) → Option (Text × Text)
before c none = none
before c (some (key, value)) = some (c ∷ key, value)

-- strings.Cut at a byte
unfoldable pub cut : ℕ → Text → Option (Text × Text)
cut sep [] = none
cut sep (c ∷ cs) = let rest = before c (cut sep cs) in if c == sep then some ([], cs) else rest

abbrev pub onto_first : ℕ → List Text → List Text
onto_first c [] = (c ∷ []) ∷ []
onto_first c (l ∷ ls) = (c ∷ l) ∷ ls

-- strings.Split at a byte: one piece more than there are separators.
unfoldable pub split : ℕ → Text → List Text
split sep [] = [] ∷ []
split sep (c ∷ cs) = let rest = split sep cs in if c == sep then [] ∷ rest else onto_first c rest

-- strings.Join
unfoldable pub join : Text → List Text → Text
join sep [] = []
join sep (l ∷ []) = l
join sep (l ∷ k ∷ ls) = l ++ sep ++ join sep (k ∷ ls)

-- The words of a text, the open word first.
abbrev pub begun : Text → List Text → List Text
begun [] ws = ws
begun (c ∷ cs) ws = (c ∷ cs) ∷ ws

-- The open word at the start of the text, and the words after it.
unfoldable pub words : Text → Text × List Text
words [] = ([], [])
words (c ∷ cs) =
    let rest = words cs in if is_space c then ([], begun rest.0 rest.1) else (c ∷ rest.0, rest.1)

-- strings.Fields
unfoldable pub fields : Text → List Text
fields s = let w = words s in begun w.0 w.1

abbrev pub is_digit : ℕ → Bool
is_digit c = leb 48 c && leb c 57

-- The number that a text of decimal digits spells, after the digits read before it.
unfoldable pub digits : ℕ → Text → Option ℕ
digits n [] = some n
digits n (c ∷ cs) = let rest = digits (n * 10 + (c - 48)) cs in if is_digit c then rest else none

abbrev pub non_empty_digits : Text → Option ℕ
non_empty_digits [] = none
non_empty_digits (c ∷ cs) = digits 0 (c ∷ cs)

-- strconv.Atoi: a sign at most, digits, and a value that an int64 holds, as its pattern.
abbrev pub in_int64 : Bool → Option ℕ → Option ℕ
in_int64 negative none = none
in_int64 false (some n) = if ltb n half_word then some n else none
in_int64 true (some n) = if leb n half_word then some ((word - n) % word) else none

unfoldable pub atoi : Text → Option ℕ
atoi [] = none
atoi (c ∷ cs) =
    if c == 45
    then in_int64 true (non_empty_digits cs)
    else if c == 43
    then in_int64 false (non_empty_digits cs)
    else in_int64 false (non_empty_digits (c ∷ cs))

-- strconv.Itoa of a number that is not negative: an int64 has 19 digits at most.
unfoldable pub to_digits : ℕ → ℕ → Text → Text
to_digits zero n acc = acc
to_digits (suc fuel) n acc =
    let rest = to_digits fuel (n / 10) ((48 + n % 10) ∷ acc) in
    if ltb n 10 then (48 + n) ∷ acc else rest

abbrev pub itoa : ℕ → Text
itoa n = to_digits 19 n []

abbrev pub upper : ℕ → ℕ
upper c = if leb 97 c && leb c 122 then c - 32 else c

-- strings.ToUpper, on ASCII.
unfoldable pub to_upper : Text → Text
to_upper [] = []
to_upper (c ∷ cs) = upper c ∷ to_upper cs

-- strings.Contains
unfoldable pub contains_text : Text → Text → Bool
contains_text [] part = has_prefix [] part
contains_text (c ∷ cs) part = has_prefix (c ∷ cs) part || contains_text cs part

-- strings.TrimRight of one byte.
abbrev pub keep_unless : ℕ → ℕ → Text → Text
keep_unless q c [] = if c == q then [] else c ∷ []
keep_unless q c (d ∷ ds) = c ∷ d ∷ ds

unfoldable pub trim_right_of : ℕ → Text → Text
trim_right_of q [] = []
trim_right_of q (c ∷ cs) = keep_unless q c (trim_right_of q cs)

-- filepath.Base of an absolute path that does not end in a slash: what follows the last slash.
unfoldable pub after_last : ℕ → Text → Text → Text
after_last sep open_part [] = open_part
after_last sep open_part (c ∷ cs) =
    let fresh = after_last sep [] cs in
    let longer = after_last sep (open_part ++ c ∷ []) cs in if c == sep then fresh else longer

abbrev pub hex_digit : ℕ → ℕ
hex_digit n = if ltb n 10 then 48 + n else 87 + n

-- One byte of strconv.Quote: 92 is the backslash.
abbrev pub quoted : ℕ → Text
quoted c =
    if c == 34 || c == 92
    then 92 ∷ c ∷ []
    else if leb 32 c && ltb c 127
    then c ∷ []
    else if c == 7
    then 92 ∷ 97 ∷ []
    else if c == 8
    then 92 ∷ 98 ∷ []
    else if c == 9
    then 92 ∷ 116 ∷ []
    else if c == 10
    then 92 ∷ 110 ∷ []
    else if c == 11
    then 92 ∷ 118 ∷ []
    else if c == 12
    then 92 ∷ 102 ∷ []
    else if c == 13
    then 92 ∷ 114 ∷ []
    else 92 ∷ 120 ∷ hex_digit (c / 16) ∷ hex_digit (c % 16) ∷ []

unfoldable pub quote_inner : Text → Text
quote_inner [] = []
quote_inner (c ∷ cs) = quoted c ++ quote_inner cs

-- strconv.Quote, the `%q` of fmt.
abbrev pub quote : Text → Text
quote t = 34 ∷ (quote_inner t ++ 34 ∷ [])
