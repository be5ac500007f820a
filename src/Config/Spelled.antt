-- ===== src/Config/Spelled.antt =====
-- internal/config/write.go and config.go: the values that a text spells, and texts that the parser
-- leaves as they are.
use retrosaver.Prelude.{
  ℕ, ◌<◌, ◌≡◌, inl, inr, refl, sym, ap, subst, ◌∙◌, Bool, true, false, ◌||◌, [], ◌∷◌, ◌++◌, Option,
  none, some, arith, Bool-cases, if◌then◌else◌, leb, ◌==◌, length, Text, codes, text_eq,
  text_eq_iff, ◌*◌, ◌+◌, ◌-◌,
}
use retrosaver.Chars.{is_digit, is_space, digits, non_empty_digits, in_int64, atoi, fields}
use retrosaver.Chars.Trim.{OneWord}
use retrosaver.Config.{Config, Duration, same, different}
use retrosaver.Config.Parse.{
  Outcome, failed, parsed, SecondsError, in_range, seconds, unquote, set_key, max_token, scan_line,
}
use retrosaver.Config.Frame.{
  Setting, Value, delay, mode, names, key_name, saver_delay, lock_after, blank_after, cycle_after,
  monitors, exclude, include,
}
use retrosaver.Config.Lines.{
  IsKey, is_key_text-IsKey, IsTight, trim_right-word, unquote-word, scan_line-assign,
}

abbrev pub delay_of : Outcome SecondsError Duration → Option Value
delay_of (failed e) = none
delay_of (parsed d) = some (delay d)

abbrev pub mode_of : Text → Option Value
mode_of v =
    if text_eq v (codes "same")
    then some (mode same)
    else if text_eq v (codes "different")
    then some (mode different)
    else none

-- The value that a text spells for a setting.
abbrev pub spelled : Setting → Text → Option Value
spelled saver_delay v = delay_of (seconds v)
spelled lock_after v = delay_of (seconds v)
spelled blank_after v = delay_of (seconds v)
spelled cycle_after v = delay_of (seconds v)
spelled monitors v = mode_of v
spelled exclude v = some (names (fields v))
spelled include v = some (names (fields v))

pub key_name-IsKey : (s : Setting) → IsKey (key_name s)
unfolding is_space
key_name-IsKey saver_delay = is_key_text-IsKey _ _ refl
key_name-IsKey lock_after = is_key_text-IsKey _ _ refl
key_name-IsKey blank_after = is_key_text-IsKey _ _ refl
key_name-IsKey cycle_after = is_key_text-IsKey _ _ refl
key_name-IsKey monitors = is_key_text-IsKey _ _ refl
key_name-IsKey exclude = is_key_text-IsKey _ _ refl
key_name-IsKey include = is_key_text-IsKey _ _ refl

-- A word that does not start with a quote.
abbrev pub IsBare : Text → Type 0
IsBare v = OneWord v × ((c : ℕ) × (cs : Text) × (v ≡ c ∷ cs) × ((c == 34 || c == 39) ≡ false))

digits-OneWord : (t : Text) (n k : ℕ) → digits n t ≡ some k → OneWord t
unfolding digits is_space
digits-OneWord [] n k h = tt
digits-OneWord (c ∷ cs) n k h = elim (Bool-cases (is_digit c)) [
  | inl e ↦ (ground arith, digits-OneWord cs (n * 10 + (c - 48)) k (rw e at h))
  | inr e ↦ let bad = rw e at h in cc
]

non_empty-OneWord : (t : Text) (k : ℕ) → non_empty_digits t ≡ some k → OneWord t
non_empty-OneWord [] k h = tt
non_empty-OneWord (c ∷ cs) k h = digits-OneWord (c ∷ cs) 0 k h

in_int64-OneWord :
    (b : Bool) (o : Option ℕ) (t : Text) (k : ℕ)
    → ((n : ℕ) → o ≡ some n → OneWord t)
    → in_int64 b o ≡ some k
    → OneWord t
in_int64-OneWord b none t k h e = cc
in_int64-OneWord b (some n) t k h e = h n refl

first-digit : (c : ℕ) (cs : Text) (k : ℕ) → non_empty_digits (c ∷ cs) ≡ some k → is_digit c ≡ true
unfolding digits
first-digit c cs k h = elim (Bool-cases (is_digit c)) [
  | inl e ↦ e
  | inr e ↦ let bad = rw e at h in cc
]

in_int64-first :
    (b : Bool) (o : Option ℕ) (c k : ℕ)
    → ((n : ℕ) → o ≡ some n → is_digit c ≡ true)
    → in_int64 b o ≡ some k
    → is_digit c ≡ true
in_int64-first b none c k h e = cc
in_int64-first b (some n) c k h e = h n refl

bare :
    (c : ℕ) (cs : Text)
    → is_space c ≡ false
    → (c == 34 || c == 39) ≡ false
    → OneWord cs
    → IsBare (c ∷ cs)
bare c cs s q h = ((s, h), (c, cs, refl, q))

-- A text that reads as a number.
atoi-IsBare : (t : Text) (k : ℕ) → atoi t ≡ some k → IsBare t
unfolding atoi is_space
atoi-IsBare [] k h = cc
atoi-IsBare (c ∷ cs) k h = elim (Bool-cases (c == 45)) [
  | inl minus ↦
      bare c cs (ground arith) (ground arith)
        (in_int64-OneWord true (non_empty_digits cs) cs k (non_empty-OneWord cs) (rw minus at h))
  | inr other ↦ elim (Bool-cases (c == 43)) [
    | inl plus ↦ bare c cs (ground arith) (ground arith) (
        in_int64-OneWord false (non_empty_digits cs) cs k (non_empty-OneWord cs)
          (rw plus at (rw other at h)))
    | inr digit ↦
        let number = rw digit at (rw other at h) in
        let first =
          in_int64-first false (non_empty_digits (c ∷ cs)) c k (first-digit c cs) number in
        let all =
          in_int64-OneWord false (non_empty_digits (c ∷ cs)) (c ∷ cs) k (non_empty-OneWord (c ∷ cs))
            number in
        bare c cs (all.0) (ground arith) (all.1)
  ]
]

in_range-IsBare :
    (o : Option ℕ) (v : Text) (x : Value)
    → ((n : ℕ) → o ≡ some n → IsBare v)
    → delay_of (in_range o) ≡ some x
    → IsBare v
in_range-IsBare none v x h e = cc
in_range-IsBare (some n) v x h e = h n refl

pub delay-IsBare : (v : Text) (x : Value) → delay_of (seconds v) ≡ some x → IsBare v
unfolding seconds
delay-IsBare v x h = in_range-IsBare (atoi v) v x (atoi-IsBare v) h

pub mode-IsBare : (v : Text) (x : Value) → mode_of v ≡ some x → IsBare v
unfolding is_space
mode-IsBare v x h = elim (Bool-cases (text_eq v (codes "same"))) [
  | inl e ↦
      subst IsBare (sym ((text_eq_iff v (codes "same")).0 e))
        ((is_key_text-IsKey 115 (codes "ame") refl).0.0, (_, _, refl, refl))
  | inr e ↦ elim (Bool-cases (text_eq v (codes "different"))) [
    | inl e' ↦
        subst IsBare (sym ((text_eq_iff v (codes "different")).0 e'))
          ((is_key_text-IsKey 100 (codes "ifferent") refl).0.0, (_, _, refl, refl))
    | inr e' ↦ let bad = rw e' at (rw e at h) in cc
  ]
]

-- A line that is scanned fits the scanner's buffer.
scanned-short :
    (n : ℕ) (l : Text) (c d : Config) → scan_line n l c ≡ parsed d → length l < max_token
unfolding scan_line
scanned-short n l c d h = elim (Bool-cases (leb max_token (length l))) [
  | inl long ↦ let bad = rw long at h in cc
  | inr fits ↦ ground arith
]

-- What is scanned of a line that assigns a value.
pub scanned-set_key :
    (n : ℕ) (key v : Text) (c d : Config)
    → IsKey key
    → IsTight v
    → scan_line n (key ++ 61 ∷ v) c ≡ parsed d
    → set_key n key (unquote v) c ≡ parsed d
scanned-set_key n key v c d k t h =
    sym (scan_line-assign n key v c k t (scanned-short n (key ++ 61 ∷ v) c d h)) ∙ h

pub unquote-IsBare : (v : Text) → IsBare v → unquote v ≡ v
unquote-IsBare v (_, (c, cs, e, q)) = ap unquote e ∙ unquote-word c cs q ∙ sym e

pub IsBare-IsTight : (v : Text) → IsBare v → IsTight v
IsBare-IsTight v (w, (c, cs, e, _)) = (c, cs, e, (subst OneWord e w).0, trim_right-word v w)
