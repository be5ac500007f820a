-- ===== src/Config/Bounds.antt =====
-- internal/config/config.go: what every configuration that `Load` returns satisfies.
use retrosaver.Prelude.{
  ℕ, suc, ◌*◌, ◌≤◌, ◌<◌, ◌≡◌, ◌⊎◌, inl, inr, refl, subst, false, List, [], ◌∷◌, Option, none, some,
  arith, if-both, if◌then◌else◌, leb, Text, lt64, mul64, length, word,
}
use retrosaver.Config.{Config, Duration, second, defaults}
use retrosaver.Chars.{atoi, trim_space, cut, split}
use retrosaver.Chars.Numbers.{atoi-bound}
use retrosaver.Config.Parse.{
  Outcome, failed, parsed, SecondsError, ParseError, ReadFile, missing, unreadable, holds,
  max_seconds, max_token, in_range, seconds, with_seconds, set_key, is_comment, assign, parse_line,
  scan_line, and_then, parse_lines, parse, or_defaults, load, unquote, line_too_long,
}

-- The value of a success.
abbrev pub OnParsed {ℓ κ} : {E : Type ℓ} {A : Type κ} → (A → Type 0) → Outcome E A → Type 0
OnParsed P (failed e) = Unit
OnParsed P (parsed a) = P a

-- The duration is the number of seconds that was read, within the largest accepted.
abbrev pub Spelled : Option ℕ → Duration → Type 0
Spelled o d = (n : ℕ) × (o ≡ some n) × (n ≤ max_seconds) × (d ≡ n * second)

at_most : (n : ℕ) → n < word → lt64 n 0 ≡ false → lt64 max_seconds n ≡ false → n ≤ max_seconds
at_most n h e0 e1 = ground arith

exact : (n : ℕ) → n ≤ max_seconds → mul64 n second ≡ n * second
exact n h = omega arith

in_range_lem :
    (o : Option ℕ) → ((n : ℕ) → o ≡ some n → n < word) → OnParsed (λ d. Spelled o d) (in_range o)
in_range_lem none b = tt
in_range_lem (some n) b =
    if-both (OnParsed (λ d. Spelled (some n) d)) (lt64 n 0) (failed SecondsError.negative)
      (if lt64 max_seconds n then failed SecondsError.too_large else parsed (mul64 n second))
      (λ e. tt)
      λ e0.
        if-both (OnParsed (λ d. Spelled (some n) d)) (lt64 max_seconds n)
          (failed SecondsError.too_large) (parsed (mul64 n second)) (λ e. tt)
          λ e1. (n, refl, at_most n (b n refl) e0 e1, exact n (at_most n (b n refl) e0 e1))

-- A number of seconds that `seconds` accepts is the one that the text spells, at most
-- `max_seconds`, and the duration is that many seconds: the multiplication does not wrap.
pub seconds_lem : (s : Text) (d : Duration) → seconds s ≡ parsed d → Spelled (atoi s) d
unfolding seconds
seconds_lem s d h = subst (OnParsed (Spelled (atoi s))) h (in_range_lem (atoi s) (atoi-bound s))

-- A delay that a configuration may hold.
abbrev pub Accepted : Duration → Type 0
Accepted d = d ≤ max_seconds * second

abbrev pub AllAccepted : Config → Type 0
AllAccepted c =
    Accepted c.saver_delay × Accepted c.lock_after × Accepted c.blank_after × Accepted c.cycle_after

seconds-Accepted : (s : Text) → OnParsed Accepted (seconds s)
seconds-Accepted s = each (seconds s) (seconds_lem s)
  where
    each :
        (o : Outcome SecondsError Duration)
        → ((d : Duration) → o ≡ parsed d → Spelled (atoi s) d)
        → OnParsed Accepted o
    each (failed e) k = tt
    each (parsed d) k = let (n, _, small, spelled) = k d refl in omega arith

with_seconds-Accepted :
    (line : ℕ) (key : Text) (put : Duration → Config) (o : Outcome SecondsError Duration)
    → OnParsed Accepted o
    → ((d : Duration) → Accepted d → AllAccepted (put d))
    → OnParsed AllAccepted (with_seconds line key put o)
with_seconds-Accepted line key put (failed e) h k = tt
with_seconds-Accepted line key put (parsed d) h k = k d h

set_key-Accepted :
    (line : ℕ) (key value : Text) (c : Config)
    → AllAccepted c
    → OnParsed AllAccepted (set_key line key value c)
unfolding set_key
set_key-Accepted line key value c h = ground (
  arith,
  with_seconds-Accepted line key (λ d. record c { saver_delay = d }) (seconds value)
      (seconds-Accepted value),
  with_seconds-Accepted line key (λ d. record c { lock_after = d }) (seconds value)
      (seconds-Accepted value),
  with_seconds-Accepted line key (λ d. record c { blank_after = d }) (seconds value)
      (seconds-Accepted value),
  with_seconds-Accepted line key (λ d. record c { cycle_after = d }) (seconds value)
      (seconds-Accepted value),
)

assign-Accepted :
    (line : ℕ) (text : Text) (c : Config) (o : Option (Text × Text))
    → AllAccepted c
    → OnParsed AllAccepted (assign line text c o)
assign-Accepted line text c none h = tt
assign-Accepted line text c (some (key, value)) h =
    set_key-Accepted line (trim_space key) (unquote (trim_space value)) c h

scan_line-Accepted :
    (line : ℕ) (raw : Text) (c : Config)
    → AllAccepted c
    → OnParsed AllAccepted (scan_line line raw c)
unfolding scan_line parse_line
scan_line-Accepted line raw c h =
    let text = trim_space raw in
    if-both (OnParsed AllAccepted) (leb max_token (length raw)) (failed line_too_long)
      (parse_line line text c) (λ e. tt)
      λ e.
        if-both (OnParsed AllAccepted) (is_comment text) (parsed c)
          (assign line text c (cut 61 text)) (λ e. h)
          λ e. assign-Accepted line text c (cut 61 text) h

and_then-Accepted :
    (o : Outcome ParseError Config) (next : Config → Outcome ParseError Config)
    → OnParsed AllAccepted o
    → ((c : Config) → AllAccepted c → OnParsed AllAccepted (next c))
    → OnParsed AllAccepted (and_then o next)
and_then-Accepted (failed e) next h k = tt
and_then-Accepted (parsed c) next h k = k c h

parse_lines-Accepted :
    (line : ℕ) (raws : List Text) (c : Config)
    → AllAccepted c
    → OnParsed AllAccepted (parse_lines line raws c)
unfolding parse_lines
parse_lines-Accepted line [] c h = h
parse_lines-Accepted line (raw ∷ raws) c h =
    and_then-Accepted (scan_line line raw c) (λ c'. parse_lines (suc line) raws c')
      (scan_line-Accepted line raw c h) (parse_lines-Accepted (suc line) raws)

defaults-Accepted : AllAccepted defaults
defaults-Accepted = (omega arith, omega arith, omega arith, omega arith)

-- Whatever the file holds, each of the four delays that `Load` returns is at most the largest
-- number of seconds that a Duration holds; with an error, the settings returned are the defaults.
pub load_lem :
    (file : ReadFile)
    → AllAccepted (load file).0 × (((load file).1 ≡ none) ⊎ ((load file).0 ≡ defaults))
unfolding load parse
load_lem missing = (defaults-Accepted, inl refl)
load_lem unreadable = (defaults-Accepted, inr refl)
load_lem (holds content) =
    each (parse content defaults)
      (parse_lines-Accepted 1 (split 10 content) defaults defaults-Accepted)
  where
    each :
        (o : Outcome ParseError Config)
        → OnParsed AllAccepted o
        → AllAccepted (or_defaults o).0
          × (((or_defaults o).1 ≡ none) ⊎ ((or_defaults o).0 ≡ defaults))
    each (failed e) k = (defaults-Accepted, inr refl)
    each (parsed c) k = (k, inl refl)
