-- ===== src/Chars/Numbers.antt =====
-- Decimal numbers: what `itoa` writes, `atoi` reads.
use retrosaver.Prelude.{
  ℕ, zero, suc, ◌+◌, ◌/◌, ◌%◌, ◌^◌, ◌<◌, ◌≡◌, ◌∙◌, refl, sym, ap, subst, lt→ltb, inl, inr, Bool,
  true, false, [], ◌∷◌, ◌++◌, Option, none, some, arith, Bool-cases, if-both, ltb, ◌==◌, Text,
  half_word, word, length, ◌≤◌, All,
}
use retrosaver.Chars.{
  is_space, trim_left, trim_right, trim_space, is_digit, digits, non_empty_digits, in_int64, atoi,
  to_digits, itoa,
}

-- Reading the digits of `n` and those that follow is reading what follows after `n`.
digits-to_digits :
    (fuel n : ℕ) (acc : Text) → n < 10 ^ fuel → digits 0 (to_digits fuel n acc) ≡ digits n acc
unfolding digits to_digits
digits-to_digits zero n acc h = ground arith
digits-to_digits (suc fuel) n acc h =
    if-both (λ t. digits 0 t ≡ digits n acc) (ltb n 10) ((48 + n) ∷ acc)
      (to_digits fuel (n / 10) ((48 + n % 10) ∷ acc)) (λ e. ground arith)
      (λ e. digits-to_digits fuel (n / 10) ((48 + n % 10) ∷ acc) (omega arith) ∙ ground arith)

pub digit_text :
    (fuel n : ℕ) (acc : Text)
    → All (λ c. is_digit c ≡ true) acc
    → All (λ c. is_digit c ≡ true) (to_digits fuel n acc)
unfolding to_digits
digit_text zero n acc h = h
digit_text (suc fuel) n acc h =
    if-both (All (λ c. is_digit c ≡ true)) (ltb n 10) ((48 + n) ∷ acc)
      (to_digits fuel (n / 10) ((48 + n % 10) ∷ acc)) (λ e. (ground arith, h))
      (λ e. digit_text fuel (n / 10) ((48 + n % 10) ∷ acc) (ground arith, h))

-- With fuel for its digits a number is written as a text that is not empty.
pub to_digits-NonEmpty :
    (fuel n : ℕ) (acc : Text)
    → n < 10 ^ suc fuel
    → (c : ℕ) × (cs : Text) × (to_digits (suc fuel) n acc ≡ c ∷ cs)
unfolding to_digits
to_digits-NonEmpty zero n acc h = elim (Bool-cases (ltb n 10)) [
  | inl e ↦ (48 + n, acc, rw e refl)
  | inr e ↦ absurd (ground arith)
]
to_digits-NonEmpty (suc fuel) n acc h = elim (Bool-cases (ltb n 10)) [
  | inl e ↦ (48 + n, acc, rw e refl)
  | inr e ↦
      let (c, cs, eq) = to_digits-NonEmpty fuel (n / 10) ((48 + n % 10) ∷ acc) (omega arith) in
      (c, cs, rw e eq)
]

-- A text of digits reads as the number that its digits spell.
atoi-digits :
    (c : ℕ) (cs : Text) (n : ℕ)
    → is_digit c ≡ true
    → digits 0 (c ∷ cs) ≡ some n
    → n < half_word
    → atoi (c ∷ cs) ≡ some n
unfolding atoi
atoi-digits c cs n d e h =
    let not_minus : (c == 45) ≡ false = ground arith in
    let not_plus : (c == 43) ≡ false = ground arith in
    let fits = lt→ltb n half_word h in rw not_minus (rw not_plus (rw e (rw fits refl)))

-- `atoi` reads back what `itoa` writes.
pub atoi-itoa : (n : ℕ) → n < half_word → atoi (itoa n) ≡ some n
unfolding digits
atoi-itoa n h =
    let (c, cs, eq) = to_digits-NonEmpty 18 n [] (omega arith) in
    let all = subst (All (λ d. is_digit d ≡ true)) eq (digit_text 19 n [] tt) in
    rw eq
      (atoi-digits c cs n all.0 (ap (digits 0) (sym eq) ∙ digits-to_digits 19 n [] (omega arith)) h)

pub not_space : (c : ℕ) → is_digit c ≡ true → is_space c ≡ false
unfolding is_space
not_space c h = ground arith

pub trim_left-digits : (c : ℕ) (cs : Text) → is_digit c ≡ true → trim_left (c ∷ cs) ≡ c ∷ cs
unfolding trim_left
trim_left-digits c cs h = rw (not_space c h) refl

pub trim_right-digits : (s : Text) → All (λ c. is_digit c ≡ true) s → trim_right (s ++ 10 ∷ []) ≡ s
unfolding trim_right is_space
trim_right-digits [] h = refl
trim_right-digits (c ∷ []) h = rw (not_space c h.0) refl
trim_right-digits (c ∷ d ∷ ds) h = rw (trim_right-digits (d ∷ ds) h.1) refl

-- The line that `itoa` and a line feed make is trimmed to the number.
pub trim_space-itoa : (n : ℕ) → n < half_word → trim_space (itoa n ++ 10 ∷ []) ≡ itoa n
unfolding trim_space
trim_space-itoa n h =
    let (c, cs, eq) = to_digits-NonEmpty 18 n [] (omega arith) in
    let all = subst (All (λ d. is_digit d ≡ true)) eq (digit_text 19 n [] tt) in
    rw eq (rw (trim_left-digits c (cs ++ 10 ∷ []) all.0) (trim_right-digits (c ∷ cs) all))

in_int64-bound : (negative : Bool) (o : Option ℕ) (n : ℕ) → in_int64 negative o ≡ some n → n < word
in_int64-bound negative none n h = cc
in_int64-bound false (some k) n h = ground arith
in_int64-bound true (some k) n h = ground arith

-- `atoi` gives the pattern of an int64.
pub atoi-bound : (s : Text) (n : ℕ) → atoi s ≡ some n → n < word
unfolding atoi
atoi-bound [] n h = cc
atoi-bound (c ∷ cs) n h = ground (
  arith,
  in_int64-bound true (non_empty_digits cs) n,
  in_int64-bound false (non_empty_digits cs) n,
  in_int64-bound false (non_empty_digits (c ∷ cs)) n,
)

-- The digits of a number, as a text with a first digit.
abbrev pub Digits : Text → Type 0
Digits t = (c : ℕ) × (cs : Text) × (t ≡ c ∷ cs) × All (λ d. is_digit d ≡ true) (c ∷ cs)

pub itoa-Digits : (n : ℕ) → n < half_word → Digits (itoa n)
itoa-Digits n h =
    let (c, cs, eq) = to_digits-NonEmpty 18 n [] (omega arith) in
    (c, cs, eq, subst (All (λ d. is_digit d ≡ true)) eq (digit_text 19 n [] tt))

pub trim_right-only_digits : (s : Text) → All (λ c. is_digit c ≡ true) s → trim_right s ≡ s
unfolding trim_right is_space
trim_right-only_digits [] h = refl
trim_right-only_digits (c ∷ []) h = rw (not_space c h.0) refl
trim_right-only_digits (c ∷ d ∷ ds) h = rw (trim_right-only_digits (d ∷ ds) h.1) refl

pub trim_space-Digits : (t : Text) → Digits t → trim_space t ≡ t
unfolding trim_space
trim_space-Digits t (c, cs, eq, all) =
    rw eq (rw (trim_left-digits c cs all.0) (trim_right-only_digits (c ∷ cs) all))

pub length-to_digits : (fuel n : ℕ) (acc : Text) → length (to_digits fuel n acc) ≤ fuel + length acc
unfolding to_digits
length-to_digits zero n acc = omega arith
length-to_digits (suc fuel) n acc =
    if-both (λ (t : Text). length t ≤ suc fuel + length acc) (ltb n 10) ((48 + n) ∷ acc)
      (to_digits fuel (n / 10) ((48 + n % 10) ∷ acc)) (λ e. omega arith)
      (λ e. omega (arith, length-to_digits fuel (n / 10) ((48 + n % 10) ∷ acc)))
