-- ===== src/Chars/Find.antt =====
-- What strings.HasPrefix, strings.Contains and strings.Cut find, in terms of appended texts.
use retrosaver.Prelude.{
  ℕ, ◌≡◌, refl, ap, ◌∙◌, true, false, ◌==◌, [], ◌∷◌, ◌++◌, Option, none, some, arith, inl, inr,
  Bool-cases, All, Text,
}
use retrosaver.Chars.{has_prefix, before, cut, contains_text}

has_prefix-append : (s part : Text) → has_prefix s part ≡ true → (rest : Text) × (s ≡ part ++ rest)
unfolding has_prefix
has_prefix-append s [] h = (s, refl)
has_prefix-append [] (p ∷ ps) h = cc
has_prefix-append (c ∷ cs) (p ∷ ps) h =
    let (rest, e) = has_prefix-append cs ps (ground arith) in
    let same : c ≡ p = ground arith in (rest, ap (λ x. x ∷ cs) same ∙ ap (λ t. p ∷ t) e)

-- The part stands somewhere in the text.
abbrev pub Holds : Text → Text → Type 0
Holds part s = (first : Text) × (rest : Text) × (s ≡ first ++ (part ++ rest))

pub contains_text-Holds : (s part : Text) → contains_text s part ≡ true → Holds part s
unfolding contains_text
contains_text-Holds [] part h = let (rest, e) = has_prefix-append [] part h in ([], rest, e)
contains_text-Holds (c ∷ cs) part h = elim (Bool-cases (has_prefix (c ∷ cs) part)) [
  | inl e ↦ let (rest, k) = has_prefix-append (c ∷ cs) part e in ([], rest, k)
  | inr e ↦
      let (first, rest, k) = contains_text-Holds cs part (ground arith) in
      (c ∷ first, rest, ap (λ t. c ∷ t) k)
]

abbrev pub Without : ℕ → Text → Type 0
Without sep = All (λ c. (c == sep) ≡ false)

-- What a cut says of the text.
abbrev pub IsCut : ℕ → Text → Option (Text × Text) → Type 0
IsCut sep s none = Without sep s
IsCut sep s (some (first, rest)) = Without sep first × (s ≡ first ++ sep ∷ rest)

before-IsCut :
    (sep c : ℕ) (cs : Text) (o : Option (Text × Text))
    → (c == sep) ≡ false
    → IsCut sep cs o
    → IsCut sep (c ∷ cs) (before c o)
before-IsCut sep c cs none e h = (e, h)
before-IsCut sep c cs (some (first, rest)) e h = ((e, h.0), ap (λ t. c ∷ t) h.1)

pub cut-IsCut : (sep : ℕ) (s : Text) → IsCut sep s (cut sep s)
unfolding cut
cut-IsCut sep [] = tt
cut-IsCut sep (c ∷ cs) = elim (Bool-cases (c == sep)) [
  | inl e ↦ let same : c ≡ sep = ground arith in rw e (tt, ap (λ x. x ∷ cs) same)
  | inr e ↦ rw e (before-IsCut sep c cs (cut sep cs) e (cut-IsCut sep cs))
]

pub cut-append :
    (sep : ℕ) (first rest : Text)
    → Without sep first
    → cut sep (first ++ sep ∷ rest) ≡ some (first, rest)
unfolding cut
cut-append sep [] rest h = ground arith
cut-append sep (c ∷ first) rest (h, hs) = rw h (rw (cut-append sep first rest hs) refl)
