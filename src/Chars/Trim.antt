-- ===== src/Chars/Trim.antt =====
-- What trimming, splitting, joining and quoting leave of texts that they have nothing to take from.
use retrosaver.Prelude.{
  ℕ, ◌≡◌, ◌∙◌, refl, ap, Bool, true, false, not, ◌&&◌, List, [], ◌∷◌, ◌++◌, append_assoc, arith,
  ◌==◌, All, Text,
}
use retrosaver.Chars.{
  is_digit, is_space, trim_right, keep_unless_blank, split, join, words, begun, fields, quoted,
  quote_inner,
}

-- Trimming at the end does not reach before a text that keeps something.
pub trim_right-append :
    (s t : Text) (c : ℕ) (cs : Text) → trim_right t ≡ c ∷ cs → trim_right (s ++ t) ≡ s ++ c ∷ cs
unfolding trim_right
trim_right-append [] t c cs h = h
trim_right-append (d ∷ s) t c cs h = rw (trim_right-append s t c cs h) (kept d s)
  where
    kept : (d : ℕ) (s : Text) → keep_unless_blank d (s ++ c ∷ cs) ≡ d ∷ s ++ c ∷ cs
    kept d [] = refl
    kept d (e ∷ s) = refl

-- A text without a line feed.
abbrev pub OneLine : Text → Type 0
OneLine = All (λ c. (c == 10) ≡ false)

abbrev pub is_one_line : Text → Bool
is_one_line [] = true
is_one_line (c ∷ cs) = not (c == 10) && is_one_line cs

pub is_one_line-OneLine : (t : Text) → is_one_line t ≡ true → OneLine t
is_one_line-OneLine [] h = tt
is_one_line-OneLine (c ∷ cs) h = (ground arith, is_one_line-OneLine cs (ground arith))

pub OneLine-digits : (t : Text) → All (λ d. is_digit d ≡ true) t → OneLine t
OneLine-digits [] h = tt
OneLine-digits (c ∷ cs) h = (ground arith, OneLine-digits cs h.1)

pub split-line : (l rest : Text) → OneLine l → split 10 (l ++ 10 ∷ rest) ≡ l ∷ split 10 rest
unfolding split
split-line [] rest h = refl
split-line (c ∷ cs) rest h = rw (h.0) (rw (split-line cs rest h.1) refl)

pub split-last : (l : Text) → OneLine l → split 10 l ≡ l ∷ []
unfolding split
split-last [] h = refl
split-last (c ∷ cs) h = rw (h.0) (rw (split-last cs h.1) refl)

-- A text without white space.
abbrev pub OneWord : Text → Type 0
OneWord = All (λ c. is_space c ≡ false)

pub words-word : (w : Text) → OneWord w → words w ≡ (w, [])
unfolding words
words-word [] h = refl
words-word (c ∷ cs) h = rw (words-word cs h.1) (rw (h.0) refl)

pub words-blank :
    (w rest : Text) → OneWord w → words (w ++ 32 ∷ rest) ≡ (w, begun (words rest).0 (words rest).1)
unfolding words is_space
words-blank [] rest h = refl
words-blank (c ∷ cs) rest h = rw (words-blank cs rest h.1) (rw (h.0) refl)

-- Words that are not empty, joined by blanks, are the fields of the text.
abbrev pub IsWord : Text → Type 0
IsWord w = OneWord w × ((c : ℕ) × (cs : Text) × (w ≡ c ∷ cs))

begun_word : (w : Text) (ws : List Text) → IsWord w → begun w ws ≡ w ∷ ws
begun_word w ws (_, (c, cs, e)) = rw e refl

words-nil : words [] ≡ ([], [])
unfolding words
words-nil = refl

pub fields-join : (ws : List Text) → All IsWord ws → fields (join (32 ∷ []) ws) ≡ ws
unfolding fields join
fields-join [] h = rw words-nil refl
fields-join (w ∷ []) h = rw (words-word w h.0.0) (begun_word w [] h.0)
fields-join (w ∷ v ∷ ws) h =
    ap fields (append_assoc w (32 ∷ []) (join (32 ∷ []) (v ∷ ws)))
    ∙ ap (λ (p : Text × List Text). begun p.0 p.1) (words-blank w (join (32 ∷ []) (v ∷ ws)) h.0.0)
    ∙ begun_word w (fields (join (32 ∷ []) (v ∷ ws))) h.0
    ∙ ap (λ vs. w ∷ vs) (fields-join (v ∷ ws) h.1)

-- A text that quoting leaves as it is.
abbrev pub IsPlain : Text → Type 0
IsPlain = All (λ c. quoted c ≡ c ∷ [])

pub quote_inner-IsPlain : (t : Text) → IsPlain t → quote_inner t ≡ t
unfolding quote_inner
quote_inner-IsPlain [] h = refl
quote_inner-IsPlain (c ∷ cs) h =
    ap (λ u. quoted c ++ u) (quote_inner-IsPlain cs h.1) ∙ ap (λ u. u ++ cs) (h.0)

pub All-append {ℓ} : (P : ℕ → Type ℓ) (s t : Text) → All P s → All P t → All P (s ++ t)
All-append P [] t h k = k
All-append P (c ∷ cs) t h k = (h.0, All-append P cs t h.1 k)

pub join-All {ℓ} :
    (P : ℕ → Type ℓ) (sep : Text) (ws : List Text)
    → All P sep
    → All (λ w. All P w) ws
    → All P (join sep ws)
unfolding join
join-All P sep [] k h = tt
join-All P sep (w ∷ []) k h = h.0
join-All P sep (w ∷ v ∷ ws) k h =
    All-append P (w ++ sep) (join sep (v ∷ ws)) (All-append P w sep h.0 k)
      (join-All P sep (v ∷ ws) k h.1)
