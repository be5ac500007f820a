-- ===== src/Config/Pieces.antt =====
-- internal/config/write.go: the lines of an edited file that assign a key, over the splitting and
-- joining of `apply`.
use retrosaver.Prelude.{
  ℕ, ◌≡◌, ◌≢◌, ◌⊎◌, inl, inr, refl, sym, ap, ◌∙◌, Bool, true, false, not, ◌&&◌, List, [], ◌∷◌, ◌++◌,
  append-nil, append_assoc, arith, Bool-cases, if-both, if◌then◌else◌, All, Text, text_eq,
  text_eq_iff, ◌==◌, ==_iff,
}
use retrosaver.Chars.{split, join, onto_first, trim_space, trim_left, trim_right}
use retrosaver.Config.Write.{assigned_key, ends_line, append_lines}
use retrosaver.Config.Frame.{Setting}
use retrosaver.Config.Assigning.{assigns, assigning}

onto_first-append :
    (c : ℕ) (xs ys : List Text) → xs ≢ [] → onto_first c (xs ++ ys) ≡ onto_first c xs ++ ys
onto_first-append c [] ys h = absurd (h refl)
onto_first-append c (x ∷ xs) ys h = refl

onto_first-some : (c : ℕ) (xs : List Text) → onto_first c xs ≢ []
onto_first-some c [] = λ e. cc
onto_first-some c (x ∷ xs) = λ e. cc

split-some : (t : Text) → split 10 t ≢ []
unfolding split
split-some [] = λ e. cc
split-some (c ∷ cs) =
    if-both (λ xs. xs ≢ []) (c == 10) ([] ∷ split 10 cs) (onto_first c (split 10 cs)) (λ _ e. cc)
      λ _. onto_first-some c (split 10 cs)

-- A line feed ends a line, whatever comes before and after it.
split-append : (a b : Text) → split 10 (a ++ 10 ∷ b) ≡ split 10 a ++ split 10 b
unfolding split
split-append [] b = refl
split-append (c ∷ cs) b = elim (Bool-cases (c == 10)) [
  | inl e ↦ rw e (ap (λ xs. [] ∷ xs) (split-append cs b))
  | inr e ↦ rw e (
      ap (onto_first c) (split-append cs b)
      ∙ onto_first-append c (split 10 cs) (split 10 b) (split-some cs))
]

assigning-append :
    (s : Setting) (xs ys : List Text) → assigning s (xs ++ ys) ≡ assigning s xs ++ assigning s ys
unfolding assigning
assigning-append s [] ys = refl
assigning-append s (x ∷ xs) ys = elim (Bool-cases (assigns s x)) [
  | inl e ↦ rw e (ap (λ zs. x ∷ zs) (assigning-append s xs ys))
  | inr e ↦ rw e (assigning-append s xs ys)
]

-- The lines of a text that assign a setting's key.
abbrev pub pieces : Setting → Text → List Text
pieces s t = assigning s (split 10 t)

pieces-append : (s : Setting) (a b : Text) → pieces s (a ++ 10 ∷ b) ≡ pieces s a ++ pieces s b
pieces-append s a b =
    ap (assigning s) (split-append a b) ∙ assigning-append s (split 10 a) (split 10 b)

pieces-nil : (s : Setting) → pieces s [] ≡ []
unfolding split assigning assigned_key trim_space trim_left trim_right text_eq
pieces-nil s = refl

-- Each of the lines of a list, by itself.
unfoldable pub pieces_of : Setting → List Text → List Text
pieces_of s [] = []
pieces_of s (l ∷ ls) = pieces s l ++ pieces_of s ls

pub pieces-join : (s : Setting) (ls : List Text) → pieces s (join (10 ∷ []) ls) ≡ pieces_of s ls
unfolding join pieces_of
pieces-join s [] = pieces-nil s
pieces-join s (l ∷ []) = sym (append-nil (pieces s l))
pieces-join s (l ∷ m ∷ ls) =
    ap (pieces s) (append_assoc l (10 ∷ []) (join (10 ∷ []) (m ∷ ls)))
    ∙ pieces-append s l (join (10 ∷ []) (m ∷ ls))
    ∙ ap (λ xs. pieces s l ++ xs) (pieces-join s (m ∷ ls))

-- A line that leaves a setting alone, whatever it is split into.
abbrev pub Free : Setting → Text → Type 0
Free s l = pieces s l ≡ []

pub pieces_of-Free : (s : Setting) (ls : List Text) → All (Free s) ls → pieces_of s ls ≡ []
unfolding pieces_of
pieces_of-Free s [] h = refl
pieces_of-Free s (l ∷ ls) h = rw (h.0) (pieces_of-Free s ls h.1)

-- A text that ends in a line feed is a text before it.
before_end : (t : Text) → ends_line t ≡ true → (a : Text) × (t ≡ a ++ 10 ∷ [])
unfolding ends_line
before_end [] h = cc
before_end (c ∷ []) h = ([], let feed : c ≡ 10 = (==_iff c 10).0 h in ap (λ x. x ∷ []) feed)
before_end (c ∷ d ∷ ds) h = let (a, e) = before_end (d ∷ ds) h in (c ∷ a, ap (λ t. c ∷ t) e)

pieces-feed : (s : Setting) (t : Text) → pieces s (t ++ 10 ∷ []) ≡ pieces s t
pieces-feed s t =
    pieces-append s t [] ∙ ap (λ xs. pieces s t ++ xs) (pieces-nil s) ∙ append-nil (pieces s t)

-- Lines after a text that is empty, or that ends a line.
pieces-after :
    (s : Setting) (out rest : Text)
    → (out ≡ []) ⊎ (ends_line out ≡ true)
    → pieces s (out ++ rest) ≡ pieces s out ++ pieces s rest
pieces-after s out rest (inl e) =
    ap (λ t. pieces s (t ++ rest)) e
    ∙ sym (ap (λ xs. xs ++ pieces s rest) (ap (pieces s) e ∙ pieces-nil s))
pieces-after s out rest (inr e) =
    let (a, same) = before_end out e in
    ap (λ t. pieces s (t ++ rest)) same
    ∙ ap (pieces s) (append_assoc a (10 ∷ []) rest)
    ∙ pieces-append s a rest
    ∙ ap (λ xs. xs ++ pieces s rest) (sym (pieces-feed s a) ∙ ap (pieces s) (sym same))

no_feed_needed :
    (out : Text)
    → (not (text_eq out []) && not (ends_line out)) ≡ false
    → (out ≡ []) ⊎ (ends_line out ≡ true)
no_feed_needed out h = ground (arith, text_eq_iff out [])

-- The lines that `apply` appends come after those of the text, whether or not it ends a line.
pub pieces-append_lines :
    (s : Setting) (out : Text) (ls : List Text)
    → pieces s (append_lines out ls) ≡ pieces s out ++ pieces_of s ls
unfolding append_lines pieces_of
pieces-append_lines s out [] = sym (append-nil (pieces s out))
pieces-append_lines s out (l ∷ ls) =
    let lines = join (10 ∷ []) (l ∷ ls) in
    let needed = not (text_eq out []) && not (ends_line out) in
    pieces-feed s ((if needed then out ++ 10 ∷ [] else out) ++ lines)
    ∙ elim (Bool-cases needed) [
      | inl e ↦
          ap (λ (b : Bool). pieces s ((if b then out ++ 10 ∷ [] else out) ++ lines)) e
          ∙ ap (pieces s) (append_assoc out (10 ∷ []) lines)
          ∙ pieces-append s out lines
      | inr e ↦
          ap (λ (b : Bool). pieces s ((if b then out ++ 10 ∷ [] else out) ++ lines)) e
          ∙ pieces-after s out lines (no_feed_needed out e)
    ]
    ∙ ap (λ xs. pieces s out ++ xs) (pieces-join s (l ∷ ls))
