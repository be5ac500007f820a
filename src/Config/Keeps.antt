-- ===== src/Config/Keeps.antt =====
-- internal/config/write.go: `Set` changes the settings that it is given, and no others.
use retrosaver.Prelude.{
  ℕ, zero, suc, ◌≡◌, inl, inr, refl, sym, ap, subst, ◌∙◌, false, List, [], ◌∷◌, ◌++◌, append-nil,
  Option, none, some, some-injective, arith, Bool-cases, get_elem?, length, All, Text, text_eq,
  text_eq_iff, ◌==◌,
}
use retrosaver.Chars.{split, join, onto_first}
use retrosaver.Chars.Trim.{OneLine, split-last}
use retrosaver.Config.{Config, defaults}
use retrosaver.Config.Parse.{
  Outcome, failed, parsed, ParseError, parse, holds, LoadError, load, or_defaults,
}
use retrosaver.Config.Write.{
  keys, UpdateError, assignment, assigned_key, also_rendered, render, lookup, last_lines,
  replace_lines, needed, missing_lines, apply, checked, set_rendered, set_config,
}
use retrosaver.Config.Edits.{Untouched, last_lines-keeps}
use retrosaver.Config.Frame.{Setting, value_of, key_name}
use retrosaver.Config.Assigning.{is_key, is_key→some, assigns, assigning, parse_lines-assigning}
use retrosaver.Config.Pieces.{
  pieces_of-Free, pieces, pieces_of, pieces-join, Free, pieces-append_lines,
}
use retrosaver.Config.Rendered.{
  render-Assigns, OldOrRendered, replace_lines-either, length-replace_lines,
}

pub split-OneLine : (t : Text) → All OneLine (split 10 t)
unfolding split
split-OneLine [] = (tt, tt)
split-OneLine (c ∷ cs) = elim (Bool-cases (c == 10)) [
  | inl e ↦ rw e (tt, split-OneLine cs)
  | inr e ↦ rw e (onto (split 10 cs) (split-OneLine cs) e)
]
  where
    onto : (xs : List Text) → All OneLine xs → (c == 10) ≡ false → All OneLine (onto_first c xs)
    onto [] h e = ((e, tt), tt)
    onto (x ∷ xs) h e = ((e, h.0), h.1)

All-get_elem? :
    (ls : List Text) (i : ℕ) (l : Text) → All OneLine ls → get_elem? ls i ≡ some l → OneLine l
All-get_elem? [] i l h e = cc
All-get_elem? (x ∷ xs) zero l h e = subst OneLine (some-injective x l e) h.0
All-get_elem? (x ∷ xs) (suc i) l h e = All-get_elem? xs i l h.1 e

module _ (s : Setting) where
  pub pieces-line : (l : Text) → OneLine l → pieces s l ≡ assigning s (l ∷ [])
  pieces-line l h = ap (assigning s) (split-last l h)

  assigning-cons :
      (l : Text) (ls : List Text) → assigning s (l ∷ ls) ≡ assigning s (l ∷ []) ++ assigning s ls
  unfolding assigning
  assigning-cons l ls = elim (Bool-cases (assigns s l)) [ inl e ↦ rw e refl | inr e ↦ rw e refl ]

  pieces_of-lines : (ls : List Text) → All OneLine ls → pieces_of s ls ≡ assigning s ls
  unfolding pieces_of assigning
  pieces_of-lines [] h = refl
  pieces_of-lines (l ∷ ls) h =
      ap (λ xs. xs ++ pieces_of s ls) (pieces-line l h.0)
      ∙ ap (λ xs. assigning s (l ∷ []) ++ xs) (pieces_of-lines ls h.1)
      ∙ sym (assigning-cons l ls)

  pub Free-line : (l : Text) → OneLine l → assigns s l ≡ false → Free s l
  unfolding assigning
  Free-line l h e = pieces-line l h ∙ rw e refl

  pieces_of-pointwise :
      (ls es : List Text)
      → length es ≡ length ls
      → ((i : ℕ) (l e : Text)
          → get_elem? ls i ≡ some l
          → get_elem? es i ≡ some e
          → pieces s e ≡ pieces s l)
      → pieces_of s es ≡ pieces_of s ls
  unfolding pieces_of
  pieces_of-pointwise [] [] n h = refl
  pieces_of-pointwise [] (e ∷ es) n h = absurd (omega arith)
  pieces_of-pointwise (l ∷ ls) [] n h = absurd (omega arith)
  pieces_of-pointwise (l ∷ ls) (e ∷ es) n h =
      ap (λ xs. xs ++ pieces_of s es) (h 0 l e refl refl)
      ∙ ap (λ xs. pieces s l ++ xs) (pieces_of-pointwise ls es (omega arith) (λ i. h (suc i)))

  module _ (updates rendered : List (Text × Text)) (ok : render updates ≡ parsed rendered)
      (not_set : lookup rendered (key_name s) ≡ none) where
    other_key :
        (key line : Text) → lookup rendered key ≡ some line → is_key (key_name s) (some key) ≡ false
    other_key key line h = elim (Bool-cases (text_eq key (key_name s))) [
      | inl its ↦
          let here =
            subst (λ k. lookup rendered k ≡ some line) ((text_eq_iff key (key_name s)).0 its) h in
          cc
      | inr other ↦ other
    ]

    rendered-Free : (key line : Text) → lookup rendered key ≡ some line → Free s line
    rendered-Free key line h =
        let (its, one_line) = render-Assigns updates rendered ok key line h in
        Free-line line one_line (ap (is_key (key_name s)) its ∙ other_key key line h)

    needed-Free :
        (i : Option ℕ) (o : Option Text) (rest : List Text)
        → ((line : Text) → o ≡ some line → Free s line)
        → All (Free s) rest
        → All (Free s) (needed i o rest)
    needed-Free none (some line) rest h k = (h line refl, k)
    needed-Free none none rest h k = k
    needed-Free (some i) o rest h k = k

    missing_lines-Free :
        (last : List (Text × ℕ)) (ks : List Text) → All (Free s) (missing_lines rendered last ks)
    unfolding missing_lines
    missing_lines-Free last [] = tt
    missing_lines-Free last (key ∷ ks) =
        needed-Free (lookup last key) (lookup rendered key) (missing_lines rendered last ks)
          (rendered-Free key) (missing_lines-Free last ks)

    -- A line of the edited file assigns the setting's key just as the line that was there.
    kept :
        (content : Text) (i : ℕ) (l e : Text)
        → get_elem? (split 10 content) i ≡ some l
        → get_elem?
            (replace_lines rendered
              (last_lines rendered 0 (split 10 content) [])
              rendered
              (split 10 content))
            i
          ≡ some e
        → pieces s e ≡ pieces s l
    kept content i l e at_l at_e =
        let ls = split 10 content in
        let last = last_lines rendered 0 ls [] in
        elim (Bool-cases (assigns s l)) [
          | inl its ↦
              let key_is = is_key→some (key_name s) (assigned_key l) its in
              let untouched : Untouched rendered l = λ key k.
                subst (λ x. lookup rendered x ≡ none)
                  (some-injective (key_name s) key (sym key_is ∙ k)) not_set in
              let same_line = last_lines-keeps rendered ls i l at_l untouched in
              ap (pieces s) (some-injective e l (sym at_e ∙ same_line))
          | inr other ↦
              let free = Free-line l (All-get_elem? ls i l (split-OneLine content) at_l) other in
              let old : (d : Text) → get_elem? ls i ≡ some d → OldOrRendered rendered l d =
                λ d at_d. inl (some-injective d l (sym at_d ∙ at_l)) in
              elim (replace_lines-either rendered rendered last l i ls old e at_e) [
                | inl equal ↦ ap (pieces s) equal
                | inr (key, found) ↦ rendered-Free key e found ∙ sym free
              ]
        ]

    pieces-apply : (content : Text) → pieces s (apply content rendered) ≡ pieces s content
    unfolding apply
    pieces-apply content =
        let ls = split 10 content in
        let last = last_lines rendered 0 ls [] in
        let es = replace_lines rendered last rendered ls in
        pieces-append_lines s (join (10 ∷ []) es) (missing_lines rendered last keys)
        ∙ ap (λ xs. pieces s (join (10 ∷ []) es) ++ xs)
            (pieces_of-Free s (missing_lines rendered last keys) (missing_lines-Free last keys))
        ∙ append-nil (pieces s (join (10 ∷ []) es))
        ∙ pieces-join s es
        ∙ pieces_of-pointwise ls es (length-replace_lines rendered rendered last ls) (kept content)
        ∙ pieces_of-lines ls (split-OneLine content)

-- A key that is given no value is not rendered.
also_rendered-lookup :
    (key k : Text) (o : Outcome UpdateError Text) (rest : Outcome UpdateError (List (Text × Text)))
    (r : List (Text × Text))
    → text_eq k key ≡ false
    → ((q : List (Text × Text)) → rest ≡ parsed q → lookup q key ≡ none)
    → also_rendered k o rest ≡ parsed r
    → lookup r key ≡ none
unfolding lookup
also_rendered-lookup key k (failed e) rest r h q a = cc
also_rendered-lookup key k (parsed l) (failed e) r h q a = cc
also_rendered-lookup key k (parsed l) (parsed p) r h q a =
    let built : (k, l) ∷ p ≡ r = ground arith in
    subst (λ x. lookup x key ≡ none) built (rw h (q p refl))

pub render-lookup :
    (updates rendered : List (Text × Text)) (key : Text)
    → render updates ≡ parsed rendered
    → lookup updates key ≡ none
    → lookup rendered key ≡ none
unfolding render lookup
render-lookup [] rendered key h e =
    let empty : [] ≡ rendered = ground arith in subst (λ x. lookup x key ≡ none) empty refl
render-lookup ((k, v) ∷ updates) rendered key h e = elim (Bool-cases (text_eq k key)) [
  | inl its ↦ let found = rw its at e in cc
  | inr other ↦
      also_rendered-lookup key k (assignment k v) (render updates) rendered other
        (λ q r. render-lookup updates q key r (rw other at e)) h
]

parsed-load :
    (o : Outcome ParseError Config) (c : Config) → or_defaults o ≡ (c, none) → o ≡ parsed c
parsed-load (failed e) c h = let bad = ap (λ (r : Config × Option LoadError). r.1) h in cc
parsed-load (parsed d) c h = ap (λ (r : Config × Option LoadError). parsed r.0) h

pub checked-parsed :
    (edited text : Text) (o : Outcome ParseError Config)
    → checked edited o ≡ parsed (some text)
    → (text ≡ edited) × ((d : Config) × (o ≡ parsed d))
checked-parsed edited text (failed e) h = cc
checked-parsed edited text (parsed d) h = (ground arith, (d, refl))

set_rendered-keeps :
    (s : Setting) (updates : List (Text × Text)) (o : Outcome UpdateError (List (Text × Text)))
    (content text : Text) (c : Config)
    → render updates ≡ o
    → lookup updates (key_name s) ≡ none
    → parse content defaults ≡ parsed c
    → set_rendered (holds content) o ≡ parsed (some text)
    → (d : Config) × (load (holds text) ≡ (d, none)) × (value_of s d ≡ value_of s c)
unfolding load parse
set_rendered-keeps s updates (failed e) content text c r n p h = cc
set_rendered-keeps s updates (parsed rendered) content text c r n p h =
    let edited = apply content rendered in
    let (is_edited, (d, parses)) = checked-parsed edited text (parse edited defaults) h in
    let same_pieces =
      pieces-apply s updates rendered r (render-lookup updates rendered (key_name s) r n) content in
    (
      d,
      ap (λ t. load (holds t)) is_edited ∙ ap or_defaults parses,
      parse_lines-assigning s 1 1 (split 10 edited) (split 10 content) d c same_pieces defaults
          parses p,
    )

-- `Set` keeps what it is not given: if a file loads and `Set` writes a text for it, the text loads,
-- and every setting whose key is not among the updates is as it was, whatever the file's other
-- lines are.
pub set_config-keeps :
    (s : Setting) (updates : List (Text × Text)) (content text : Text) (c : Config)
    → load (holds content) ≡ (c, none)
    → set_config (holds content) updates ≡ parsed (some text)
    → lookup updates (key_name s) ≡ none
    → (d : Config) × (load (holds text) ≡ (d, none)) × (value_of s d ≡ value_of s c)
unfolding load set_config
set_config-keeps s [] content text c e h n = cc
set_config-keeps s (u ∷ us) content text c e h n =
    set_rendered-keeps s (u ∷ us) (render (u ∷ us)) content text c refl n
      (parsed-load (parse content defaults) c e) h
