-- ===== src/Config/Sets.antt =====
-- internal/config/write.go: the settings that `Set` is given have the values that they are given.
use retrosaver.Prelude.{
  ◌⊎◌, ◌≡◌, inl, inr, refl, sym, ap, subst, ◌∙◌, false, List, [], ◌∷◌, none, some, some-injective,
  arith, Bool-cases, Text, text_eq, text_eq_iff,
}
use retrosaver.Chars.{split}
use retrosaver.Config.{Config, defaults}
use retrosaver.Config.Parse.{
  Outcome, failed, parsed, ReadFile, missing, unreadable, holds, parse, load, or_defaults,
}
use retrosaver.Config.Write.{
  UpdateError, assignment, also_rendered, render, lookup, apply, set_rendered, set_config, edit,
  default_file,
}
use retrosaver.Config.Frame.{Setting, Value, value_of, key_name}
use retrosaver.Config.Assigning.{Results, parse_lines-Results}
use retrosaver.Config.Keeps.{checked-parsed}
use retrosaver.Config.Final.{Results-last, apply-EndsIn}
use retrosaver.Config.Spelled.{spelled}
use retrosaver.Config.Assigned.{rendered-value}

-- The line that is rendered for an update.
abbrev pub LineOf : List (Text × Text) → Text → Text → Type 0
LineOf rendered key v =
    (line : Text) × (lookup rendered key ≡ some line) × (assignment key v ≡ parsed line)

also_rendered-LineOf :
    (key k v w : Text) (o : Outcome UpdateError Text)
    (rest : Outcome UpdateError (List (Text × Text))) (r : List (Text × Text))
    → assignment k w ≡ o
    → lookup ((k, w) ∷ []) key ≡ some v
      ⊎ ((text_eq k key ≡ false) × ((q : List (Text × Text)) → rest ≡ parsed q → LineOf q key v))
    → also_rendered k o rest ≡ parsed r
    → LineOf r key v
unfolding lookup
also_rendered-LineOf key k v w (failed e) rest r a h q = cc
also_rendered-LineOf key k v w (parsed l) (failed e) r a h q = cc
also_rendered-LineOf key k v w (parsed l) (parsed p) r a h q =
    let built : (k, l) ∷ p ≡ r = ground arith in
    subst (λ y. LineOf y key v) built
      (elim h [
        | inl first ↦ elim (Bool-cases (text_eq k key)) [
          | inl e ↦
              let value : w ≡ v = some-injective w v (rw e at first) in
              let same_key : k ≡ key = (text_eq_iff k key).0 e in
              (
                l,
                rw e refl,
                subst (λ y. assignment y v ≡ parsed l) same_key
                    (subst (λ y. assignment k y ≡ parsed l) value a),
              )
          | inr e ↦ let bad = rw e at first in cc
        ]
        | inr (other, later) ↦
            let (line, found, made) = later p refl in (line, rw other found, made)
      ])

pub render-LineOf :
    (updates rendered : List (Text × Text)) (key v : Text)
    → render updates ≡ parsed rendered
    → lookup updates key ≡ some v
    → LineOf rendered key v
unfolding render lookup
render-LineOf [] rendered key v h e = cc
render-LineOf ((k, w) ∷ updates) rendered key v h e = elim (Bool-cases (text_eq k key)) [
  | inl its ↦
      also_rendered-LineOf key k v w (assignment k w) (render updates) rendered refl
        (inl (rw its (rw its at e))) h
  | inr other ↦
      also_rendered-LineOf key k v w (assignment k w) (render updates) rendered refl
        (inr (other, λ q r. render-LineOf updates q key v r (rw other at e))) h
]

module _ (s : Setting) (updates : List (Text × Text)) (v text : Text) (x : Value)
    (given : lookup updates (key_name s) ≡ some v) (meant : spelled s v ≡ some x) where
  abbrev HasValue : Type 0
  HasValue = (d : Config) × (load (holds text) ≡ (d, none)) × (value_of s d ≡ x)

  edit-HasValue :
      (rendered : List (Text × Text)) (content : Text)
      → render updates ≡ parsed rendered
      → edit content rendered ≡ parsed (some text)
      → HasValue
  unfolding load parse
  edit-HasValue rendered content r h =
      let edited = apply content rendered in
      let (is_edited, (d, parses)) = checked-parsed edited text (parse edited defaults) h in
      let (line, its, made) = render-LineOf updates rendered (key_name s) v r given in
      let (before, ends) = apply-EndsIn s updates rendered r line its content in
      let results = parse_lines-Results s 1 (split 10 edited) defaults d parses in
      let (n, c, c', scanned, value) =
        Results-last s line before (value_of s defaults) (value_of s d)
          (subst (λ ls. Results s ls (value_of s defaults) (value_of s d)) ends results) in
      (
        d,
        ap (λ t. load (holds t)) is_edited ∙ ap or_defaults parses,
        sym value ∙ rendered-value s v line x made meant n c c' scanned,
      )

  set_rendered-HasValue :
      (file : ReadFile) (o : Outcome UpdateError (List (Text × Text)))
      → render updates ≡ o
      → set_rendered file o ≡ parsed (some text)
      → HasValue
  set_rendered-HasValue file (failed e) r h = cc
  set_rendered-HasValue missing (parsed rendered) r h = edit-HasValue rendered default_file r h
  set_rendered-HasValue unreadable (parsed rendered) r h = cc
  set_rendered-HasValue (holds content) (parsed rendered) r h = edit-HasValue rendered content r h

-- `Set` sets what it is given: if it writes a text, the text loads, and a setting whose key is
-- among the updates has the value that its update spells, whatever the file held before, and if
-- there was none. A delay is spelled in seconds, a mode by its word, and a list by its words.
pub set_config-sets :
    (s : Setting) (file : ReadFile) (updates : List (Text × Text)) (v text : Text) (x : Value)
    → set_config file updates ≡ parsed (some text)
    → lookup updates (key_name s) ≡ some v
    → spelled s v ≡ some x
    → (d : Config) × (load (holds text) ≡ (d, none)) × (value_of s d ≡ x)
unfolding set_config
set_config-sets s file [] v text x h l m = cc
set_config-sets s file (u ∷ us) v text x h l m =
    set_rendered-HasValue s (u ∷ us) v text x l m file (render (u ∷ us)) refl h
