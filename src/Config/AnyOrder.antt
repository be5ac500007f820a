-- ===== src/Config/AnyOrder.antt =====
-- internal/config/write.go: the order in which `Set` goes through its maps does not matter.
use retrosaver.Prelude.{
  ◌≡◌, inl, inr, refl, sym, ap, subst, ◌∙◌, List, [], ◌∷◌, Option, none, some, arith, Bool-cases,
  Option-cases, Text, text_eq, text_eq_iff,
}
use retrosaver.Chars.{split}
use retrosaver.Config.{defaults}
use retrosaver.Config.Parse.{Outcome, failed, parsed, ReadFile, missing, unreadable, holds, parse}
use retrosaver.Config.Write.{
  keys, UpdateError, assigned_key, assignment, also_rendered, render, lookup, apply, checked,
  set_rendered, set_config, default_file,
}
use retrosaver.Config.Reference.{new_line, edited, added, reference}
use retrosaver.Config.Placing.{apply-reference}
use retrosaver.Config.Keeps.{render-lookup}
use retrosaver.Config.Sets.{render-LineOf}

-- The same map, whatever the order of the entries.
abbrev pub SameMap : List (Text × Text) → List (Text × Text) → Type 0
SameMap r r' = (key : Text) → lookup r key ≡ lookup r' key

-- Each key is in the list once.
abbrev pub KeysOnce : List (Text × Text) → Type 0
KeysOnce [] = Unit
KeysOnce ((key, _) ∷ updates) = (lookup updates key ≡ none) × KeysOnce updates

module _ (r r' : List (Text × Text)) (h : SameMap r r') where
  new_line-same :
      (l : Text) (ls : List Text) (o : Option Text) → new_line r l ls o ≡ new_line r' l ls o
  new_line-same l ls none = refl
  new_line-same l ls (some key) = rw (h key) refl

  edited-same : (ls : List Text) → edited r ls ≡ edited r' ls
  unfolding edited
  edited-same [] = refl
  edited-same (l ∷ ls) = rw (new_line-same l ls (assigned_key l)) (rw (edited-same ls) refl)

  added-same : (ls ks : List Text) → added r ls ks ≡ added r' ls ks
  unfolding added
  added-same ls [] = refl
  added-same ls (key ∷ ks) = rw (h key) (rw (added-same ls ks) refl)

  apply-same : (content : Text) → apply content r ≡ apply content r'
  unfolding reference
  apply-same content =
      apply-reference content r
      ∙ rw (edited-same (split 10 content)) (rw (added-same (split 10 content) keys) refl)
      ∙ sym (apply-reference content r')

  set_rendered-same :
      (file : ReadFile) → set_rendered file (parsed r) ≡ set_rendered file (parsed r')
  set_rendered-same missing = ap (λ t. checked t (parse t defaults)) (apply-same default_file)
  set_rendered-same unreadable = refl
  set_rendered-same (holds content) = ap (λ t. checked t (parse t defaults)) (apply-same content)

-- A rendering has a line for the keys that are updated and for no others.
rendered-lookup :
    (u u' r r' : List (Text × Text))
    → SameMap u u'
    → render u ≡ parsed r
    → render u' ≡ parsed r'
    → SameMap r r'
rendered-lookup u u' r r' h e e' = λ key. elim (Option-cases (lookup u key)) [
  | inl nothing ↦
      render-lookup u r key e nothing ∙ sym (render-lookup u' r' key e' (sym (h key) ∙ nothing))
  | inr (v, found) ↦
      let (line, at, made) = render-LineOf u r key v e found in
      let (line', at', made') = render-LineOf u' r' key v e' (sym (h key) ∙ found) in
      let both : line ≡ line' = let equal = sym made ∙ made' in ground arith in
      at ∙ ap some both ∙ sym at'
]

-- A list whose updates can all be rendered is rendered.
also_rendered-some :
    (key line : Text) (o : Outcome UpdateError Text)
    (rest : Outcome UpdateError (List (Text × Text))) (q : List (Text × Text))
    → o ≡ parsed line
    → rest ≡ parsed q
    → also_rendered key o rest ≡ parsed ((key, line) ∷ q)
also_rendered-some key line o rest q e e' = rw e (rw e' refl)

render-some :
    (u : List (Text × Text))
    → KeysOnce u
    → ((key v : Text) → lookup u key ≡ some v → (line : Text) × (assignment key v ≡ parsed line))
    → (r : List (Text × Text)) × (render u ≡ parsed r)
unfolding render lookup
render-some [] once h = ([], refl)
render-some ((key, v) ∷ u) once h =
    let reflexive = (text_eq_iff key key).1 refl in
    let (line, made) = h key v (rw reflexive refl) in
    let (q, rest) = render-some u once.1 λ k w at. elim (Bool-cases (text_eq key k)) [
      | inl e ↦
          let none_left = subst (λ x. lookup u x ≡ none) ((text_eq_iff key k).0 e) once.0 in cc
      | inr e ↦ h k w (rw e at)
    ] in
    ((key, line) ∷ q, also_rendered-some key line (assignment key v) (render u) q made rest)

set_rendered-any :
    (file : ReadFile) (u u' : List (Text × Text)) (o : Outcome UpdateError (List (Text × Text)))
    (text : Option Text)
    → render u ≡ o
    → KeysOnce u'
    → SameMap u u'
    → set_rendered file o ≡ parsed text
    → set_rendered file (render u') ≡ parsed text
set_rendered-any missing u u' (failed e) text r k h s = cc
set_rendered-any unreadable u u' (failed e) text r k h s = cc
set_rendered-any (holds content) u u' (failed e) text r k h s = cc
set_rendered-any file u u' (parsed q) text r k h s =
    let (q', r') =
      render-some u' k
        λ key v at. let (line, _, made) = render-LineOf u q key v r (h key ∙ at) in (line, made) in
    ap (set_rendered file) r'
    ∙ sym (set_rendered-same q q' (rendered-lookup u u' q q' h r r') file)
    ∙ s

no_entry : (k v : Text) (u : List (Text × Text)) → lookup ((k, v) ∷ u) k ≡ none → ⊥
unfolding lookup
no_entry k v u h = let reflexive = (text_eq_iff k k).1 refl in let bad = rw reflexive at h in cc

nothing_there : (k : Text) → lookup {A = Text} [] k ≡ none
unfolding lookup
nothing_there k = refl

-- The order in which `Set` goes through the map of updates does not matter: what it makes of one
-- list of updates, it makes of any other list that gives each key once and the same values to the
-- same keys, byte for byte.
pub set_config-order :
    (file : ReadFile) (u u' : List (Text × Text)) (text : Option Text)
    → KeysOnce u'
    → SameMap u u'
    → set_config file u ≡ parsed text
    → set_config file u' ≡ parsed text
unfolding set_config
set_config-order file [] [] text k h e = e
set_config-order file [] ((key, v) ∷ u') text k h e =
    absurd (no_entry key v u' (sym (h key) ∙ nothing_there key))
set_config-order file ((key, v) ∷ u) [] text k h e =
    absurd (no_entry key v u (h key ∙ nothing_there key))
set_config-order file (w ∷ u) (w' ∷ u') text k h e =
    set_rendered-any file (w ∷ u) (w' ∷ u') (render (w ∷ u)) text refl k h e
