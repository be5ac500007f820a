-- ===== src/Config/Final.antt =====
-- internal/config/write.go: the line that `Set` renders is the last of the edited file to assign
-- its key.
use retrosaver.Prelude.{
  ◌≡◌, inl, inr, refl, sym, ap, subst, ◌∙◌, true, false, List, [], ◌∷◌, ◌++◌, append-nil,
  append_assoc, Option, none, some, arith, Bool-cases, if-both, if◌then◌else◌, All, Text, text_eq,
  text_eq_iff, contains,
}
use retrosaver.Chars.{split, join}
use retrosaver.Chars.Trim.{OneLine}
use retrosaver.Config.Parse.{parsed}
use retrosaver.Config.Write.{keys, assigned_key, render, lookup, needed, apply}
use retrosaver.Config.Frame.{
  Setting, Value, key_name, saver_delay, lock_after, blank_after, cycle_after, monitors, exclude,
  include,
}
use retrosaver.Config.Assigning.{is_key, is_key→some, assigns, assigning, Makes, Results}
use retrosaver.Config.Pieces.{pieces, pieces_of, pieces-join, Free, pieces-append_lines}
use retrosaver.Config.Rendered.{render-Assigns}
use retrosaver.Config.Keeps.{split-OneLine, pieces-line, Free-line}
use retrosaver.Config.Reference.{assigned_in, or_line, new_line, edited, added, reference}
use retrosaver.Config.Placing.{apply-reference}

abbrev pub EndsIn : Text → List Text → Type 0
EndsIn line xs = (ys : List Text) × (xs ≡ ys ++ line ∷ [])

EndsIn-after : (line : Text) (xs ys : List Text) → EndsIn line ys → EndsIn line (xs ++ ys)
EndsIn-after line xs ys (zs, e) =
    (xs ++ zs, ap (λ t. xs ++ t) e ∙ sym (append_assoc xs zs (line ∷ [])))

EndsIn-before :
    (line : Text) (xs ys : List Text) → EndsIn line xs → ys ≡ [] → EndsIn line (xs ++ ys)
EndsIn-before line xs ys h e = subst (EndsIn line) (sym (ap (λ t. xs ++ t) e ∙ append-nil xs)) h

-- The lines' results depend on the last of them.
pub Results-last :
    (s : Setting) (line : Text) (ys : List Text) (v w : Value)
    → Results s (ys ++ line ∷ []) v w
    → Makes s line w
unfolding Results
Results-last s line [] v w (u, _, m, e) = subst (Makes s line) (sym e) m
Results-last s line (y ∷ ys) v w (u, _, _, rest) = Results-last s line ys u w rest

-- The editor knows the key of every setting.
pub known_key : (s : Setting) → contains keys (key_name s) ≡ true
unfolding contains text_eq
known_key saver_delay = refl
known_key lock_after = refl
known_key blank_after = refl
known_key cycle_after = refl
known_key monitors = refl
known_key exclude = refl
known_key include = refl

module _ (s : Setting) (updates rendered : List (Text × Text))
    (ok : render updates ≡ parsed rendered) (line : Text)
    (its : lookup rendered (key_name s) ≡ some line) where
  piece : pieces s line ≡ line ∷ []
  unfolding assigning
  piece =
      let (assigned, one_line) = render-Assigns updates rendered ok (key_name s) line its in
      let here : assigns s line ≡ true =
        ap (is_key (key_name s)) assigned ∙ (text_eq_iff (key_name s) (key_name s)).1 refl in
      pieces-line s line one_line ∙ rw here refl

  -- The line rendered for another key.
  other-Free :
      (key other : Text)
      → text_eq key (key_name s) ≡ false
      → lookup rendered key ≡ some other
      → Free s other
  other-Free key other n e =
      let (assigned, one_line) = render-Assigns updates rendered ok key other e in
      Free-line s other one_line (ap (is_key (key_name s)) assigned ∙ n)

  or_line-Free :
      (l key : Text) (o : Option Text)
      → text_eq key (key_name s) ≡ false
      → lookup rendered key ≡ o
      → Free s l
      → Free s (or_line l o)
  or_line-Free l key none n e h = h
  or_line-Free l key (some other) n e h = other-Free key other n e

  new_line-Free :
      (l : Text) (ls : List Text) (o : Option Text)
      → OneLine l
      → assigned_key l ≡ o
      → is_key (key_name s) o ≡ false
      → Free s (new_line rendered l ls o)
  new_line-Free l ls none h e n = Free-line s l h (ap (is_key (key_name s)) e)
  new_line-Free l ls (some key) h e n =
      let free = Free-line s l h (ap (is_key (key_name s)) e ∙ n) in
      if-both (Free s) (assigned_in key ls) l (or_line l (lookup rendered key)) (λ _. free)
        λ _. or_line-Free l key (lookup rendered key) n refl free

  -- No line of a file that does not assign the key assigns it after the edit.
  edited-Free :
      (ls : List Text)
      → All OneLine ls
      → assigned_in (key_name s) ls ≡ false
      → pieces_of s (edited rendered ls) ≡ []
  unfolding edited pieces_of assigned_in
  edited-Free [] h n = refl
  edited-Free (l ∷ ls) h n = elim (Bool-cases (is_key (key_name s) (assigned_key l))) [
    | inl here ↦ let found = rw here at n in cc
    | inr other ↦
        rw (new_line-Free l ls (assigned_key l) h.0 refl other) (edited-Free ls h.1 (rw other at n))
  ]

  edited-EndsIn :
      (ls : List Text)
      → All OneLine ls
      → assigned_in (key_name s) ls ≡ true
      → EndsIn line (pieces_of s (edited rendered ls))
  unfolding edited pieces_of assigned_in
  edited-EndsIn [] h n = cc
  edited-EndsIn (l ∷ ls) h n = elim (Bool-cases (assigned_in (key_name s) ls)) [
    | inl more ↦
        EndsIn-after line (pieces s (new_line rendered l ls (assigned_key l)))
          (pieces_of s (edited rendered ls)) (edited-EndsIn ls h.1 more)
    | inr last ↦
        let here : is_key (key_name s) (assigned_key l) ≡ true = ground arith in
        let key_is = is_key→some (key_name s) (assigned_key l) here in
        let replaced : new_line rendered l ls (assigned_key l) ≡ line =
          rw key_is (rw last (rw its refl)) in
        (
          [],
          ap (λ x. pieces s x ++ pieces_of s (edited rendered ls)) replaced
              ∙ ap (λ xs. xs ++ pieces_of s (edited rendered ls)) piece
              ∙ ap (λ xs. (line ∷ []) ++ xs) (edited-Free ls h.1 last),
        )
  ]

  needed-Free :
      (key : Text) (o : Option Text) (rest : List Text)
      → text_eq key (key_name s) ≡ false
      → lookup rendered key ≡ o
      → pieces_of s rest ≡ []
      → pieces_of s (needed none o rest) ≡ []
  unfolding pieces_of
  needed-Free key none rest n e h = h
  needed-Free key (some other) rest n e h = rw (other-Free key other n e) h

  -- The key is not added to a file that assigns it.
  added-Free :
      (ls ks : List Text)
      → assigned_in (key_name s) ls ≡ true
      → pieces_of s (added rendered ls ks) ≡ []
  unfolding added pieces_of
  added-Free ls [] h = refl
  added-Free ls (key ∷ ks) h =
      if-both (λ xs. pieces_of s xs ≡ []) (assigned_in key ls) (added rendered ls ks)
        (needed none (lookup rendered key) (added rendered ls ks)) (λ _. added-Free ls ks h)
        λ nowhere. elim (Bool-cases (text_eq key (key_name s))) [
          | inl same_key ↦
              let there =
                ap (λ k. assigned_in k ls) ((text_eq_iff key (key_name s)).0 same_key) ∙ h in
              cc
          | inr other ↦
              needed-Free key (lookup rendered key) (added rendered ls ks) other refl
                (added-Free ls ks h)
        ]

  -- The line is the one that is added for the setting's key.
  line_added :
      (rest : List Text)
      → pieces_of s (needed none (some line) rest) ≡ (line ∷ []) ++ pieces_of s rest
  unfolding pieces_of
  line_added rest = ap (λ xs. xs ++ pieces_of s rest) piece

  added-none :
      (ls ks : List Text)
      → contains ks (key_name s) ≡ false
      → pieces_of s (added rendered ls ks) ≡ []
  unfolding added pieces_of contains
  added-none ls [] h = refl
  added-none ls (key ∷ ks) h =
      let other : text_eq key (key_name s) ≡ false = ground arith in
      let none_later = added-none ls ks (ground arith) in
      if-both (λ xs. pieces_of s xs ≡ []) (assigned_in key ls) (added rendered ls ks)
        (needed none (lookup rendered key) (added rendered ls ks)) (λ _. none_later)
        λ _. needed-Free key (lookup rendered key) (added rendered ls ks) other refl none_later

  needed-EndsIn :
      (o : Option Text) (rest : List Text)
      → EndsIn line (pieces_of s rest)
      → EndsIn line (pieces_of s (needed none o rest))
  unfolding pieces_of
  needed-EndsIn none rest h = h
  needed-EndsIn (some other) rest h = EndsIn-after line (pieces s other) (pieces_of s rest) h

  added-EndsIn :
      (ls ks : List Text)
      → assigned_in (key_name s) ls ≡ false
      → contains ks (key_name s) ≡ true
      → EndsIn line (pieces_of s (added rendered ls ks))
  unfolding added contains
  added-EndsIn ls [] n h = cc
  added-EndsIn ls (key ∷ ks) n h =
      let rest = added rendered ls ks in
      elim (Bool-cases (contains ks (key_name s))) [
        | inl more ↦
            let in_rest = added-EndsIn ls ks n more in
            if-both (λ xs. EndsIn line (pieces_of s xs)) (assigned_in key ls) rest
              (needed none (lookup rendered key) rest) (λ _. in_rest)
              λ _. needed-EndsIn (lookup rendered key) rest in_rest
        | inr last ↦
            let same_key : key ≡ key_name s = (text_eq_iff key (key_name s)).0 (ground arith) in
            subst
              (λ k. EndsIn line (
                pieces_of s
                  (if assigned_in k ls then rest else needed none (lookup rendered k) rest)))
              (sym same_key)
              (rw n (
                rw its
                  ([], line_added rest ∙ ap (λ xs. (line ∷ []) ++ xs) (added-none ls ks last))))
      ]

  -- Of the lines of the edited file that assign the setting's key, the last is the one that is
  -- rendered for it.
  pub apply-EndsIn : (content : Text) → EndsIn line (pieces s (apply content rendered))
  unfolding reference
  apply-EndsIn content =
      let ls = split 10 content in
      let out = join (10 ∷ []) (edited rendered ls) in
      let ours = added rendered ls keys in
      subst (EndsIn line)
        (sym (
          ap (pieces s) (apply-reference content rendered)
          ∙ pieces-append_lines s out ours
          ∙ ap (λ xs. xs ++ pieces_of s ours) (pieces-join s (edited rendered ls))))
        (elim (Bool-cases (assigned_in (key_name s) ls)) [
          | inl there ↦
              EndsIn-before line (pieces_of s (edited rendered ls)) (pieces_of s ours)
                (edited-EndsIn ls (split-OneLine content) there) (added-Free ls keys there)
          | inr nowhere ↦
              EndsIn-after line (pieces_of s (edited rendered ls)) (pieces_of s ours)
                (added-EndsIn ls keys nowhere (known_key s))
        ])
