-- ===== src/Config/Specified.antt =====
-- `apply` of internal/config/write.go makes the edit that Config/EditSpec says.
use retrosaver.Prelude.{
  ◌≡◌, ◌≢◌, ◌↔◌, inl, inr, refl, sym, ap, ◌∙◌, true, false, not, ◌&&◌, List, [], ◌∷◌, ◌++◌,
  append_assoc, Option, none, some, some-injective, arith, Bool-cases, Option-cases, if◌then◌else◌,
  ◌==◌, Text, text_eq, text_eq_iff,
}
use retrosaver.Chars.{split, join, trim_space, cut, has_prefix}
use retrosaver.Chars.Find.{IsCut, cut-IsCut, cut-append}
use retrosaver.Config.Parse.{is_comment}
use retrosaver.Config.Write.{keys, key_of, assigned_key, lookup, ends_line, append_lines, apply}
use retrosaver.Config.Assigning.{is_key, is_key→some}
use retrosaver.Config.Reference.{assigned_in, new_line, edited, added, reference}
use retrosaver.Config.Placing.{apply-reference}
use retrosaver.Config.EditSpec.{
  IsComment, Assigns, AssignedIn, Renders, Becomes, AllBecome, Appends, ended, each_ended,
  with_extra, IsEdit,
}

is_comment_lem : (text : Text) → (is_comment text ≡ true) ↔ IsComment text
unfolding text_eq has_prefix
is_comment_lem [] = ground arith
is_comment_lem (c ∷ cs) = (
  λ h. inr (cs, ap (λ x. x ∷ cs) (is_hash (ground arith))),
  λ r. elim r [ inl e ↦ cc | inr (rest, e) ↦ let same : c ≡ 35 = cc in rw same refl ],
)
  where
    is_hash : (c == 35) ≡ true → c ≡ 35
    is_hash h = ground arith

not-IsComment : (text : Text) → is_comment text ≡ false → ¬ IsComment text
not-IsComment text h k = let there = (is_comment_lem text).1 k in cc

no_comment : (text : Text) → ¬ IsComment text → is_comment text ≡ false
no_comment text h = elim (Bool-cases (is_comment text)) [
  | inl e ↦ absurd (h ((is_comment_lem text).0 e))
  | inr e ↦ e
]

cut-Assigns :
    (key line : Text) (o : Option (Text × Text))
    → is_comment (trim_space line) ≡ false
    → IsCut 61 (trim_space line) o
    → key_of o ≡ some key
    → Assigns key line
cut-Assigns key line none c h e = cc
cut-Assigns key line (some (name, value)) c (free, h) e = (
  name,
  value,
  not-IsComment (trim_space line) c,
  h,
  free,
  sym (some-injective (trim_space name) key e),
)

assigned_key-Assigns : (key line : Text) → (assigned_key line ≡ some key) ↔ Assigns key line
unfolding assigned_key
assigned_key-Assigns key line = (
  λ e. elim (Bool-cases (is_comment (trim_space line))) [
    | inl c ↦ let nothing = rw c at e in cc
    | inr c ↦
        cut-Assigns key line (cut 61 (trim_space line)) c (cut-IsCut 61 (trim_space line))
          (rw c at e)
  ],
  λ (name, value, c, h, free, e).
      rw (no_comment (trim_space line) c) (
        ap (λ t. key_of (cut 61 t)) h
        ∙ ap key_of (cut-append 61 name value free)
        ∙ ap some (sym e)),
)

is_key-Assigns : (key line : Text) → (is_key key (assigned_key line) ≡ true) ↔ Assigns key line
is_key-Assigns key line =
    let (to, from) = assigned_key-Assigns key line in
    (
      λ h. to (is_key→some key (assigned_key line) h),
      λ a. ap (is_key key) (from a) ∙ (text_eq_iff key key).1 refl,
    )

assigned_in-AssignedIn :
    (key : Text) (ls : List Text) → (assigned_in key ls ≡ true) ↔ AssignedIn key ls
unfolding assigned_in
assigned_in-AssignedIn key [] = ground arith
assigned_in-AssignedIn key (l ∷ ls) =
    ground (arith, is_key-Assigns key l, assigned_in-AssignedIn key ls)

not_assigned : (key : Text) (ls : List Text) → assigned_in key ls ≡ false → ¬ AssignedIn key ls
not_assigned key ls h a = let there = (assigned_in-AssignedIn key ls).1 a in cc

lookup-Renders :
    (rendered : List (Text × Text)) (key line : Text)
    → (lookup rendered key ≡ some line) ↔ Renders rendered key line
unfolding lookup
lookup-Renders [] key line = ground arith
lookup-Renders ((k, l) ∷ entries) key line =
    let (to, from) = lookup-Renders entries key line in
    elim (Bool-cases (text_eq k key)) [
      | inl e ↦
          let same : k ≡ key = (text_eq_iff k key).0 e in
          rw e (
            (λ h. inl (same, some-injective l line h)),
            (λ r. elim r [ inl (_, h) ↦ ap some h | inr (other, _) ↦ absurd (other same) ]),
          )
      | inr e ↦
          let other : k ≢ key = λ same. let eq = (text_eq_iff k key).1 same in cc in
          rw e (
            (λ h. inr (other, to h)),
            (λ r. elim r [ inl (same, _) ↦ absurd (other same) | inr (_, h) ↦ from h ]),
          )
    ]

module _ (rendered : List (Text × Text)) where
  unset : (key line : Text) → lookup rendered key ≡ none → ¬ Renders rendered key line
  unset key line e r = let there = (lookup-Renders rendered key line).1 r in cc

  new_line-Becomes :
      (l : Text) (later : List Text) (o : Option Text)
      → assigned_key l ≡ o
      → Becomes rendered l later (new_line rendered l later o)
  new_line-Becomes l later none e =
      inr (refl, λ key a. let there = (assigned_key-Assigns key l).1 a in cc)
  new_line-Becomes l later (some key) e = elim (Bool-cases (assigned_in key later)) [
    | inl more ↦ rw more (
        inr (
          refl,
          λ key' a last line r. absurd (
              last (
                (assigned_in-AssignedIn key' later).0
                  (ap (λ k. assigned_in k later) (only key' a) ∙ more))),
        ))
    | inr last ↦ rw last (elim (Option-cases (lookup rendered key)) [
      | inl nothing ↦ rw nothing (
          inr
            (refl, λ key' a _ line. unset key' line (ap (lookup rendered) (only key' a) ∙ nothing)))
      | inr (line, found) ↦ rw found (
          inl (
            key,
            (assigned_key-Assigns key l).0 e,
            not_assigned key later last,
            (lookup-Renders rendered key line).0 found,
          ))
    ])
  ]
    where
      only : (key' : Text) → Assigns key' l → key' ≡ key
      only key' a = some-injective key' key (sym ((assigned_key-Assigns key' l).1 a) ∙ e)

  edited-AllBecome : (ls : List Text) → AllBecome rendered ls (edited rendered ls)
  unfolding edited
  edited-AllBecome [] = refl
  edited-AllBecome (l ∷ ls) = (
    new_line rendered l ls (assigned_key l),
    edited rendered ls,
    refl,
    new_line-Becomes l ls (assigned_key l) refl,
    edited-AllBecome ls,
  )

  added-Appends : (ls ks : List Text) → Appends rendered ls ks (added rendered ls ks)
  unfolding added
  added-Appends ls [] = refl
  added-Appends ls (key ∷ ks) = elim (Bool-cases (assigned_in key ls)) [
    | inl there ↦
        rw there (inl (inl ((assigned_in-AssignedIn key ls).0 there), added-Appends ls ks))
    | inr nowhere ↦ rw nowhere (elim (Option-cases (lookup rendered key)) [
      | inl nothing ↦ rw nothing (inl (inr (λ line. unset key line nothing), added-Appends ls ks))
      | inr (line, found) ↦ rw found (
          inr (
            line,
            added rendered ls ks,
            not_assigned key ls nowhere,
            (lookup-Renders rendered key line).0 found,
            refl,
            added-Appends ls ks,
          ))
    ])
  ]

ended-append :
    (text : Text)
    → (if not (text_eq text []) && not (ends_line text) then text ++ (10 ∷ []) else text)
      ≡ ended text
unfolding text_eq ends_line
ended-append [] = refl
ended-append (c ∷ []) = ground arith
ended-append (c ∷ d ∷ ds) =
    let rest = ended-append (d ∷ ds) in
    elim (Bool-cases (ends_line (d ∷ ds))) [
      | inl e ↦ rw e (ap (λ t. c ∷ t) (rw e at rest))
      | inr e ↦ rw e (ap (λ t. c ∷ t) (rw e at rest))
    ]

join-each_ended :
    (l : Text) (ls : List Text) → join (10 ∷ []) (l ∷ ls) ++ (10 ∷ []) ≡ each_ended (l ∷ ls)
unfolding join
join-each_ended l [] = refl
join-each_ended l (m ∷ ms) =
    append_assoc (l ++ 10 ∷ []) (join (10 ∷ []) (m ∷ ms)) (10 ∷ [])
    ∙ append_assoc l (10 ∷ []) (join (10 ∷ []) (m ∷ ms) ++ 10 ∷ [])
    ∙ ap (λ t. l ++ 10 ∷ t) (join-each_ended m ms)

append_lines-with_extra : (text : Text) (ls : List Text) → append_lines text ls ≡ with_extra text ls
unfolding append_lines
append_lines-with_extra text [] = refl
append_lines-with_extra text (l ∷ ls) =
    let out = if not (text_eq text []) && not (ends_line text) then text ++ (10 ∷ []) else text in
    append_assoc out (join (10 ∷ []) (l ∷ ls)) (10 ∷ [])
    ∙ ap (λ t. out ++ t) (join-each_ended l ls)
    ∙ ap (λ t. t ++ each_ended (l ∷ ls)) (ended-append text)

-- `apply`, with its map of last lines and its two loops, makes the edit that it is meant to: a line
-- becomes the one that is rendered for the key that it assigns, if there is one and no later line
-- assigns that key, and stays as it is otherwise; then the rendered lines of the keys that no line
-- assigns are appended, in the order of the program's keys, each ended, after an end for the last
-- line if it lacks one.
pub apply-IsEdit :
    (content : Text) (rendered : List (Text × Text))
    → IsEdit rendered content (apply content rendered)
unfolding reference
apply-IsEdit content rendered =
    let ls = split 10 content in
    record {
      lines = edited rendered ls;
      extra = added rendered ls keys;
      replaced = edited-AllBecome rendered ls;
      appended = added-Appends rendered ls keys;
      written =
          apply-reference content rendered
          ∙ append_lines-with_extra (join (10 ∷ []) (edited rendered ls)) (added rendered ls keys);
    }
