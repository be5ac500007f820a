-- ===== src/Config/Placing.antt =====
-- internal/config/write.go: where the loop of `apply` over the map of last lines leaves the lines.
use retrosaver.Prelude.{
  ℕ, zero, suc, ◌+◌, ◌≡◌, ◌≢◌, inl, inr, refl, sym, ap, subst, ◌∙◌, true, false, List, [], ◌∷◌,
  Option, none, some, some-injective, arith, Bool-cases, Option-cases, if-both, if◌then◌else◌,
  get_elem?, set, length, Text, text_eq, text_eq_iff,
}
use retrosaver.Config.Write.{
  keys, assigned_key, lookup, last_lines, put_line, replace_one, replace_lines, needed,
  missing_lines, append_lines, apply,
}
use retrosaver.Config.Assigning.{is_key, is_key→some}
use retrosaver.Config.Edits.{Misses, replace_lines-keeps}
use retrosaver.Config.Rendered.{length-replace_lines}
use retrosaver.Config.Reference.{assigned_in, new_line, edited, added, reference}
use retrosaver.Config.LastLine.{
  last_found, last_of, last_lines-lookup, later, last_of-none, last_of-some, last_of-at, last_of-is,
}
use retrosaver.Chars.{split, join}

set-here :
    (xs : List Text) (i : ℕ) (x v : Text)
    → get_elem? xs i ≡ some x
    → get_elem? (set xs i v) i ≡ some v
set-here [] i x v e = cc
set-here (y ∷ ys) zero x v e = refl
set-here (y ∷ ys) (suc i) x v e = set-here ys i x v e

set-some :
    (xs : List Text) (i j : ℕ) (x v : Text)
    → get_elem? xs i ≡ some x
    → (y : Text) × (get_elem? (set xs j v) i ≡ some y)
set-some [] i j x v e = cc
set-some (y ∷ ys) zero zero x v e = (v, refl)
set-some (y ∷ ys) zero (suc j) x v e = (x, e)
set-some (y ∷ ys) (suc i) zero x v e = (x, e)
set-some (y ∷ ys) (suc i) (suc j) x v e = set-some ys i j x v e

replace_one-some :
    (rendered : List (Text × Text)) (key : Text) (o : Option ℕ) (lines : List Text) (i : ℕ)
    (x : Text)
    → get_elem? lines i ≡ some x
    → (y : Text) × (get_elem? (replace_one rendered key o lines) i ≡ some y)
replace_one-some rendered key none lines i x e = (x, e)
replace_one-some rendered key (some j) lines i x e = from (lookup rendered key)
  where
    from : (o : Option Text) → (y : Text) × (get_elem? (put_line j o lines) i ≡ some y)
    from none = (x, e)
    from (some v) = set-some lines i j x v e

-- Where the loop over the map of last lines leaves a line.
module _ (rendered : List (Text × Text)) (last : List (Text × ℕ)) (key line : Text) (i : ℕ) where
  module _ (its : lookup rendered key ≡ some line)
      (only : (key' : Text) → lookup last key' ≡ some i → key' ≡ key) where
    put_line-stays :
        (j : ℕ) (o : Option Text) (lines : List Text)
        → (i ≡ j → o ≡ some line)
        → get_elem? lines i ≡ some line
        → get_elem? (put_line j o lines) i ≡ some line
    put_line-stays j none lines h e = e
    put_line-stays j (some v) lines h e = get_elem?-set-either lines i j v line e h
      where
        get_elem?-set-either :
            (xs : List Text) (i j : ℕ) (v line : Text)
            → get_elem? xs i ≡ some line
            → (i ≡ j → some v ≡ some line)
            → get_elem? (set xs j v) i ≡ some line
        get_elem?-set-either [] i j v line e h = cc
        get_elem?-set-either (x ∷ xs) zero zero v line e h = h refl
        get_elem?-set-either (x ∷ xs) zero (suc j) v line e h = e
        get_elem?-set-either (x ∷ xs) (suc i) zero v line e h = e
        get_elem?-set-either (x ∷ xs) (suc i) (suc j) v line e h =
            get_elem?-set-either xs i j v line e λ same_i. h (ap suc same_i)

    replace_one-stays :
        (key' : Text) (o : Option ℕ) (lines : List Text)
        → lookup last key' ≡ o
        → get_elem? lines i ≡ some line
        → get_elem? (replace_one rendered key' o lines) i ≡ some line
    replace_one-stays key' none lines k e = e
    replace_one-stays key' (some j) lines k e =
        put_line-stays j (lookup rendered key') lines
          (λ same_i. ap (lookup rendered) (only key' (k ∙ ap some (sym same_i))) ∙ its) e

    replace_lines-stays :
        (entries : List (Text × Text)) (lines : List Text)
        → get_elem? lines i ≡ some line
        → get_elem? (replace_lines rendered last entries lines) i ≡ some line
    unfolding replace_lines
    replace_lines-stays [] lines e = e
    replace_lines-stays ((key', v) ∷ entries) lines e =
        replace_lines-stays entries (replace_one rendered key' (lookup last key') lines)
          (replace_one-stays key' (lookup last key') lines refl e)

    replace_lines-puts :
        (entries : List (Text × Text)) (lines : List Text) (x v : Text)
        → lookup last key ≡ some i
        → lookup entries key ≡ some v
        → get_elem? lines i ≡ some x
        → get_elem? (replace_lines rendered last entries lines) i ≡ some line
    unfolding replace_lines lookup
    replace_lines-puts [] lines x v at_i k e = cc
    replace_lines-puts ((key', v') ∷ entries) lines x v at_i k e =
        elim (Bool-cases (text_eq key' key)) [
          | inl same_key ↦
              replace_lines-stays entries (replace_one rendered key' (lookup last key') lines) (
                subst
                  (λ k'. get_elem? (replace_one rendered k' (lookup last k') lines) i ≡ some line)
                  (sym ((text_eq_iff key' key).0 same_key))
                  (rw at_i (rw its (set-here lines i x line e))))
          | inr other ↦
              let (y, e') = replace_one-some rendered key' (lookup last key') lines i x e in
              replace_lines-puts entries (replace_one rendered key' (lookup last key') lines) y v
                at_i (rw other at k) e'
        ]

get_elem?-ext :
    (xs ys : List Text)
    → length xs ≡ length ys
    → ((i : ℕ) (x : Text) → get_elem? ys i ≡ some x → get_elem? xs i ≡ some x)
    → xs ≡ ys
get_elem?-ext [] [] n h = refl
get_elem?-ext [] (y ∷ ys) n h = absurd (omega arith)
get_elem?-ext (x ∷ xs) [] n h = absurd (omega arith)
get_elem?-ext (x ∷ xs) (y ∷ ys) n h =
    ap (λ z. z ∷ xs) (some-injective x y (h 0 y refl))
    ∙ ap (λ zs. y ∷ zs) (get_elem?-ext xs ys (omega arith) (λ i. h (suc i)))

length-edited :
    (rendered : List (Text × Text)) (ls : List Text) → length (edited rendered ls) ≡ length ls
unfolding edited
length-edited rendered [] = refl
length-edited rendered (l ∷ ls) = ap suc (length-edited rendered ls)

get_elem?-edited :
    (rendered : List (Text × Text)) (ls : List Text) (i : ℕ) (e : Text)
    → get_elem? (edited rendered ls) i ≡ some e
    → (l : Text) × (get_elem? ls i ≡ some l)
      × (e ≡ new_line rendered l (later i ls) (assigned_key l))
unfolding edited later
get_elem?-edited rendered [] i e h = cc
get_elem?-edited rendered (l ∷ ls) zero e h =
    (l, refl, some-injective e (new_line rendered l ls (assigned_key l)) (sym h))
get_elem?-edited rendered (l ∷ ls) (suc i) e h = get_elem?-edited rendered ls i e h

module _ (rendered : List (Text × Text)) (ls : List Text) where
  abbrev last : List (Text × ℕ)
  last = last_lines rendered 0 ls []

  found :
      (key : Text) → lookup last key ≡ last_found (lookup rendered key) none (last_of key 0 ls none)
  unfolding lookup
  found key = last_lines-lookup rendered key 0 ls []

  last_found-some :
      (o : Option Text) (x : Option ℕ) (i : ℕ)
      → last_found o none x ≡ some i
      → (x ≡ some i) × (o ≢ none)
  last_found-some none x i h = cc
  last_found-some (some line) x i h = (h, λ e. cc)

  -- The line that the map has for a key.
  points :
      (key l : Text) (i : ℕ)
      → get_elem? ls i ≡ some l
      → lookup last key ≡ some i
      → (is_key key (assigned_key l) ≡ true)
        × (assigned_in key (later i ls) ≡ false)
        × (lookup rendered key ≢ none)
  points key l i e h =
      let (at_i, wanted) =
        last_found-some (lookup rendered key) (last_of key 0 ls none) i (sym (found key) ∙ h) in
      let from_zero : ◌≡◌ {A = Option ℕ} (some i) (some (0 + i)) = ap some (omega arith) in
      let (its, none_later) = last_of-is key l 0 i ls none e (λ k. cc) (at_i ∙ from_zero) in
      (its, none_later, wanted)

  kept :
      (l : Text) (i : ℕ)
      → get_elem? ls i ≡ some l
      → Misses i last
      → get_elem? (replace_lines rendered last rendered ls) i ≡ some l
  kept l i e m = replace_lines-keeps rendered rendered last i ls m ∙ e

  misses :
      (l : Text) (i : ℕ)
      → get_elem? ls i ≡ some l
      → ((key : Text)
          → is_key key (assigned_key l) ≡ true
          → assigned_in key (later i ls) ≡ false
          → lookup rendered key ≡ none)
      → Misses i last
  misses l i e h key j k same_i =
      let (its, none_later, wanted) = points key l i e (k ∙ ap some (sym same_i)) in
      wanted (h key its none_later)

  placed :
      (l : Text) (i : ℕ) (o : Option Text)
      → get_elem? ls i ≡ some l
      → assigned_key l ≡ o
      → get_elem? (replace_lines rendered last rendered ls) i
        ≡ some (new_line rendered l (later i ls) o)
  placed l i none e k = kept l i e (misses l i e λ key its. let nothing = ap (is_key key) k in cc)
  placed l i (some key) e k = elim (Bool-cases (assigned_in key (later i ls))) [
    | inl more ↦ rw more (
        kept l i e (
          misses l i e λ key' its none_later.
            let same_key = same_one key key' k its in
            let both : assigned_in key (later i ls) ≡ false =
              ap (λ x. assigned_in x (later i ls)) same_key ∙ none_later in
            cc))
    | inr none_later ↦ rw none_later (elim (Option-cases (lookup rendered key)) [
      | inl unset ↦ rw unset (
          kept l i e (
            misses l i e
              λ key' its _. ap (lookup rendered) (sym (same_one key key' k its)) ∙ unset))
      | inr (line, its) ↦ rw its (
          replace_lines-puts rendered last key line i its
            (λ key' h. sym (same_one key key' k (points key' l i e h).0)) rendered ls l line
            (found key
              ∙ ap (λ o. last_found o none (last_of key 0 ls none)) its
              ∙ last_of-at key l 0 i ls none e (ap (is_key key) k ∙ (text_eq_iff key key).1 refl)
                  none_later
              ∙ ap some (omega arith))
            its e)
    ])
  ]
    where
      same_one :
          (key key' : Text)
          → assigned_key l ≡ some key
          → is_key key' (assigned_key l) ≡ true
          → key ≡ key'
      same_one key key' k its =
          some-injective key key' (sym k ∙ is_key→some key' (assigned_key l) its)

  replace_lines-edited : replace_lines rendered last rendered ls ≡ edited rendered ls
  replace_lines-edited =
      get_elem?-ext (replace_lines rendered last rendered ls) (edited rendered ls)
        (length-replace_lines rendered rendered last ls ∙ sym (length-edited rendered ls))
        λ i x e.
          let (l, at_i, new) = get_elem?-edited rendered ls i x e in
          placed l i (assigned_key l) at_i refl ∙ ap some (sym new)

  missing_lines-added : (ks : List Text) → missing_lines rendered last ks ≡ added rendered ls ks
  unfolding missing_lines added
  missing_lines-added [] = refl
  missing_lines-added (key ∷ ks) =
      ap (λ o. needed o (lookup rendered key) (missing_lines rendered last ks)) (found key)
      ∙ ap
          (needed (last_found (lookup rendered key) none (last_of key 0 ls none))
            (lookup rendered key))
          (missing_lines-added ks)
      ∙ by_key key (lookup rendered key) (added rendered ls ks)
    where
      by_key :
          (key : Text) (o : Option Text) (rest : List Text)
          → needed (last_found o none (last_of key 0 ls none)) o rest
            ≡ (if assigned_in key ls then rest else needed none o rest)
      by_key key none rest =
          if-both (λ x. rest ≡ x) (assigned_in key ls) rest rest (λ _. refl) (λ _. refl)
      by_key key (some line) rest = elim (Bool-cases (assigned_in key ls)) [
        | inl there ↦
            let (j, at_j, _) = last_of-some key 0 ls none there in
            rw there (ap (λ o. needed o (some line) rest) at_j)
        | inr nowhere ↦
            rw nowhere (ap (λ o. needed o (some line) rest) (last_of-none key 0 ls none nowhere))
      ]

-- `apply` with its map of last lines and its two loops is the edit line by line: a line is replaced
-- by the one rendered for the key that it assigns, if there is one and no later line assigns that
-- key, and stays as it is otherwise; then the rendered lines of the keys that no line assigns are
-- appended, in the order of the program's keys.
pub apply-reference :
    (content : Text) (rendered : List (Text × Text))
    → apply content rendered ≡ reference content rendered
unfolding apply reference
apply-reference content rendered =
    let ls = split 10 content in
    ap
      (λ es.
        append_lines (join (10 ∷ []) es)
          (missing_lines rendered (last_lines rendered 0 ls []) keys))
      (replace_lines-edited rendered ls)
    ∙ ap (append_lines (join (10 ∷ []) (edited rendered ls))) (missing_lines-added rendered ls keys)
