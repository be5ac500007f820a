-- ===== src/Config/Rendered.antt =====
-- internal/config/write.go: the lines that `assignment` renders, and where `apply` puts them.
use retrosaver.Prelude.{
  ℕ, zero, suc, ◌≡◌, ◌⊎◌, inl, inr, refl, sym, ap, subst, ◌∙◌, Bool, true, false, ◌&&◌, ◌||◌, List,
  [], ◌∷◌, ◌++◌, append_assoc, Option, none, some, some-injective, arith, Bool-cases, if-both,
  get_elem?, set, length, length-set, All, Member, contains, contains→Member, Text, text_eq,
  text_eq_iff, ◌==◌,
}
use retrosaver.Chars.{is_space, join, fields}
use retrosaver.Chars.Trim.{OneLine, is_one_line, is_one_line-OneLine, All-append, join-All}
use retrosaver.Config.Parse.{Outcome, failed, parsed}
use retrosaver.Config.Write.{
  assigned_key, keys, list_keys, UpdateError, unknown_key, not_module_name, not_single_word,
  assignment, has_unwanted, all_module_names, is_module_name, also_rendered, render, lookup,
  put_line, replace_one, replace_lines,
}
use retrosaver.Config.Lines.{
  IsKey, is_key_text, is_key_text-IsKey, assigned_key-line, AllNames, AllNames-words,
}

All-Member {ℓ} : (P : Text → Type ℓ) (xs : List Text) (x : Text) → All P xs → Member x xs → P x
All-Member P [] x h m = absurd m
All-Member P (y ∷ ys) x h (inl e) = subst P (sym e) h.0
All-Member P (y ∷ ys) x h (inr m) = All-Member P ys x h.1 m

-- A key that the program knows is a word on one line.
abbrev KeyLine : Text → Type 0
KeyLine key = IsKey key × OneLine key

key_line :
    (k : ℕ) (ks : Text)
    → is_key_text (k ∷ ks) ≡ true
    → is_one_line (k ∷ ks) ≡ true
    → KeyLine (k ∷ ks)
key_line k ks h o = (is_key_text-IsKey k ks h, is_one_line-OneLine (k ∷ ks) o)

known_keys : All KeyLine keys
unfolding is_space
known_keys = (
  key_line _ _ refl refl,
  (
    key_line _ _ refl refl,
    (
      key_line _ _ refl refl,
      (
        key_line _ _ refl refl,
        (key_line _ _ refl refl, (key_line _ _ refl refl, (key_line _ _ refl refl, tt))),
      ),
    ),
  ),
)

known : (key : Text) → contains keys key ≡ true → KeyLine key
known key h = All-Member KeyLine keys key known_keys (contains→Member keys key h)

OneLine-wanted : (v : Text) → has_unwanted v ≡ false → OneLine v
unfolding has_unwanted
OneLine-wanted [] h = tt
OneLine-wanted (c ∷ cs) h = (ground arith, OneLine-wanted cs (ground arith))

pub AllNames-all : (ns : List Text) → all_module_names ns ≡ true → AllNames ns
unfolding all_module_names
AllNames-all [] h = tt
AllNames-all (n ∷ ns) h = (
  both (is_module_name n) (all_module_names ns) h,
  AllNames-all ns (second_one (is_module_name n) (all_module_names ns) h),
)
  where
    both : (a b : Bool) → (a && b) ≡ true → a ≡ true
    both a b e = ground arith

    second_one : (a b : Bool) → (a && b) ≡ true → b ≡ true
    second_one a b e = ground arith

-- What a rendered line is: an assignment of its key, on one line.
abbrev pub Assigns : Text → Text → Type 0
Assigns key line = (assigned_key line ≡ some key) × OneLine line

value_line : (key v : Text) → KeyLine key → OneLine v → Assigns key (key ++ 61 ∷ v)
value_line key v (k, o) h =
    (assigned_key-line key v k, All-append (λ c. (c == 10) ≡ false) key (61 ∷ v) o (refl, h))

-- The outcome of `assignment`, if there is one, is such a line.
abbrev IsLine : Text → Outcome UpdateError Text → Type 0
IsLine key o = (line : Text) → o ≡ parsed line → Assigns key line

parsed-IsLine : (key line : Text) → Assigns key line → IsLine key (parsed line)
parsed-IsLine key line h other e =
    let equal : line ≡ other = ground arith in subst (Assigns key) equal h

failed-IsLine : (key : Text) (e : UpdateError) → IsLine key (failed e)
failed-IsLine key e line h = cc

neither : (a b : Bool) → (a || b) ≡ false → b ≡ false
neither a b e = ground arith

names_line :
    (key : Text) (ns : List Text)
    → KeyLine key
    → AllNames ns
    → Assigns key (key ++ (61 ∷ 34 ∷ []) ++ join (32 ∷ []) ns ++ (34 ∷ []))
names_line key ns k h =
    let one_line =
      join-All (λ c. (c == 10) ≡ false) (32 ∷ []) ns (refl, tt) (AllNames-words ns h).2 in
    let value = 34 ∷ (join (32 ∷ []) ns ++ 34 ∷ []) in
    let value_one_line : OneLine value = (
      refl,
      All-append (λ c. (c == 10) ≡ false) (join (32 ∷ []) ns) (34 ∷ []) one_line (refl, tt),
    ) in
    subst (Assigns key)
      (sym (
        append_assoc (key ++ 61 ∷ 34 ∷ []) (join (32 ∷ []) ns) (34 ∷ [])
        ∙ append_assoc key (61 ∷ 34 ∷ []) (join (32 ∷ []) ns ++ 34 ∷ [])))
      (value_line key value k value_one_line)

assignment-Assigns : (key value : Text) → IsLine key (assignment key value)
unfolding assignment
assignment-Assigns key value = elim (Bool-cases (contains keys key)) [
  | inl k ↦ rw k (
      if-both (IsLine key) (contains list_keys key) _ _
        (λ _.
          if-both (IsLine key) (all_module_names (fields value)) _ _
            (λ names.
              parsed-IsLine key _
                (names_line key (fields value) (known key k) (AllNames-all (fields value) names)))
            λ _. failed-IsLine key (not_module_name key))
        λ _.
          if-both (IsLine key) (text_eq value [] || has_unwanted value) _ _
            (λ _. failed-IsLine key (not_single_word key))
            λ e. parsed-IsLine key _ (
              subst (Assigns key) (sym (append_assoc key (61 ∷ []) value)) (
                value_line key value (known key k)
                  (OneLine-wanted value (neither (text_eq value []) (has_unwanted value) e)))))
  | inr e ↦ rw e (failed-IsLine key (unknown_key key))
]

-- Each rendered line assigns the key that it is rendered for.
also_rendered-Assigns :
    (k : Text) (o : Outcome UpdateError Text) (rest : Outcome UpdateError (List (Text × Text)))
    (r : List (Text × Text))
    → IsLine k o
    → ((q : List (Text × Text))
        → rest ≡ parsed q
        → (key line : Text) → lookup q key ≡ some line
        → Assigns key line)
    → also_rendered k o rest ≡ parsed r
    → (key line : Text) → lookup r key ≡ some line
    → Assigns key line
unfolding lookup
also_rendered-Assigns k (failed b) rest r h q a key line e = cc
also_rendered-Assigns k (parsed l) (failed b) r h q a key line e = cc
also_rendered-Assigns k (parsed l) (parsed p) r h q a key line e =
    let built : (k, l) ∷ p ≡ r = ground arith in
    let found = subst (λ x. lookup x key ≡ some line) (sym built) e in
    elim (Bool-cases (text_eq k key)) [
      | inl its ↦
          let line_is : some l ≡ some line = rw its at found in
          subst (λ x. Assigns x line) ((text_eq_iff k key).0 its)
            (subst (Assigns k) (some-injective l line line_is) (h l refl))
      | inr other ↦ q p refl key line (rw other at found)
    ]

pub render-Assigns :
    (updates rendered : List (Text × Text))
    → render updates ≡ parsed rendered
    → (key line : Text) → lookup rendered key ≡ some line
    → Assigns key line
unfolding render lookup
render-Assigns [] rendered h = λ key line e.
    let empty : [] ≡ rendered = ground arith in
    let nothing = subst (λ x. lookup x key ≡ some line) (sym empty) e in cc
render-Assigns ((k, v) ∷ updates) rendered h =
    also_rendered-Assigns k (assignment k v) (render updates) rendered (assignment-Assigns k v)
      (λ q e. render-Assigns updates q e) h

get_elem?-set :
    (xs : List Text) (i j : ℕ) (v e : Text)
    → get_elem? (set xs j v) i ≡ some e
    → (e ≡ v) ⊎ (get_elem? xs i ≡ some e)
get_elem?-set [] i j v e h = cc
get_elem?-set (x ∷ xs) zero zero v e h = inl (some-injective e v (sym h))
get_elem?-set (x ∷ xs) zero (suc j) v e h = inr h
get_elem?-set (x ∷ xs) (suc i) zero v e h = inr h
get_elem?-set (x ∷ xs) (suc i) (suc j) v e h = get_elem?-set xs i j v e h

-- A line that is the one of the file, or a rendered one.
abbrev pub OldOrRendered : List (Text × Text) → Text → Text → Type 0
OldOrRendered rendered l e = (e ≡ l) ⊎ ((key : Text) × (lookup rendered key ≡ some e))

put_line-either :
    (rendered : List (Text × Text)) (key l e : Text) (i j : ℕ) (o : Option Text) (lines : List Text)
    → lookup rendered key ≡ o
    → ((d : Text) → get_elem? lines i ≡ some d → OldOrRendered rendered l d)
    → get_elem? (put_line j o lines) i ≡ some e
    → OldOrRendered rendered l e
put_line-either rendered key l e i j none lines k h g = h e g
put_line-either rendered key l e i j (some v) lines k h g = elim (get_elem?-set lines i j v e g) [
  | inl equal ↦ inr (key, k ∙ ap some (sym equal))
  | inr old ↦ h e old
]

replace_one-either :
    (rendered : List (Text × Text)) (key l e : Text) (i : ℕ) (o : Option ℕ) (lines : List Text)
    → ((d : Text) → get_elem? lines i ≡ some d → OldOrRendered rendered l d)
    → get_elem? (replace_one rendered key o lines) i ≡ some e
    → OldOrRendered rendered l e
replace_one-either rendered key l e i none lines h g = h e g
replace_one-either rendered key l e i (some j) lines h g =
    put_line-either rendered key l e i j (lookup rendered key) lines refl h g

-- A line of the edited file is the one that was there, or a rendered one.
pub replace_lines-either :
    (rendered entries : List (Text × Text)) (last : List (Text × ℕ)) (l : Text) (i : ℕ)
    (lines : List Text)
    → ((d : Text) → get_elem? lines i ≡ some d → OldOrRendered rendered l d)
    → (e : Text) → get_elem? (replace_lines rendered last entries lines) i ≡ some e
    → OldOrRendered rendered l e
unfolding replace_lines
replace_lines-either rendered [] last l i lines h = h
replace_lines-either rendered ((key, v) ∷ entries) last l i lines h =
    replace_lines-either rendered entries last l i
      (replace_one rendered key (lookup last key) lines)
      λ d. replace_one-either rendered key l d i (lookup last key) lines h

length-replace_one :
    (rendered : List (Text × Text)) (key : Text) (o : Option ℕ) (lines : List Text)
    → length (replace_one rendered key o lines) ≡ length lines
length-replace_one rendered key none lines = refl
length-replace_one rendered key (some i) lines = from (lookup rendered key)
  where
    from : (o : Option Text) → length (put_line i o lines) ≡ length lines
    from none = refl
    from (some v) = length-set lines i v

pub length-replace_lines :
    (rendered entries : List (Text × Text)) (last : List (Text × ℕ)) (lines : List Text)
    → length (replace_lines rendered last entries lines) ≡ length lines
unfolding replace_lines
length-replace_lines rendered [] last lines = refl
length-replace_lines rendered ((key, v) ∷ entries) last lines =
    length-replace_lines rendered entries last (replace_one rendered key (lookup last key) lines)
    ∙ length-replace_one rendered key (lookup last key) lines
