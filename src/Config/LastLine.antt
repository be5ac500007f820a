-- ===== src/Config/LastLine.antt =====
-- internal/config/write.go: the number that the map of last lines of `apply` has for a key.
use retrosaver.Prelude.{
  ℕ, zero, suc, ◌+◌, ◌≤◌, ◌≡◌, ◌≢◌, inl, inr, refl, sym, ap, ◌∙◌, true, false, List, [], ◌∷◌,
  Option, none, some, some-injective, arith, Bool-cases, if-both, if◌then◌else◌, get_elem?, Text,
  text_eq, text_eq_iff,
}
use retrosaver.Config.Write.{assigned_key, lookup, mark_found, mark, last_lines}
use retrosaver.Config.Assigning.{is_key}
use retrosaver.Config.Reference.{assigned_in}

-- The number of the last line that assigns a key, of lines numbered from `k`.
unfoldable pub last_of : Text → ℕ → List Text → Option ℕ → Option ℕ
last_of key k [] found = found
last_of key k (l ∷ ls) found =
    last_of key (suc k) ls (if is_key key (assigned_key l) then some k else found)

-- `last_lines` has that number for a rendered key, and nothing new for another.
abbrev pub last_found : Option Text → Option ℕ → Option ℕ → Option ℕ
last_found none before found = before
last_found (some line) before found = found

mark_found-lookup :
    (key key' : Text) (i : ℕ) (o : Option Text) (last : List (Text × ℕ))
    → lookup (mark_found key' i o last) key
      ≡ last_found o (lookup last key) (if text_eq key' key then some i else lookup last key)
unfolding lookup
mark_found-lookup key key' i none last = refl
mark_found-lookup key key' i (some line) last = refl

last_found-same : (o : Option Text) (x : Option ℕ) → last_found o x x ≡ x
last_found-same none x = refl
last_found-same (some line) x = refl

mark-lookup :
    (rendered : List (Text × Text)) (key : Text) (i : ℕ) (o : Option Text) (last : List (Text × ℕ))
    → lookup (mark rendered i o last) key
      ≡ last_found
          (lookup rendered key)
          (lookup last key)
          (if is_key key o then some i else lookup last key)
mark-lookup rendered key i none last = sym (last_found-same (lookup rendered key) (lookup last key))
mark-lookup rendered key i (some key') last =
    mark_found-lookup key key' i (lookup rendered key') last
    ∙ elim (Bool-cases (text_eq key' key)) [
      | inl its ↦
          ap
            (λ k.
              last_found (lookup rendered k) (lookup last key)
                (if text_eq key' key then some i else lookup last key))
            ((text_eq_iff key' key).0 its)
      | inr other ↦ rw other (
          last_found-same (lookup rendered key') (lookup last key)
          ∙ sym (last_found-same (lookup rendered key) (lookup last key)))
    ]

last_found_twice :
    (o : Option Text) (x y : Option ℕ) (f : Option ℕ → Option ℕ)
    → last_found o (last_found o x y) (f (last_found o x y)) ≡ last_found o x (f y)
last_found_twice none x y f = refl
last_found_twice (some line) x y f = refl

pub last_lines-lookup :
    (rendered : List (Text × Text)) (key : Text) (k : ℕ) (ls : List Text) (last : List (Text × ℕ))
    → lookup (last_lines rendered k ls last) key
      ≡ last_found (lookup rendered key) (lookup last key) (last_of key k ls (lookup last key))
unfolding last_lines last_of
last_lines-lookup rendered key k [] last =
    sym (last_found-same (lookup rendered key) (lookup last key))
last_lines-lookup rendered key k (l ∷ ls) last =
    let o = lookup rendered key in
    let before = lookup last key in
    let here = if is_key key (assigned_key l) then some k else before in
    last_lines-lookup rendered key (suc k) ls (mark rendered k (assigned_key l) last)
    ∙ ap (λ x. last_found o x (last_of key (suc k) ls x))
        (mark-lookup rendered key k (assigned_key l) last)
    ∙ last_found_twice o before here (last_of key (suc k) ls)

-- The lines after line `i`.
unfoldable pub later : ℕ → List Text → List Text
later i [] = []
later zero (l ∷ ls) = ls
later (suc i) (l ∷ ls) = later i ls

-- Without an assignment the number found before stays.
pub last_of-none :
    (key : Text) (k : ℕ) (ls : List Text) (found : Option ℕ)
    → assigned_in key ls ≡ false
    → last_of key k ls found ≡ found
unfolding last_of assigned_in
last_of-none key k [] found h = refl
last_of-none key k (l ∷ ls) found h = elim (Bool-cases (is_key key (assigned_key l))) [
  | inl its ↦ let found_one = rw its at h in cc
  | inr other ↦ rw other (last_of-none key (suc k) ls found (rw other at h))
]

-- With one, the number is that of a line.
pub last_of-some :
    (key : Text) (k : ℕ) (ls : List Text) (found : Option ℕ)
    → assigned_in key ls ≡ true
    → (j : ℕ) × (last_of key k ls found ≡ some j) × (k ≤ j)
unfolding last_of assigned_in
last_of-some key k [] found h = cc
last_of-some key k (l ∷ ls) found h = elim (Bool-cases (assigned_in key ls)) [
  | inl more ↦
      let (j, e, below) =
        last_of-some key (suc k) ls (if is_key key (assigned_key l) then some k else found) more in
      (j, e, omega arith)
  | inr last ↦
      let its : is_key key (assigned_key l) ≡ true = ground arith in
      (
        k,
        last_of-none key (suc k) ls (if is_key key (assigned_key l) then some k else found) last
            ∙ rw its refl,
        omega arith,
      )
]

-- A line that assigns the key, with none after it that does, is the last one.
pub last_of-at :
    (key l : Text) (k d : ℕ) (ls : List Text) (found : Option ℕ)
    → get_elem? ls d ≡ some l
    → is_key key (assigned_key l) ≡ true
    → assigned_in key (later d ls) ≡ false
    → last_of key k ls found ≡ some (k + d)
unfolding last_of later
last_of-at key l k d [] found e its h = cc
last_of-at key l k zero (x ∷ ls) found e its h =
    let same_line : x ≡ l = some-injective x l e in
    let here : is_key key (assigned_key x) ≡ true =
      ap (λ t. is_key key (assigned_key t)) same_line ∙ its in
    last_of-none key (suc k) ls (if is_key key (assigned_key x) then some k else found) h
    ∙ rw here (ap some (omega arith))
last_of-at key l k (suc d) (x ∷ ls) found e its h =
    last_of-at key l (suc k) d ls (if is_key key (assigned_key x) then some k else found) e its h
    ∙ ap some (omega arith)

-- The number that is found is of a line that assigns the key, with none after it that does.
pub last_of-is :
    (key l : Text) (k d : ℕ) (ls : List Text) (found : Option ℕ)
    → get_elem? ls d ≡ some l
    → found ≢ some (k + d)
    → last_of key k ls found ≡ some (k + d)
    → (is_key key (assigned_key l) ≡ true) × (assigned_in key (later d ls) ≡ false)
unfolding last_of later
last_of-is key l k d [] found e n h = cc
last_of-is key l k zero (x ∷ ls) found e n h =
    let same_line : x ≡ l = some-injective x l e in
    let here = if is_key key (assigned_key x) then some k else found in
    elim (Bool-cases (assigned_in key ls)) [
      | inl more ↦
          let (j, at_j, below) = last_of-some key (suc k) ls here more in
          let equal : j ≡ k + 0 = some-injective j (k + 0) (sym at_j ∙ h) in absurd (omega arith)
      | inr none_later ↦
          let is_here : here ≡ some (k + 0) =
            sym (last_of-none key (suc k) ls here none_later) ∙ h in
          elim (Bool-cases (is_key key (assigned_key x))) [
            | inl its ↦ (ap (λ t. is_key key (assigned_key t)) (sym same_line) ∙ its, none_later)
            | inr other ↦ absurd (n (rw other at is_here))
          ]
    ]
last_of-is key l k (suc d) (x ∷ ls) found e n h =
    let here = if is_key key (assigned_key x) then some k else found in
    let shift : ◌≡◌ {A = Option ℕ} (some (k + suc d)) (some (suc k + d)) = ap some (omega arith) in
    let not_here : here ≢ some (suc k + d) =
      if-both (λ o. o ≢ some (suc k + d)) (is_key key (assigned_key x)) (some k) found
        (λ _ same_k.
          let equal : k ≡ suc k + d = some-injective k (suc k + d) same_k in absurd (omega arith))
        λ _ same_k. n (same_k ∙ sym shift) in
    last_of-is key l (suc k) d ls here e not_here (h ∙ shift)
