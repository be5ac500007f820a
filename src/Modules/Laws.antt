-- ===== src/Modules/Laws.antt =====
-- What `Discover`, `Select` and `Pick` of internal/modules/modules.go promise.
use Prim.Native.Nat.{bit_and}
use retrosaver.Prelude.{
  ℕ, zero, suc, ◌<◌, ◌≡◌, ◌≢◌, ◌↔◌, ◌⊎◌, inl, inr, refl, Bool, true, false, ◌&&◌, ◌||◌, List, [],
  ◌∷◌, Option, none, some, arith, if-both, map, Bool-cases, length, get_elem?, Member, Text, codes,
  contains, text_eq, text_eq_iff, All, length-append, sym, ap, ◌∙◌, ◌++◌, contains→Member,
  Member→contains,
}
use retrosaver.Modules.{
  FileInfo, Finder, add_name, trim_suffix, configured_names, executable, executable_names, text_lt,
  insert_sorted, sort_names, keep, discover_in, discover, is_empty, selectable, select, non_empty,
  select_from, choose, pick,
}

pub keep→Member :
    (p : Text → Bool) (xs : List Text) (n : Text)
    → Member n (keep p xs)
    → Member n xs × (p n ≡ true)
unfolding keep
keep→Member p [] n m = elim m [ ]
keep→Member p (x ∷ xs) n m = elim (Bool-cases (p x)) [
  | inl e ↦ ground (arith, keep→Member p xs n)
  | inr e ↦ ground (arith, keep→Member p xs n)
]

Member→keep :
    (p : Text → Bool) (xs : List Text) (n : Text) → Member n xs → p n ≡ true → Member n (keep p xs)
unfolding keep
Member→keep p [] n m h = m
Member→keep p (x ∷ xs) n m h = elim (Bool-cases (p x)) [
  | inl e ↦ ground (arith, Member→keep p xs n)
  | inr e ↦ ground (arith, Member→keep p xs n)
]

not→false : (b : Bool) → ¬ (b ≡ true) → b ≡ false
not→false b h = ground arith

-- `Select` keeps exactly the discovered names that the include list names, where it names any, and
-- that the exclude list does not name, so a name on both lists is out.
pub Member-select :
    (discovered include exclude : List Text) (n : Text)
    → Member n (select discovered include exclude)
      ↔ (Member n discovered × ((include ≡ []) ⊎ Member n include) × (¬ Member n exclude))
unfolding select
Member-select discovered include exclude n = (
  λ m.
      let (found, ok) = keep→Member (selectable include exclude) discovered n m in
      (found, allowed include ok, λ denied. ground (arith, Member→contains exclude n denied)),
  λ (found, into, out). Member→keep (selectable include exclude) discovered n found (
      let off = not→false (contains exclude n) (λ e. out (contains→Member exclude n e)) in
      rw off (admitted include into)),
)
  where
    allowed : (inc : List Text) → selectable inc exclude n ≡ true → (inc ≡ []) ⊎ Member n inc
    allowed [] h = inl refl
    allowed (x ∷ xs) h = inr (contains→Member (x ∷ xs) n (ground arith))

    admitted :
        (inc : List Text)
        → (inc ≡ []) ⊎ Member n inc
        → ((is_empty inc || contains inc n) && true) ≡ true
    admitted [] h = refl
    admitted (x ∷ xs) (inl e) = cc
    admitted (x ∷ xs) (inr m) = rw (Member→contains (x ∷ xs) n m)

Member-add_name : (n x : Text) (ns : List Text) → Member n (add_name x ns) ↔ ((n ≡ x) ⊎ Member n ns)
unfolding add_name
Member-add_name n x ns = elim (Bool-cases (contains ns x)) [
  | inl e ↦
      rw e (λ m. inr m, λ o. elim o [ inl same ↦ rw same (contains→Member ns x e) | inr m ↦ m ])
  | inr e ↦ rw e (λ m. m, λ m. m)
]

pub Member-insert_sorted :
    (n x : Text) (ns : List Text) → Member n (insert_sorted x ns) ↔ ((n ≡ x) ⊎ Member n ns)
unfolding insert_sorted
Member-insert_sorted n x [] = (λ m. m, λ m. m)
Member-insert_sorted n x (y ∷ ys) = elim (Bool-cases (text_lt y x)) [
  | inl e ↦ rw e (
    (λ m. ground (arith, (Member-insert_sorted n x ys).0)),
    (λ m. ground (arith, (Member-insert_sorted n x ys).1)),
  )
  | inr e ↦ rw e (λ m. m, λ m. m)
]

pub Member-sort_names : (n : Text) (ns : List Text) → Member n (sort_names ns) ↔ Member n ns
unfolding sort_names
Member-sort_names n [] = (λ m. m, λ m. m)
Member-sort_names n (x ∷ xs) =
    let (to, from) = Member-insert_sorted n x (sort_names xs) in
    let (down, up) = Member-sort_names n xs in
    ((λ m. ground (arith, to m, down)), (λ m. ground (arith, from, up)))

-- A regular file with an execute bit set.
abbrev IsRunnable : Option FileInfo → Type 0
IsRunnable none = ⊥
IsRunnable (some i) = (i.regular ≡ true) × (bit_and i.perm 0o111 ≢ 0)

executable-IsRunnable : (info : Option FileInfo) → (executable info ≡ true) ↔ IsRunnable info
executable-IsRunnable none = ground arith
executable-IsRunnable (some i) = ground arith

-- The entries have an executable regular file of this name.
abbrev pub HasExecutable : Text → List (Text × Option FileInfo) → Type 0
HasExecutable n [] = ⊥
HasExecutable n ((name, info) ∷ entries) = ((n ≡ name) × IsRunnable info) ⊎ HasExecutable n entries

Member-executable_names :
    (n : Text) (entries : List (Text × Option FileInfo))
    → Member n (executable_names entries) ↔ HasExecutable n entries
unfolding executable_names
Member-executable_names n [] = (λ m. m, λ m. m)
Member-executable_names n ((name, info) ∷ entries) =
    let (to, from) = Member-executable_names n entries in
    let (runs, runnable) = executable-IsRunnable info in
    elim (Bool-cases (executable info)) [
      | inl e ↦
          let (into, back) = Member-add_name n name (executable_names entries) in
          rw e (λ m. ground (arith, into m, to, runs e), λ h. ground (arith, back, from))
      | inr e ↦ rw e (λ m. inr (to m), λ h. ground (arith, from, runnable))
    ]

Member-configured_names :
    (n : Text) (files : List Text)
    → Member n (configured_names files) ↔ Member n (map (trim_suffix (codes ".xml")) files)
unfolding configured_names
Member-configured_names n [] = (λ m. m, λ m. m)
Member-configured_names n (file ∷ files) =
    let name = trim_suffix (codes ".xml") file in
    let (to, from) = Member-configured_names n files in
    let (into, back) = Member-add_name n name (configured_names files) in
    (λ m. ground (arith, into m, to), λ h. ground (arith, back, from))

-- A file name as `filepath.Glob` gives them for `*.xml`.
abbrev pub IsXml : Text → Type 0
IsXml file = (name : Text) × (file ≡ name ++ codes ".xml")

trim_suffix-append : (suffix name : Text) → suffix ≢ [] → trim_suffix suffix (name ++ suffix) ≡ name
unfolding trim_suffix
trim_suffix-append [] [] h = refl
trim_suffix-append (x ∷ xs) [] h = rw ((text_eq_iff (x ∷ xs) (x ∷ xs)).1 refl) refl
trim_suffix-append suffix (c ∷ name) h = elim (Bool-cases (text_eq suffix (c ∷ name ++ suffix))) [
  | inl e ↦
      let same = ap length ((text_eq_iff suffix (c ∷ name ++ suffix)).0 e) in
      absurd (omega (arith, same, length-append name suffix))
  | inr e ↦ rw e (ap (λ t. c ∷ t) (trim_suffix-append suffix name h))
]

Member-trimmed :
    (n : Text) (files : List Text)
    → All IsXml files
    → Member n (map (trim_suffix (codes ".xml")) files) ↔ Member (n ++ codes ".xml") files
Member-trimmed n [] h = (λ m. m, λ m. m)
Member-trimmed n (file ∷ files) ((name, e), h) =
    let (to, from) = Member-trimmed n files h in
    let trimmed : trim_suffix (codes ".xml") file ≡ name =
      ap (trim_suffix (codes ".xml")) e ∙ trim_suffix-append (codes ".xml") name (λ k. cc) in
    let back : n ++ codes ".xml" ≡ file → n ≡ name = λ k.
      sym (trim_suffix-append (codes ".xml") n (λ z. cc))
      ∙ ap (trim_suffix (codes ".xml")) k
      ∙ trimmed in
    (
      λ m. elim m [
        | inl k ↦ inl (ap (λ t. t ++ codes ".xml") (k ∙ trimmed) ∙ sym e)
        | inr k ↦ inr (to k)
      ],
      λ m. elim m [ inl k ↦ inl (back k ∙ sym trimmed) | inr k ↦ inr (from k) ],
    )

-- `y` does not stand before the head of the list.
abbrev NotAfter : Text → List Text → Type 0
NotAfter x [] = Unit
NotAfter x (y ∷ _) = text_lt y x ≡ false

abbrev pub IsSorted : List Text → Type 0
IsSorted [] = Unit
IsSorted (x ∷ xs) = NotAfter x xs × IsSorted xs

text_lt_asymm : (a b : Text) → text_lt a b ≡ true → text_lt b a ≡ false
unfolding text_lt
text_lt_asymm [] [] h = refl
text_lt_asymm [] (y ∷ b) h = refl
text_lt_asymm (x ∷ a) [] h = cc
text_lt_asymm (x ∷ a) (y ∷ b) h = ground (arith, text_lt_asymm a b)

insert_sorted-NotAfter :
    (x n : Text) (ys : List Text)
    → text_lt n x ≡ false
    → NotAfter x ys
    → NotAfter x (insert_sorted n ys)
unfolding insert_sorted
insert_sorted-NotAfter x n [] h k = h
insert_sorted-NotAfter x n (y ∷ ys) h k =
    if-both (NotAfter x) (text_lt y n) (y ∷ insert_sorted n ys) (n ∷ y ∷ ys) (λ e. k) (λ e. h)

insert_sorted-IsSorted : (n : Text) (ys : List Text) → IsSorted ys → IsSorted (insert_sorted n ys)
unfolding insert_sorted
insert_sorted-IsSorted n [] s = (tt, tt)
insert_sorted-IsSorted n (y ∷ ys) s =
    if-both IsSorted (text_lt y n) (y ∷ insert_sorted n ys) (n ∷ y ∷ ys)
      (λ e.
        (insert_sorted-NotAfter y n ys (text_lt_asymm y n e) s.0, insert_sorted-IsSorted n ys s.1))
      (λ e. (e, s))

sort_names-IsSorted : (ns : List Text) → IsSorted (sort_names ns)
unfolding sort_names
sort_names-IsSorted [] = tt
sort_names-IsSorted (x ∷ xs) = insert_sorted-IsSorted x (sort_names xs) (sort_names-IsSorted xs)

-- Of files that end in `.xml`, `Discover` returns, in order, exactly the names that have such a file
-- in the one directory and a regular file with an execute bit in the other.
pub discover_in_lem :
    (files : List Text) (entries : List (Text × Option FileInfo)) (n : Text)
    → All IsXml files
    → IsSorted (discover_in files entries)
      × (Member n (discover_in files entries)
          ↔ (Member (n ++ codes ".xml") files × HasExecutable n entries))
unfolding discover_in
discover_in_lem files entries n xml =
    let execs = executable_names entries in
    let names = configured_names files in
    let (down, up) = Member-sort_names n (keep (contains execs) names) in
    let (to, from) = Member-configured_names n files in
    let (into, back) = Member-executable_names n entries in
    let (spelled, trimmed) = Member-trimmed n files xml in
    (
      sort_names-IsSorted (keep (contains execs) names),
      (
        λ m.
            let (c, e) = keep→Member (contains execs) names n (down m) in
            (spelled (to c), into (contains→Member execs n e)),
        λ (x, e). up (
            Member→keep (contains execs) names n (from (trimmed x))
              (Member→contains execs n (back e))),
      ),
    )

get_elem?-Member : (xs : List Text) (i : ℕ) (n : Text) → get_elem? xs i ≡ some n → Member n xs
get_elem?-Member [] i n h = cc
get_elem?-Member (x ∷ xs) zero n h = ground arith
get_elem?-Member (x ∷ xs) (suc i) n h = inr (get_elem?-Member xs i n h)

get_elem?-in_range : (xs : List Text) (i : ℕ) → i < length xs → get_elem? xs i ≢ none
get_elem?-in_range [] i h = elim h [ ]
get_elem?-in_range (x ∷ xs) zero h = λ e. cc
get_elem?-in_range (x ∷ xs) (suc i) h = get_elem?-in_range xs i (omega arith)

module _ (random : ℕ → ℕ) where
  choose-Member : (xs : List Text) (n : Text) → choose random (non_empty xs) ≡ some n → Member n xs
  choose-Member [] n h = cc
  choose-Member (x ∷ xs) n h = get_elem?-Member (x ∷ xs) (random (length (x ∷ xs))) n h

  choose-none :
      (xs : List Text)
      → ((k : ℕ) → 0 < k → random k < k)
      → choose random (non_empty xs) ≡ none
      → xs ≡ []
  choose-none [] fair h = refl
  choose-none (x ∷ xs) fair h =
      let k = length (x ∷ xs) in
      absurd (get_elem?-in_range (x ∷ xs) (random k) (fair k (omega arith)) h)

  module _ (include exclude : List Text) where
    choose-select_from :
        (o : Option (List Text)) (n : Text)
        → choose random (select_from o include exclude) ≡ some n
        → (d : List Text) × (o ≡ some d) × Member n (select d include exclude)
    choose-select_from none n h = cc
    choose-select_from (some d) n h = (d, refl, choose-Member (select d include exclude) n h)

    -- `Pick` returns a discovered name that the lists allow.
    pub Member-pick :
        (f : Finder) (n : Text)
        → pick f random include exclude ≡ some n
        → (d : List Text) × (discover f ≡ some d) × Member n (select d include exclude)
    unfolding pick
    Member-pick f n h = choose-select_from (discover f) n h

    -- `Pick` fails only if a directory cannot be read or no discovered name is allowed, as long as
    -- the random numbers are in range.
    pub pick-none :
        (f : Finder) (d : List Text)
        → ((k : ℕ) → 0 < k → random k < k)
        → discover f ≡ some d
        → pick f random include exclude ≡ none
        → select d include exclude ≡ []
    unfolding pick
    pick-none f d fair found h = choose-none (select d include exclude) fair (rw found at h)
