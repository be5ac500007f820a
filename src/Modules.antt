-- ===== src/Modules.antt =====
-- internal/modules/modules.go: which display modules are installed, which of them the lists allow,
-- and the choice of one. The two directories' contents are arguments, as the os and filepath
-- packages report them.
pub mod Laws
pub mod DistinctNames
pub mod Info
use Prim.Native.Nat.{bit_and}
use retrosaver.Prelude.{
  ℕ, ◌+◌, Bool, true, false, not, ◌&&◌, ◌||◌, List, [], ◌∷◌, ◌++◌, Option, none, some, ltb, ◌==◌,
  if◌then◌else◌, length, get_elem?, Text, codes, text_eq, contains,
}

-- What os.Stat says of a directory entry: a regular file or not, and its permission bits.
pub record FileInfo : Type 0 where
  pub regular : Bool
  pub perm : ℕ

-- `none` for a directory that cannot be read. An entry of the second that cannot be stat'ed has no
-- information.
pub record Finder : Type 0 where
  pub xml_files : Option (List Text)
  pub bin_entries : Option (List (Text × Option FileInfo))

-- The keys of a map[string]bool: each name once.
unfoldable pub add_name : Text → List Text → List Text
add_name n ns = if contains ns n then ns else n ∷ ns

-- strings.TrimSuffix
unfoldable pub trim_suffix : Text → Text → Text
trim_suffix suffix [] = []
trim_suffix suffix (c ∷ cs) =
    let rest = trim_suffix suffix cs in if text_eq suffix (c ∷ cs) then [] else c ∷ rest

unfoldable pub configured_names : List Text → List Text
configured_names [] = []
configured_names (file ∷ files) =
    add_name (trim_suffix (codes ".xml") file) (configured_names files)

abbrev pub executable : Option FileInfo → Bool
executable none = false
executable (some i) = i.regular && not (bit_and i.perm 0o111 == 0)

unfoldable pub executable_names : List (Text × Option FileInfo) → List Text
executable_names [] = []
executable_names ((name, info) ∷ entries) =
    let names = executable_names entries in if executable info then add_name name names else names

-- Go compares strings byte by byte.
unfoldable pub text_lt : Text → Text → Bool
text_lt [] [] = false
text_lt [] (_ ∷ _) = true
text_lt (_ ∷ _) [] = false
text_lt (x ∷ xs) (y ∷ ys) = ltb x y || (x == y && text_lt xs ys)

-- `sort.Strings`, by insertion.
unfoldable pub insert_sorted : Text → List Text → List Text
insert_sorted n [] = n ∷ []
insert_sorted n (x ∷ xs) =
    let rest = insert_sorted n xs in if text_lt x n then x ∷ rest else n ∷ x ∷ xs

unfoldable pub sort_names : List Text → List Text
sort_names [] = []
sort_names (x ∷ xs) = insert_sorted x (sort_names xs)

unfoldable pub keep : (Text → Bool) → List Text → List Text
keep p [] = []
keep p (x ∷ xs) = let rest = keep p xs in if p x then x ∷ rest else rest

unfoldable pub discover_in : List Text → List (Text × Option FileInfo) → List Text
discover_in files entries =
    sort_names (keep (contains (executable_names entries)) (configured_names files))

unfoldable pub discover : Finder → Option (List Text)
unfolding discover_in
discover f = elim f.xml_files [
  | none ↦ none
  | some files ↦ elim f.bin_entries [
    | none ↦ none
    | some entries ↦ some (discover_in files entries)
  ]
]

abbrev pub is_empty : List Text → Bool
is_empty [] = true
is_empty (_ ∷ _) = false

-- The test of `Select` on one name: an empty include list allows all, and exclude wins.
abbrev pub selectable : List Text → List Text → Text → Bool
selectable include exclude name =
    (is_empty include || contains include name) && not (contains exclude name)

unfoldable pub select : List Text → List Text → List Text → List Text
unfolding keep
select discovered include exclude = keep (selectable include exclude) discovered

abbrev pub non_empty : List Text → Option (List Text)
non_empty [] = none
non_empty (x ∷ xs) = some (x ∷ xs)

abbrev pub select_from : Option (List Text) → List Text → List Text → Option (List Text)
select_from none include exclude = none
select_from (some discovered) include exclude = non_empty (select discovered include exclude)

unfoldable pub available : Finder → List Text → List Text → Option (List Text)
available f include exclude = select_from (discover f) include exclude

abbrev pub choose : (ℕ → ℕ) → Option (List Text) → Option Text
choose random none = none
choose random (some names) = get_elem? names (random (length names))

-- `Pick`, with the number that rand.IntN returns for a list of the given length.
unfoldable pub pick : Finder → (ℕ → ℕ) → List Text → List Text → Option Text
unfolding available
pick f random include exclude = choose random (available f include exclude)
