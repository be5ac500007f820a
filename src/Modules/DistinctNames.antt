-- ===== src/Modules/DistinctNames.antt =====
-- internal/modules/modules.go: a name is discovered, and selected, once.
use retrosaver.Prelude.{
  ◌≡◌, inl, inr, refl, sym, ◌∙◌, subst, some-injective, Option-cases, Bool, List, [], ◌∷◌, Option,
  none, some, arith, if-both, Text, codes, contains, Member, Member→contains, Distinct,
}
use retrosaver.Modules.{
  FileInfo, Finder, add_name, trim_suffix, configured_names, executable_names, text_lt,
  insert_sorted, sort_names, keep, discover_in, discover, select, selectable,
}
use retrosaver.Modules.Laws.{Member-insert_sorted, Member-sort_names, keep→Member}

add_name-Distinct : (n : Text) (ns : List Text) → Distinct ns → Distinct (add_name n ns)
unfolding add_name
add_name-Distinct n ns d =
    if-both Distinct (contains ns n) ns (n ∷ ns) (λ _. d)
      λ out. (λ m. let found = Member→contains ns n m in cc, d)

configured_names-Distinct : (files : List Text) → Distinct (configured_names files)
unfolding configured_names
configured_names-Distinct [] = tt
configured_names-Distinct (file ∷ files) =
    add_name-Distinct (trim_suffix (codes ".xml") file) (configured_names files)
      (configured_names-Distinct files)

keep-Distinct : (p : Text → Bool) (ns : List Text) → Distinct ns → Distinct (keep p ns)
unfolding keep
keep-Distinct p [] d = tt
keep-Distinct p (n ∷ ns) (out, d) =
    if-both Distinct (p n) (n ∷ keep p ns) (keep p ns)
      (λ _. (λ m. out (keep→Member p ns n m).0, keep-Distinct p ns d)) λ _. keep-Distinct p ns d

insert_sorted-Distinct :
    (n : Text) (ns : List Text) → ¬ Member n ns → Distinct ns → Distinct (insert_sorted n ns)
unfolding insert_sorted
insert_sorted-Distinct n [] out d = (λ m. m, tt)
insert_sorted-Distinct n (x ∷ ns) out (new, d) =
    if-both Distinct (text_lt x n) (x ∷ insert_sorted n ns) (n ∷ x ∷ ns)
      (λ _. (
        λ m. ground (arith, (Member-insert_sorted x n ns).0 m, out, new),
        insert_sorted-Distinct n ns (λ m. out (inr m)) d,
      ))
      λ _. (out, (new, d))

sort_names-Distinct : (ns : List Text) → Distinct ns → Distinct (sort_names ns)
unfolding sort_names
sort_names-Distinct [] d = tt
sort_names-Distinct (n ∷ ns) (out, d) =
    insert_sorted-Distinct n (sort_names ns) (λ m. out ((Member-sort_names n ns).0 m))
      (sort_names-Distinct ns d)

discover-some :
    (f : Finder) (files : List Text) (entries : List (Text × Option FileInfo))
    → f.xml_files ≡ some files
    → f.bin_entries ≡ some entries
    → discover f ≡ some (discover_in files entries)
unfolding discover
discover-some f files entries e k = rw (e, k) refl

discover-no_xml : (f : Finder) → f.xml_files ≡ none → discover f ≡ none
unfolding discover
discover-no_xml f e = rw e refl

discover-no_bin :
    (f : Finder) (files : List Text)
    → f.xml_files ≡ some files
    → f.bin_entries ≡ none
    → discover f ≡ none
unfolding discover
discover-no_bin f files e k = rw (e, k) refl

discover_in-Distinct :
    (files : List Text) (entries : List (Text × Option FileInfo))
    → Distinct (discover_in files entries)
unfolding discover_in
discover_in-Distinct files entries =
    let names = configured_names files in
    sort_names-Distinct (keep (contains (executable_names entries)) names)
      (keep-Distinct (contains (executable_names entries)) names (configured_names-Distinct files))

pub discover-Distinct : (f : Finder) (d : List Text) → discover f ≡ some d → Distinct d
discover-Distinct f d h = elim (Option-cases f.xml_files) [
  | inl e ↦ let nothing = discover-no_xml f e in cc
  | inr (files, e) ↦ elim (Option-cases f.bin_entries) [
    | inl k ↦ let nothing = discover-no_bin f files e k in cc
    | inr (entries, k) ↦
        subst Distinct (some-injective _ _ (sym (discover-some f files entries e k) ∙ h))
          (discover_in-Distinct files entries)
  ]
]

pub select-Distinct :
    (d include exclude : List Text) → Distinct d → Distinct (select d include exclude)
unfolding select
select-Distinct d include exclude h = keep-Distinct (selectable include exclude) d h
