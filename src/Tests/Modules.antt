-- ===== src/Tests/Modules.antt =====
-- The choice of modules at concrete inputs, by the finder and by the daemon's draw for every
-- monitor.
use retrosaver.Prelude.{
  ◌≡◌, ◌↔◌, inl, inr, refl, true, List, [], ◌∷◌, Option, none, some, arith, Bool-cases,
  if◌then◌else◌, codes, ◌++◌, Member, Text, text_eq, contains, contains→Member, Member→contains,
  Distinct,
}
use retrosaver.Modules.{
  FileInfo, Finder, trim_suffix, configured_names, executable_names, add_name, text_lt,
  insert_sorted, sort_names, keep, discover_in, discover, select, available, pick,
}
use retrosaver.Modules.Laws.{HasExecutable, IsSorted, discover_in_lem}
use retrosaver.Daemon.{World}
use retrosaver.Daemon.Pick.{pick_set}
use retrosaver.Daemon.PickLaws.{IsLawful, DrawnSet, pick_set-Distinct}
use retrosaver.Tests.Worlds.{calm, fresh}

abbrev pub flame : Text
flame = codes "flame"

abbrev pub atlantis : Text
atlantis = codes "atlantis"

abbrev pub runnable : Option FileInfo
runnable = some (record { regular = true; perm = 0o755 })

abbrev pub installed : Finder
installed = record {
  xml_files = some (codes "flame.xml" ∷ codes "atlantis.xml" ∷ codes "gone.xml" ∷ []);
  bin_entries = some ((atlantis, runnable) ∷ (flame, runnable) ∷ (codes "tool", none) ∷ []);
}

discover_in_lem_example :
    IsSorted (discover_in (codes "flame.xml" ∷ []) ((flame, runnable) ∷ []))
    × (Member flame (discover_in (codes "flame.xml" ∷ []) ((flame, runnable) ∷ [])) ↔ (
        Member (flame ++ codes ".xml") (codes "flame.xml" ∷ [])
        × HasExecutable flame ((flame, runnable) ∷ [])))
discover_in_lem_example =
    discover_in_lem (codes "flame.xml" ∷ []) ((flame, runnable) ∷ []) flame ((flame, refl), tt)

pub both_installed : discover installed ≡ some (atlantis ∷ flame ∷ [])
unfolding discover discover_in sort_names insert_sorted text_lt keep contains text_eq
    executable_names configured_names add_name trim_suffix
both_installed = refl

nothing_picked : pick installed (λ k. 0) (codes "gone" ∷ []) [] ≡ none
unfolding pick available select discover discover_in sort_names insert_sorted text_lt keep contains
    text_eq executable_names configured_names add_name trim_suffix
nothing_picked = refl

-- The first name of the pool that is not to be avoided.
abbrev pub first_out : List Text → List Text → Option Text
first_out [] avoid = none
first_out (x ∷ xs) avoid =
    let rest = first_out xs avoid in if contains avoid x then rest else some x

abbrev pub pool : List Text
pool = atlantis ∷ flame ∷ []

abbrev pub choosing : World
choosing = record calm { pick = λ h include exclude avoid. first_out pool avoid }

first_out-hit :
    (xs avoid : List Text) (x : Text)
    → first_out xs avoid ≡ some x
    → Member x xs × (¬ Member x avoid)
first_out-hit [] avoid x h = cc
first_out-hit (y ∷ ys) avoid x h = elim (Bool-cases (contains avoid y)) [
  | inl e ↦ let (m, n) = first_out-hit ys avoid x (rw e at h) in (inr m, n)
  | inr e ↦ let same : x ≡ y = cc in (inl same, λ m. ground (arith, Member→contains avoid y))
]

first_out-miss :
    (xs avoid : List Text) → first_out xs avoid ≡ none → (x : Text) → Member x xs → Member x avoid
first_out-miss [] avoid h x m = elim m [ ]
first_out-miss (y ∷ ys) avoid h x m = elim (Bool-cases (contains avoid y)) [
  | inl e ↦ ground (arith, contains→Member avoid y e, first_out-miss ys avoid (rw e at h) x)
  | inr e ↦ absurd (ground arith)
]

choosing-IsLawful : (include exclude : List Text) → IsLawful choosing include exclude pool
choosing-IsLawful include exclude = record {
  hit = λ h avoid x. first_out-hit pool avoid x;
  miss = λ h avoid. first_out-miss pool avoid;
}

pool-Distinct : Distinct pool
unfolding text_eq
pool-Distinct = (λ m. ground arith, (λ m. m, tt))

pick_set-Distinct_example : DrawnSet choosing pool 2 (pick_set choosing 2 fresh)
pick_set-Distinct_example =
    pick_set-Distinct choosing pool 2 fresh (choosing-IsLawful fresh.include fresh.exclude)
      pool-Distinct (omega arith)
