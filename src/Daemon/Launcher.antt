-- ===== src/Daemon/Launcher.antt =====
-- internal/daemon/daemon.go: `realLauncher` picks with the finder of internal/modules/modules.go,
-- so the daemon draws the modules that are installed and selectable.
use retrosaver.Prelude.{
  ℕ, ◌<◌, ◌≤◌, ◌≡◌, inl, inr, sym, ◌∙◌, subst, some-injective, List, [], ◌∷◌, ◌++◌, Option, none,
  some, length, Text, Member, contains, contains→Member, Member→contains, Bool-cases,
}
use retrosaver.Daemon.{World, Machine, Call}
use retrosaver.Daemon.Pick.{pick_set}
use retrosaver.Daemon.PickLaws.{
  IsLawful, DrawnSet, pick_set-Distinct, Member-append_left, Member-append_right, Member-append,
}
use retrosaver.Modules.{Finder, discover, select}
use retrosaver.Modules.Laws.{Member-select, Member-pick, pick-none}
use retrosaver.Modules.DistinctNames.{discover-Distinct, select-Distinct}

-- `realLauncher.Pick`, with the lists that SetFilters gave it: the avoided names are excluded, too.
unfoldable pub launcher_pick : Finder → (ℕ → ℕ) → List Text → List Text → List Text → Option Text
launcher_pick f random include exclude avoid =
    retrosaver.Modules.pick f random include (exclude ++ avoid)

-- The daemon's launcher is the real one.
abbrev pub with_launcher : Finder → (List Call → ℕ → ℕ) → World → World
with_launcher f random w = record w { pick = λ h. launcher_pick f (random h) }

Member-nil : (x : Text) (xs : List Text) → xs ≡ [] → ¬ Member x xs
Member-nil x [] e m = m
Member-nil x (y ∷ ys) e m = cc

module _ (f : Finder) (d : List Text) (found : discover f ≡ some d) where
  launcher_pick-hit :
      (random : ℕ → ℕ) (include exclude avoid : List Text) (x : Text)
      → launcher_pick f random include exclude avoid ≡ some x
      → Member x (select d include exclude) × (¬ Member x avoid)
  unfolding launcher_pick
  launcher_pick-hit random include exclude avoid x h =
      let (d', same, m) = Member-pick random include (exclude ++ avoid) f x h in
      let equal : d' ≡ d = some-injective d' d (sym same ∙ found) in
      let (known, into, out) =
        (Member-select d include (exclude ++ avoid) x).0
          (subst (λ xs. Member x (select xs include (exclude ++ avoid))) equal m) in
      (
        (Member-select d include exclude x).1
            (known, into, λ m'. out (Member-append_left x exclude avoid m')),
        λ m'. out (Member-append_right x exclude avoid m'),
      )

  launcher_pick-miss :
      (random : ℕ → ℕ) (include exclude avoid : List Text)
      → ((k : ℕ) → 0 < k → random k < k)
      → launcher_pick f random include exclude avoid ≡ none
      → (x : Text) → Member x (select d include exclude)
      → Member x avoid
  unfolding launcher_pick
  launcher_pick-miss random include exclude avoid fair h x m =
      let (known, into, out) = (Member-select d include exclude x).0 m in
      elim (Bool-cases (contains avoid x)) [
        | inl e ↦ contains→Member avoid x e
        | inr e ↦
            let left_out : ¬ Member x (exclude ++ avoid) = λ m'.
              elim (Member-append x exclude avoid m') [
                | inl denied ↦ out denied
                | inr avoided ↦ let c = Member→contains avoid x avoided in cc
              ] in
            let nothing = pick-none random include (exclude ++ avoid) f d fair found h in
            absurd (
              Member-nil x (select d include (exclude ++ avoid)) nothing
                ((Member-select d include (exclude ++ avoid) x).1 (known, into, left_out)))
      ]

  module _ (random : List Call → ℕ → ℕ)
      (fair : (h : List Call) (k : ℕ) → 0 < k → random h k < k) where
    launcher-IsLawful :
        (w : World) (include exclude : List Text)
        → IsLawful (with_launcher f random w) include exclude (select d include exclude)
    launcher-IsLawful w include exclude = record {
      hit = λ h avoid x e. launcher_pick-hit (random h) include exclude avoid x e;
      miss = λ h avoid e x m. launcher_pick-miss (random h) include exclude avoid (fair h) e x m;
    }

    -- The daemon with the real launcher, whose finder can read both directories and whose random
    -- numbers are in range: with MONITORS=different, while the lists let through as many discovered
    -- modules as there are monitors, `pickSet` gives every monitor a discovered module of its own
    -- that the lists allow.
    pub launcher-pick_set :
        (w : World) (n : ℕ) (m : Machine)
        → n ≤ length (select d m.include m.exclude)
        → DrawnSet
            (with_launcher f random w)
            (select d m.include m.exclude)
            n
            (pick_set (with_launcher f random w) n m)
    launcher-pick_set w n m fits =
        pick_set-Distinct (with_launcher f random w) (select d m.include m.exclude) n m
          (launcher-IsLawful w m.include m.exclude)
          (select-Distinct d m.include m.exclude (discover-Distinct f d found)) fits
