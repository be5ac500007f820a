-- ===== src/Daemon/Copies.antt =====
-- `onCopyExit` of internal/daemon/daemon.go: its loop ends, within the cap on each monitor's
-- relaunches.
use retrosaver.Prelude.{
  ℕ, zero, suc, ◌+◌, ◌≤◌, ◌≡◌, refl, false, List, [], ◌∷◌, Option, none, some, arith, ◌==◌,
  if◌then◌else◌, leb, Text, ◌⊎◌, inl, if-both,
}
use retrosaver.Daemon.{SaverId, World, CopyExit, Machine, Call}
use retrosaver.Daemon.Watches.{call, is_locked}
use retrosaver.Daemon.Pick.{pick, after}
use retrosaver.Daemon.Exits.{
  max_relaunches, deaths_on, count_death, copy_stays, counted, replacing, try_replace, replace_copy,
  copy_round, copy_rounds, on_copy_exit, finished, put_name,
}

deaths_on-count_death :
    (i j : ℕ) (ds : List (ℕ × ℕ))
    → deaths_on j (count_death i ds) ≡ (if i == j then deaths_on j ds + 1 else deaths_on j ds)
unfolding deaths_on count_death
deaths_on-count_death i j [] = ground arith
deaths_on-count_death i j ((k, n) ∷ ds) = ground (arith, deaths_on-count_death i j ds)

-- The loop has ended, and no monitor's count went past the cap because of it.
abbrev Capped : Machine → Option Machine → Type 0
Capped m none = ⊥
Capped m (some n) =
    (j : ℕ)
    → (deaths_on j n.monitor_deaths ≤ deaths_on j m.monitor_deaths)
      ⊎ (deaths_on j n.monitor_deaths ≤ max_relaunches)

Capped-count :
    (e : CopyExit) (m n : Machine) (o : Option Machine)
    → n.monitor_deaths ≡ count_death e.monitor m.monitor_deaths
    → leb max_relaunches (deaths_on e.monitor m.monitor_deaths) ≡ false
    → Capped n o
    → Capped m o
Capped-count e m n none d few c = c
Capped-count e m n (some r) d few c =
    λ j. ground (arith, c j, deaths_on-count_death e.monitor j m.monitor_deaths)

module _ (w : World) where
  try_replace-Capped :
      (again : Machine → Option Machine) (e : CopyExit) (name : Text) (c : Option SaverId)
      (m : Machine)
      → ((s : SaverId) → Capped m (again (replacing w e s name m)))
      → Capped m (try_replace w again e name c m)
  try_replace-Capped again e name none m k = λ j. inl (omega arith)
  try_replace-Capped again e name (some s) m k =
      if-both (Capped m) (w.replace m.history s e.monitor name)
        (some (put_name e.monitor name (replacing w e s name m))) (again (replacing w e s name m))
        (λ done j. inl (ground arith)) (λ refused. k s)

  replace_copy-Capped :
      (again : Machine → Option Machine) (e : CopyExit) (drawn : Option Text) (m : Machine)
      → ((s : SaverId) (name : Text) → Capped m (again (replacing w e s name m)))
      → Capped m (replace_copy w again e drawn m)
  replace_copy-Capped again e none m k = λ j. inl (omega arith)
  replace_copy-Capped again e (some name) m k =
      try_replace-Capped again e name m.current m (λ s. k s name)

  -- A round that goes on finds the monitor below the cap.
  copy_round-Capped :
      (again : Machine → Option Machine) (e : CopyExit) (m : Machine)
      → (leb max_relaunches (deaths_on e.monitor m.monitor_deaths) ≡ false
          → (n : Machine) → n.monitor_deaths ≡ count_death e.monitor m.monitor_deaths
          → Capped n (again n))
      → Capped m (copy_round w again e m)
  copy_round-Capped again e m k =
      let d = pick w m.current_names (counted w e m) in
      let n = after (counted w e m) d in
      let rest = replace_copy w again e d.result n in
      if-both (Capped m) (copy_stays e m) (some m)
        (if is_locked w m then some (call Call.locked m) else rest) (λ stays j. inl (omega arith))
        λ goes.
          let few = below goes in
          if-both (Capped m) (is_locked w m) (some (call Call.locked m)) rest
            (λ shut j. inl (omega arith))
            λ open_session. Capped-count e m n rest refl few (
              replace_copy-Capped again e d.result n
                (λ s name. k few (replacing w e s name n) refl))
    where
      below :
          copy_stays e m ≡ false → leb max_relaunches (deaths_on e.monitor m.monitor_deaths) ≡ false
      below goes = ground arith

  -- Enough fuel: a round for every death below the cap, and one more.
  copy_rounds-Capped :
      (fuel : ℕ) (e : CopyExit) (m : Machine)
      → max_relaunches ≤ deaths_on e.monitor m.monitor_deaths + fuel
      → Capped m (copy_rounds w (suc fuel) e m)
  unfolding copy_rounds
  copy_rounds-Capped zero e m enough =
      copy_round-Capped (λ n. copy_rounds w zero e n) e m (λ few. absurd (ground arith))
  copy_rounds-Capped (suc fuel) e m enough =
      copy_round-Capped (λ n. copy_rounds w (suc fuel) e n) e m
        λ few n d.
          copy_rounds-Capped fuel e n
            (ground (arith, deaths_on-count_death e.monitor e.monitor m.monitor_deaths))

  -- The loop of `onCopyExit` ends, with at most one round for each relaunch that the cap leaves and
  -- one more, and the count of each monitor that it changes stays within the cap.
  pub on_copy_exit-ends :
      (e : CopyExit) (m : Machine)
      → (n : Machine) × (copy_rounds w (suc max_relaunches) e m ≡ some n)
        × (on_copy_exit w e m ≡ n)
        × ((j : ℕ)
            → (deaths_on j n.monitor_deaths ≤ deaths_on j m.monitor_deaths)
              ⊎ (deaths_on j n.monitor_deaths ≤ max_relaunches))
  unfolding on_copy_exit
  on_copy_exit-ends e m =
      ended (copy_rounds w (suc max_relaunches) e m)
        (copy_rounds-Capped max_relaunches e m (omega arith))
    where
      ended :
          (o : Option Machine)
          → Capped m o
          → (n : Machine) × (o ≡ some n)
            × (finished w m o ≡ n)
            × ((j : ℕ)
                → (deaths_on j n.monitor_deaths ≤ deaths_on j m.monitor_deaths)
                  ⊎ (deaths_on j n.monitor_deaths ≤ max_relaunches))
      ended none c = absurd c
      ended (some n) c = (n, refl, refl, c)
