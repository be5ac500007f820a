-- ===== src/Daemon/Exits.antt =====
-- internal/daemon/daemon.go: `onModuleExit` and `onCopyExit`, the relaunch of modules that die on
-- screen.
use retrosaver.Prelude.{
  ℕ, zero, suc, ◌+◌, Bool, true, not, ◌||◌, List, [], ◌∷◌, ◌++◌, Option, none, some, ltb, leb, ◌==◌,
  if◌then◌else◌, is_some, length, set, Text,
}
use retrosaver.Daemon.{SaverId, World, CopyExit, Machine, Call}
use retrosaver.Daemon.Watches.{call, is_locked}
use retrosaver.Daemon.Pick.{after, pick}
use retrosaver.Daemon.Launches.{is_saver_stage, start_launch, close_dead, close_unless_launching}

abbrev pub max_relaunches : ℕ
max_relaunches = 3

-- The last two cases of the switch: nothing goes up on a locked session.
abbrev pub relaunch : World → Machine → Machine
relaunch w m =
    let asked = call Call.locked m in
    if is_locked w m
    then asked
    else start_launch w (record asked { deaths = m.deaths + 1; attempts = 0 })

unfoldable pub on_module_exit : World → Machine → Machine
unfolding close_dead
on_module_exit w m =
    let m' = record m { current_done = none; dead = true } in
    if not (is_saver_stage m.stage)
    then close_unless_launching m'
    else if is_some m.cancel
    then m'
    else close_unless_launching (if leb max_relaunches m.deaths then m' else relaunch w m')

-- `m.monitorDeaths`, where a monitor that is not in the map counts 0.
unfoldable pub deaths_on : ℕ → List (ℕ × ℕ) → ℕ
deaths_on i [] = 0
deaths_on i ((j, n) ∷ ds) = if i == j then n else deaths_on i ds

unfoldable pub count_death : ℕ → List (ℕ × ℕ) → List (ℕ × ℕ)
count_death i [] = (i, 1) ∷ []
count_death i ((j, n) ∷ ds) = if i == j then (j, n + 1) ∷ ds else (j, n) ∷ count_death i ds

-- `m.currentNames[i] = name`, which panics out of range.
abbrev pub put_name : ℕ → Text → Machine → Machine
put_name i name m =
    if ltb i (length m.current_names)
    then record m { current_names = set m.current_names i name }
    else record m { panicked = true }

abbrev pub copy_stays : CopyExit → Machine → Bool
copy_stays e m =
    not (is_saver_stage m.stage)
    || is_some m.cancel
    || leb max_relaunches (deaths_on e.monitor m.monitor_deaths)

module _ (w : World) where
  -- The death is counted and another module drawn.
  abbrev pub counted : CopyExit → Machine → Machine
  counted e m = record (call Call.locked m) {
    monitor_deaths = count_death e.monitor m.monitor_deaths;
  }

  abbrev pub replacing : CopyExit → SaverId → Text → Machine → Machine
  replacing e s name m = record m {
    used = m.used ++ name ∷ [];
    history = Call.replace s e.monitor name ∷ m.history;
  }

  -- `Replace`, on a saver that is not nil. `again` is the loop's next round.
  abbrev pub try_replace :
      (Machine → Option Machine) → CopyExit → Text → Option SaverId → Machine → Option Machine
  try_replace again e name none m = some (record m { panicked = true })
  try_replace again e name (some s) m =
      let done = replacing e s name m in
      if w.replace m.history s e.monitor name
      then some (put_name e.monitor name done)
      else again done

  abbrev pub replace_copy :
      (Machine → Option Machine) → CopyExit → Option Text → Machine → Option Machine
  replace_copy again e none m = some m
  replace_copy again e (some name) m = try_replace again e name m.current m

  abbrev pub copy_round : (Machine → Option Machine) → CopyExit → Machine → Option Machine
  copy_round again e m =
      let d = pick w m.current_names (counted e m) in
      if copy_stays e m
      then some m
      else if is_locked w m
      then some (call Call.locked m)
      else replace_copy again e d.result (after (counted e m) d)

  -- The loop of `onCopyExit` with fuel; `none` means that the fuel ran out.
  unfoldable pub copy_rounds : ℕ → CopyExit → Machine → Option Machine
  unfolding deaths_on count_death
  copy_rounds zero e m = none
  copy_rounds (suc fuel) e m = copy_round (λ m'. copy_rounds fuel e m') e m

  abbrev pub finished : Machine → Option Machine → Machine
  finished m none = m
  finished m (some m') = m'

  -- Every round that goes on counts a death, so the cap and one round more are enough fuel.
  unfoldable pub on_copy_exit : CopyExit → Machine → Machine
  unfolding copy_rounds
  on_copy_exit e m = finished m (copy_rounds (suc max_relaunches) e m)
