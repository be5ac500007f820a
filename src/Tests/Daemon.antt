-- ===== src/Tests/Daemon.antt =====
-- The idle state machine at concrete inputs.
use retrosaver.Prelude.{
  ℕ, suc, List, ◌+◌, ◌*◌, ◌≤◌, ◌<◌, ◌≡◌, ◌≢◌, ◌⊎◌, refl, inl, true, false, [], ◌∷◌, ◌++◌, none,
  some, arith, Member, word, codes, length, if◌then◌else◌, lt64,
}
use retrosaver.Config.{Config, defaults, second, lock_enabled}
use retrosaver.Daemon.{
  saver, idle, cycle_watch, active_watch, WatchKind, SaverId, Machine, World, Call, CopyExit,
}
use retrosaver.Daemon.Watches.{
  arm, put_watch, delete_watch, find_watch, ensure_active_watch, is_locked, arm_cycle, swap_at,
}
use retrosaver.Daemon.Pick.{pick_set, pick_more, pick, monitors}
use retrosaver.Daemon.Launches.{rank, start_launch, handle_launch}
use retrosaver.Daemon.Stages.{handle_watch, on_saver, on_active, on_lock, on_lock_change}
use retrosaver.Daemon.Exits.{deaths_on, on_copy_exit, copy_rounds, max_relaunches}
use retrosaver.Daemon.Run.{Event, handle, fired, launched, lock_changed, new_machine}
use retrosaver.Daemon.Reach.{Reach, start, next, Reach-quiet, Reach-no_panic}
use retrosaver.Daemon.Order.{handle-advances}
use retrosaver.Daemon.Stale.{
  Discarded, Locks, on_active-discards, on_lock_change-discards, on_lock_lem,
}
use retrosaver.Daemon.Later.{after_events, handle-gen}
use retrosaver.Daemon.Handed.{no_module_left}
use retrosaver.Daemon.Armed.{count_kind}
use retrosaver.Daemon.ArmedSteps.{Reach-watches}
use retrosaver.Daemon.Copies.{on_copy_exit-ends}
use retrosaver.Daemon.Schedule.{
  planned, calls, IsArmed, arm-planned, arm-overflow, arm_cycle-in_time,
}
use retrosaver.Tests.Worlds.{calm, fresh, starting, first_launch, late_success}

fresh_gen : fresh.gen ≡ 0
unfolding arm
fresh_gen = refl

starting_launches : starting.launches ≡ first_launch ∷ []
unfolding handle handle_watch arm on_saver ensure_active_watch arm_cycle start_launch find_watch
    pick_set pick_more monitors put_watch delete_watch pick is_locked
starting_launches = refl

starting_stage : (starting.stage ≡ saver) × (starting.gen ≡ 0) × (starting.cancel ≡ some 0)
unfolding handle handle_watch arm on_saver ensure_active_watch arm_cycle start_launch find_watch
    pick_set pick_more monitors put_watch delete_watch pick is_locked
starting_stage = (refl, refl, refl)

fresh-Reach : Reach calm fresh
fresh-Reach = start defaults []

pub starting-Reach : Reach calm starting
starting-Reach = next (fired 0) fresh-Reach (rw fresh_gen (omega arith)) tt

pub first_launch-Member : Member late_success.origin starting.launches
first_launch-Member = rw starting_launches (inl refl)

pub small_gen : suc starting.gen < word
small_gen = rw (starting_stage.1) (omega arith)

fresh_stage : fresh.stage ≡ idle
unfolding arm
fresh_stage = refl

Reach-quiet_example :
    (fresh.current ≡ none)
    × (fresh.cancel ≡ none)
    × (fresh.current_done ≡ none)
    × (fresh.current_exits ≡ none)
    × (fresh.dead ≡ false)
Reach-quiet_example = Reach-quiet calm fresh-Reach (rw fresh_stage (λ e. cc))

Reach-no_panic_example : starting.panicked ≡ false
Reach-no_panic_example = Reach-no_panic calm starting-Reach

-- The launch succeeds, and then the session is locked.
abbrev shown_and_locked : List Event
shown_and_locked = launched late_success ∷ lock_changed true ∷ []

shown_gen : suc (handle calm (launched late_success) starting).gen < word
shown_gen =
    omega (arith, starting_stage.1, (handle-gen calm (launched late_success) starting small_gen).1)

no_module_left_example :
    let n = after_events calm shown_and_locked starting in
    ((n.current ≡ some 7) ⊎ Member (Call.stop 7) n.history)
    × (n.stage ≢ saver → Member (Call.stop 7) n.history)
no_module_left_example =
    no_module_left calm 7 shown_and_locked starting-Reach
      (small_gen, (first_launch-Member, λ e. refl), inl refl, (shown_gen, tt, tt, tt)) (inl refl)

-- User activity comes back to the saver stage before the first launch's result does.
abbrev saver_again : List Event
saver_again = fired 0 ∷ lock_changed true ∷ []

on_active-discards_example :
    let n = after_events calm saver_again (on_active calm starting) in
    ((on_active calm starting).current ≡ none)
    × Discarded late_success n (handle_launch calm late_success n)
on_active-discards_example =
    on_active-discards calm late_success saver_again starting-Reach
      (rw (starting_stage.1) (omega arith)) first_launch-Member

on_lock_change-discards_example :
    ((on_lock_change true starting).current ≡ none)
    × ((on_lock_change true starting).stage ≡ saver)
    × ((s : SaverId)
        → starting.current ≡ some s
        → Member (Call.stop s) (on_lock_change true starting).history)
    × Discarded late_success
        (on_lock_change true starting)
        (handle_launch calm late_success (on_lock_change true starting))
on_lock_change-discards_example =
    on_lock_change-discards calm late_success starting-Reach small_gen first_launch-Member
      starting_stage.0 (ground (arith, starting_stage))

on_lock_lem_example :
    let n = after_events calm saver_again (on_lock calm starting) in
    Locks calm starting (on_lock calm starting)
    × Discarded late_success n (handle_launch calm late_success n)
on_lock_lem_example =
    on_lock_lem calm late_success saver_again starting-Reach (rw (starting_stage.1) (omega arith))
      first_launch-Member (ground (arith, starting_stage))

handle-advances_example :
    rank starting.stage ≤ rank (handle calm (launched late_success) starting).stage
handle-advances_example = handle-advances calm (launched late_success) starting (λ h. h)

Reach-watches_example :
    (length starting.watches ≤ 5)
    × ((k : WatchKind) → count_kind k starting.watches ≤ 1)
    × (starting.stage ≡ idle
        → (count_kind active_watch starting.watches ≡ 0)
          × (count_kind cycle_watch starting.watches ≡ 0))
Reach-watches_example = Reach-watches calm starting-Reach

abbrev second_screen : CopyExit
second_screen = record { monitor = 1; name = codes "flame" }

on_copy_exit-ends_example :
    (n : Machine) × (copy_rounds calm (suc max_relaunches) second_screen starting ≡ some n)
    × (on_copy_exit calm second_screen starting ≡ n)
    × ((j : ℕ)
        → (deaths_on j n.monitor_deaths ≤ deaths_on j starting.monitor_deaths)
          ⊎ (deaths_on j n.monitor_deaths ≤ max_relaunches))
on_copy_exit-ends_example = on_copy_exit-ends calm second_screen starting

arm-planned_example :
    ((arm calm (new_machine defaults [])).0.history ≡ calls (planned defaults) ++ [])
    × IsArmed calm (planned defaults) [] (arm calm (new_machine defaults [])).0.watches
unfolding arm
arm-planned_example = arm-planned calm (new_machine defaults []) (omega arith) refl

-- The two longest delays that the config file can hold.
abbrev longest : Config
longest = record defaults {
  saver_delay = 9_223_372_036 * second;
  lock_after = 9_223_372_036 * second;
}

abbrev strict : World
strict = record calm { add_idle_watch = λ h d. if lt64 0 d then some (length h) else none }

arm-overflow_example : (arm strict (new_machine longest [])).1 ≡ false
arm-overflow_example =
    arm-overflow strict (new_machine longest []) (omega arith) (omega arith) (omega arith)
      (λ h d bad. rw bad)

arm_cycle-in_time_example :
    let m = record (new_machine defaults []) { stage = saver } in
    ((arm_cycle calm m).history ≡ Call.idletime ∷ m.history)
    ⊎ (((arm_cycle calm m).history
          ≡ Call.add_idle_watch (swap_at calm m) ∷ Call.idletime ∷ m.history)
        × (300 * second < swap_at calm m)
        × (lock_enabled m.cfg ≡ true → swap_at calm m < m.cfg.saver_delay + m.cfg.lock_after))
arm_cycle-in_time_example =
    arm_cycle-in_time calm (record (new_machine defaults []) { stage = saver }) (300 * second)
      (omega arith) (omega arith) (omega arith) (omega arith) (omega arith) (omega arith)
      (omega arith) refl
