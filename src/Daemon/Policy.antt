-- ===== src/Daemon/Policy.antt =====
-- The policy half of the machine: the config and the watches, the stage, the generation and what it
-- owes. The operations of internal/daemon/daemon.go that launch and stop modules leave it alone.
use retrosaver.Prelude.{
  ℕ, zero, suc, ◌+◌, ◌≡◌, inl, inr, refl, ◌∙◌, Bool, true, List, Option, none, some, arith,
  Bool-cases, Option-cases, Text,
}
use retrosaver.Config.{Config}
use retrosaver.Daemon.{
  Stage, SaverId, WatchId, WatchKind, LaunchError, LaunchResult, CopyExit, World, Machine, Call,
}
use retrosaver.Daemon.Watches.{call, is_locked}
use retrosaver.Daemon.Pick.{monitors, pick, after}
use retrosaver.Daemon.Launches.{
  start_launch, stop_saver, close_dead, handle_launch, retry, settle, land, close_unless_launching,
}
use retrosaver.Daemon.Stages.{on_lock_change, next_gen}
use retrosaver.Daemon.Exits.{
  on_module_exit, on_copy_exit, copy_rounds, copy_round, try_replace, replace_copy, finished,
  max_relaunches, relaunch, copy_stays, counted, replacing,
}

pub record Policy : Type 0 where
  pub cfg : Config
  pub include : List Text
  pub exclude : List Text
  pub watches : List (WatchId × WatchKind)
  pub stage : Stage
  pub gen : ℕ
  pub blanked : Bool
  pub active_armed : Bool
  pub cycles : ℕ
  pub fatal : Bool

abbrev pub policy : Machine → Policy
policy m = record {
  cfg = m.cfg;
  include = m.include;
  exclude = m.exclude;
  watches = m.watches;
  stage = m.stage;
  gen = m.gen;
  blanked = m.blanked;
  active_armed = m.active_armed;
  cycles = m.cycles;
  fatal = m.fatal;
}

pub policy-stop_saver : (m : Machine) → policy (stop_saver m) ≡ policy m
unfolding stop_saver
policy-stop_saver m = ground arith

module _ (w : World) where
  pub policy-start_launch : (m : Machine) → policy (start_launch w m) ≡ policy m
  unfolding start_launch monitors
  policy-start_launch m = ground arith

  policy-close_dead : (m : Machine) → policy (close_dead m) ≡ policy m
  unfolding close_dead
  policy-close_dead m = ground arith

  policy-close_unless_launching : (m : Machine) → policy (close_unless_launching m) ≡ policy m
  policy-close_unless_launching m = ground (arith, policy-close_dead m)

  policy-retry : (e : LaunchError) (m : Machine) → policy (retry w e m) ≡ policy m
  policy-retry e m = ground (arith, policy-start_launch m)

  policy-land : (r : LaunchResult) (m : Machine) → policy (land w r m) ≡ policy m
  policy-land r m = elim (Option-cases r.error) [
    | inl fine ↦ rw fine (ground arith)
    | inr (e, failed) ↦ rw failed (policy-close_unless_launching (retry w e m) ∙ policy-retry e m)
  ]

  pub policy-handle_launch :
      (r : LaunchResult) (m : Machine) → policy (handle_launch w r m) ≡ policy m
  unfolding handle_launch
  policy-handle_launch r m = ground (arith, policy-land r (settle r m))

  policy-relaunch : (m : Machine) → policy (relaunch w m) ≡ policy m
  policy-relaunch m = ground (
    arith,
    policy-start_launch (record (call Call.locked m) { deaths = m.deaths + 1; attempts = 0 }),
  )

  pub policy-on_module_exit : (m : Machine) → policy (on_module_exit w m) ≡ policy m
  unfolding on_module_exit
  policy-on_module_exit m =
      let m' = record m { current_done = none; dead = true } in
      ground (
        arith,
        policy-close_dead m',
        policy-relaunch m',
        policy-close_unless_launching (relaunch w m'),
      )

  pub policy-on_lock_change :
      (b : Bool) (m : Machine)
      → policy (on_lock_change b m) ≡ record (policy m) { gen = (on_lock_change b m).gen }
  unfolding on_lock_change
  policy-on_lock_change b m = ground (arith, policy-stop_saver (record m { gen = next_gen m.gen }))

  -- A round of the copy loop leaves the stage, if the rounds after it do.
  abbrev Stays : Machine → Option Machine → Type 0
  Stays m none = Unit
  Stays m (some n) = policy n ≡ policy m

  policy-try_replace :
      (again : Machine → Option Machine) (e : CopyExit) (name : Text) (c : Option SaverId)
      (m : Machine)
      → ((n : Machine) → Stays n (again n))
      → Stays m (try_replace w again e name c m)
  policy-try_replace again e name none m k = refl
  policy-try_replace again e name (some s) m k =
      elim (Bool-cases (w.replace m.history s e.monitor name)) [
        | inl done ↦ rw done (ground arith)
        | inr refused ↦ rw refused (k (replacing w e s name m))
      ]

  policy-replace_copy :
      (again : Machine → Option Machine) (e : CopyExit) (drawn : Option Text) (m : Machine)
      → ((n : Machine) → Stays n (again n))
      → Stays m (replace_copy w again e drawn m)
  policy-replace_copy again e none m k = refl
  policy-replace_copy again e (some name) m k = policy-try_replace again e name m.current m k

  policy-copy_round :
      (again : Machine → Option Machine) (e : CopyExit) (m : Machine)
      → ((n : Machine) → Stays n (again n))
      → Stays m (copy_round w again e m)
  policy-copy_round again e m k =
      let d = pick w m.current_names (counted w e m) in
      elim (Bool-cases (copy_stays e m)) [
        | inl stays ↦ rw stays refl
        | inr goes ↦ rw goes (elim (Bool-cases (is_locked w m)) [
          | inl shut ↦ rw shut refl
          | inr unlocked ↦
              rw unlocked (policy-replace_copy again e d.result (after (counted w e m) d) k)
        ])
      ]

  policy-copy_rounds : (fuel : ℕ) (e : CopyExit) (m : Machine) → Stays m (copy_rounds w fuel e m)
  unfolding copy_rounds
  policy-copy_rounds zero e m = tt
  policy-copy_rounds (suc fuel) e m =
      policy-copy_round (λ n. copy_rounds w fuel e n) e m (λ n. policy-copy_rounds fuel e n)

  policy-finished :
      (m : Machine) (o : Option Machine) → Stays m o → policy (finished w m o) ≡ policy m
  policy-finished m none s = refl
  policy-finished m (some n) s = s

  pub policy-on_copy_exit : (e : CopyExit) (m : Machine) → policy (on_copy_exit w e m) ≡ policy m
  unfolding on_copy_exit
  policy-on_copy_exit e m =
      policy-finished m (copy_rounds w (suc max_relaunches) e m)
        (policy-copy_rounds (suc max_relaunches) e m)
