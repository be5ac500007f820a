-- ===== src/Daemon/Screen.antt =====
-- What the machine has on screen and in flight, apart from the rest of its state, and which
-- operations of internal/daemon/daemon.go leave it alone.
use retrosaver.Prelude.{ℕ, suc, ◌<◌, ◌≡◌, Bool, true, false, List, Option, arith, All, is_some}
use retrosaver.Daemon.{Stage, idle, SaverId, ContextId, World, Launch, Machine}
use retrosaver.Daemon.Watches.{arm, rearm, ensure_active_watch, arm_cycle}
use retrosaver.Daemon.Launches.{is_saver_stage}

pub record Screen : Type 0 where
  pub stage : Stage
  pub gen : ℕ
  pub cancel : Option ContextId
  pub current : Option SaverId
  pub current_done : Option SaverId
  pub current_exits : Option SaverId
  pub dead : Bool
  pub launches : List Launch
  pub panicked : Bool

abbrev pub screen : Machine → Screen
screen m = record {
  stage = m.stage;
  gen = m.gen;
  cancel = m.cancel;
  current = m.current;
  current_done = m.current_done;
  current_exits = m.current_exits;
  dead = m.dead;
  launches = m.launches;
  panicked = m.panicked;
}

abbrev pub GensBelow : ℕ → List Launch → Type 0
GensBelow n = All (λ l. l.gen < n)

-- In the idle stage no launch of the current generation exists.
abbrev pub gen_bound : Stage → ℕ → ℕ
gen_bound idle g = g
gen_bound _ g = suc g

pub record IsSound (s : Screen) : Type 0 where
  pub done_current : is_some s.current_done ≡ true → is_some s.current ≡ true
  pub exits_current : is_some s.current_exits ≡ true → is_some s.current ≡ true
  pub dead_current : s.dead ≡ true → is_some s.current ≡ true
  pub dead_done : s.dead ≡ true → is_some s.current_done ≡ false
  pub dead_exits : s.dead ≡ true → is_some s.current_exits ≡ false
  pub one_channel : is_some s.current_done ≡ true → is_some s.current_exits ≡ false
  pub quiet_current : is_saver_stage s.stage ≡ false → is_some s.current ≡ false
  pub quiet_cancel : is_saver_stage s.stage ≡ false → is_some s.cancel ≡ false
  pub gens : GensBelow (gen_bound s.stage s.gen) s.launches
  pub no_panic : s.panicked ≡ false

module _ (w : World) where
  pub screen-ensure_active_watch : (m : Machine) → screen (ensure_active_watch w m) ≡ screen m
  unfolding ensure_active_watch
  screen-ensure_active_watch m = ground arith

  pub screen-arm_cycle : (m : Machine) → screen (arm_cycle w m) ≡ screen m
  unfolding arm_cycle
  screen-arm_cycle m = ground arith

  pub screen-arm : (m : Machine) → screen (arm w m).0 ≡ screen m
  unfolding arm
  screen-arm m = ground arith

  pub screen-rearm : (m : Machine) → screen (rearm w m).0 ≡ screen m
  unfolding rearm
  screen-rearm m = ground arith
