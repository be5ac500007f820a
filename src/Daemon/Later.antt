-- ===== src/Daemon/Later.antt =====
-- What becomes of a launch's result in internal/daemon/daemon.go however many events later it comes:
-- the generation of the machine only grows, so that a late result stays late.
use retrosaver.Prelude.{
  ℕ, suc, ◌+◌, ◌≤◌, ◌<◌, ◌≡◌, ◌⊎◌, inl, inr, refl, ap, ◌∙◌, Bool, true, false, List, [], ◌∷◌,
  Option, none, some, arith, Bool-cases, length, word, add64,
}
use retrosaver.Config.{Config}
use retrosaver.Daemon.{
  saver, lock, blank, WatchId, WatchKind, saver_watch, cycle_watch, lock_watch, blank_watch,
  active_watch, World, Machine, Call,
}
use retrosaver.Daemon.Watches.{
  call, find_watch, delete_watch, ensure_active_watch, arm_cycle, rearm,
}
use retrosaver.Daemon.Launches.{start_launch, stop_saver}
use retrosaver.Daemon.Stages.{
  on_saver, on_cycle, on_lock, on_blank, on_active, on_found, on_lock_change, handle_watch, reset,
  reload, reloaded, same_config, or_fatal, next_gen,
}
use retrosaver.Daemon.Run.{
  Event, fired, launched, module_done, copy_exit, lock_changed, reload_asked, handle,
}
use retrosaver.Daemon.Screen.{Screen, screen-ensure_active_watch, screen-arm_cycle, screen-rearm}
use retrosaver.Daemon.Sound.Stages.{screen-or_fatal}
use retrosaver.Daemon.Policy.{
  Policy, policy-start_launch, policy-stop_saver, policy-handle_launch, policy-on_module_exit,
  policy-on_copy_exit,
}
use retrosaver.Daemon.Order.{Resets}

pub next_of : (g : ℕ) → suc g < word → next_gen g ≡ suc g
next_of g h = omega arith

module _ (w : World) where
  -- The machine after events.
  abbrev pub after_events : List Event → Machine → Machine
  after_events [] m = m
  after_events (e ∷ es) m = after_events es (handle w e m)

  gen-cycle_and_launch : (m : Machine) → (start_launch w (arm_cycle w m)).gen ≡ m.gen
  gen-cycle_and_launch m =
      ap (λ (p : Policy). p.gen) (policy-start_launch w (arm_cycle w m))
      ∙ ap (λ (s : Screen). s.gen) (screen-arm_cycle w m)

  gen-stop_armed : (m : Machine) → (stop_saver (ensure_active_watch w m)).gen ≡ m.gen
  gen-stop_armed m =
      ap (λ (p : Policy). p.gen) (policy-stop_saver (ensure_active_watch w m))
      ∙ ap (λ (s : Screen). s.gen) (screen-ensure_active_watch w m)

  gen-on_saver : (m : Machine) → (on_saver w m).gen ≡ m.gen
  unfolding on_saver
  gen-on_saver m =
      let m0 = record m { stage = saver } in
      let m' = ensure_active_watch w m0 in
      ground (
        arith,
        ap (λ (s : Screen). s.gen) (screen-ensure_active_watch w m0),
        gen-cycle_and_launch (call Call.locked m'),
      )

  gen-on_cycle : (id : WatchId) (m : Machine) → (on_cycle w id m).gen ≡ m.gen
  unfolding on_cycle
  gen-on_cycle id m =
      let m' = record (call (Call.remove_watch id) m) { watches = delete_watch id m.watches } in
      ground (
        arith,
        gen-cycle_and_launch
            (record (call Call.locked m') { cycles = add64 m.cycles 1; attempts = 0 }),
      )

  pub gen-on_lock : (m : Machine) → (on_lock w m).gen ≡ m.gen
  unfolding on_lock
  gen-on_lock m = ground (arith, gen-stop_armed (record m { stage = lock }))

  gen-on_blank : (m : Machine) → (on_blank w m).gen ≡ m.gen
  unfolding on_blank
  gen-on_blank m = ground (arith, gen-stop_armed (record m { stage = blank }))

  gen-reset : (m : Machine) → (reset w m).gen ≡ next_gen m.gen
  unfolding reset
  gen-reset m = ground arith

  pub gen-rearmed : (m : Machine) → (or_fatal w (rearm w (reset w m))).gen ≡ next_gen m.gen
  gen-rearmed m =
      ap (λ (s : Screen). s.gen)
        (screen-or_fatal w (rearm w (reset w m)) ∙ screen-rearm w (reset w m))
      ∙ gen-reset m

  -- An event leaves the generation or moves it to the next one, which a reset does.
  pub record Moves (resets : Type 0) (g h : ℕ) : Type 0 where
    pub one_step : (h ≡ g) ⊎ (h ≡ next_gen g)
    pub by_reset : resets → h ≡ next_gen g

  stays : {R : Type 0} {g h : ℕ} → ¬ R → h ≡ g → Moves R g h
  stays never e = record { one_step = inl e; by_reset = λ r. absurd (never r) }

  moves : {R : Type 0} {g h : ℕ} → h ≡ next_gen g → Moves R g h
  moves e = record { one_step = inr e; by_reset = λ r. e }

  on_found-Moves :
      (k : Option WatchKind) (id : WatchId) (m : Machine)
      → Moves (k ≡ some active_watch) m.gen (on_found w k id m).gen
  unfolding on_active
  on_found-Moves none id m = stays (λ h. cc) refl
  on_found-Moves (some saver_watch) id m = stays (λ h. cc) (gen-on_saver m)
  on_found-Moves (some cycle_watch) id m = stays (λ h. cc) (gen-on_cycle id m)
  on_found-Moves (some lock_watch) id m = stays (λ h. cc) (gen-on_lock m)
  on_found-Moves (some blank_watch) id m = stays (λ h. cc) (gen-on_blank m)
  on_found-Moves (some active_watch) id m = moves (gen-rearmed m)

  reloaded-Moves :
      (c : Option Config) (m : Machine)
      → Moves
          ((c' : Config) × (c ≡ some c') × (same_config c' m.cfg ≡ false))
          m.gen
          (reloaded w c m).gen
  reloaded-Moves none m = stays (λ (c, e, h). cc) refl
  reloaded-Moves (some c) m = elim (Bool-cases (same_config c m.cfg)) [
    | inl same ↦ rw same (stays (λ (c', e, h). differ c c' e same h) refl)
    | inr changed ↦ rw changed (
        moves (
          gen-rearmed (record (call (Call.set_filters c.include c.exclude) m) {
            cfg = c;
            include = c.include;
            exclude = c.exclude;
          })))
  ]
    where
      differ :
          (c c' : Config)
          → some c ≡ some c'
          → same_config c m.cfg ≡ true
          → same_config c' m.cfg ≡ false
          → ⊥
      differ c c' e s h = cc

  on_lock_change-Moves : (b : Bool) (m : Machine) → Moves ⊥ m.gen (on_lock_change b m).gen
  unfolding on_lock_change
  on_lock_change-Moves b m = record {
    one_step =
        ground (
          arith,
          ap (λ (p : Policy). p.gen) (policy-stop_saver (record m { gen = next_gen m.gen })),
        );
    by_reset = λ r. absurd r;
  }

  pub handle-Moves : (e : Event) (m : Machine) → Moves (Resets w e m) m.gen (handle w e m).gen
  unfolding handle handle_watch reload
  handle-Moves (fired id) m = on_found-Moves (find_watch id m.watches) id m
  handle-Moves (launched r) m =
      stays (λ h. h) (ap (λ (p : Policy). p.gen) (policy-handle_launch w r m))
  handle-Moves module_done m =
      stays (λ h. h) (ap (λ (p : Policy). p.gen) (policy-on_module_exit w m))
  handle-Moves (copy_exit e) m =
      stays (λ h. h) (ap (λ (p : Policy). p.gen) (policy-on_copy_exit w e m))
  handle-Moves (lock_changed b) m = on_lock_change-Moves b m
  handle-Moves reload_asked m = reloaded-Moves (w.load_config m.history) (call Call.load_config m)
  handle-Moves _ m = stays (λ h. h) refl

  -- Below the wrap-around the generation only grows, by one an event at most.
  pub handle-gen :
      (e : Event) (m : Machine)
      → suc m.gen < word
      → (m.gen ≤ (handle w e m).gen) × ((handle w e m).gen ≤ suc m.gen)
  handle-gen e m h = ground (arith, next_of m.gen h, (handle-Moves e m).one_step)

  pub after_events-gen :
      (es : List Event) (m : Machine) → m.gen + length es < word → m.gen ≤ (after_events es m).gen
  after_events-gen [] m h = omega arith
  after_events-gen (e ∷ es) m h =
      let (low, high) = handle-gen e m (omega arith) in
      omega (arith, low, after_events-gen es (handle w e m) (omega arith))
