-- ===== src/Daemon/Past.antt =====
-- When no launch of a generation can reach the screen of internal/daemon/daemon.go any more: the
-- lock stage has come, or a new generation has.
use retrosaver.Prelude.{
  ℕ, suc, ◌+◌, ◌≤◌, ◌<◌, ◌≡◌, ◌⊎◌, inl, inr, refl, true, false, List, [], ◌∷◌, Option, none, some,
  arith, Bool-cases, length, word,
}
use retrosaver.Config.{Config}
use retrosaver.Daemon.{
  WatchKind, saver_watch, cycle_watch, lock_watch, blank_watch, active_watch, World, Machine,
}
use retrosaver.Daemon.Watches.{find_watch}
use retrosaver.Daemon.Launches.{rank}
use retrosaver.Daemon.Stages.{same_config, next_gen}
use retrosaver.Daemon.Run.{Event, fired, reload_asked, handle}
use retrosaver.Daemon.Order.{Resets, handle-advances}
use retrosaver.Daemon.Later.{handle-Moves, handle-gen, after_events}

is_active_or_not : (k : Option WatchKind) → (k ≡ some active_watch) ⊎ (¬ (k ≡ some active_watch))
is_active_or_not (some active_watch) = inl refl
is_active_or_not none = inr (λ h. cc)
is_active_or_not (some saver_watch) = inr (λ h. cc)
is_active_or_not (some cycle_watch) = inr (λ h. cc)
is_active_or_not (some lock_watch) = inr (λ h. cc)
is_active_or_not (some blank_watch) = inr (λ h. cc)

abbrev Differs : Option Config → Config → Type 0
Differs o cfg = (c : Config) × (o ≡ some c) × (same_config c cfg ≡ false)

changed_or_not : (o : Option Config) (cfg : Config) → Differs o cfg ⊎ (¬ Differs o cfg)
changed_or_not none cfg = inr (λ (c, e, h). cc)
changed_or_not (some c) cfg = elim (Bool-cases (same_config c cfg)) [
  | inl same ↦ inr (λ (c', e, h). clash c c' cfg e same h)
  | inr changed ↦ inl (c, refl, changed)
]
  where
    clash :
        (c c' cfg : Config)
        → some c ≡ some c'
        → same_config c cfg ≡ true
        → same_config c' cfg ≡ false
        → ⊥
    clash c c' cfg e s h = cc

module _ (w : World) where
  restarts_or_not : (e : Event) (m : Machine) → Resets w e m ⊎ (¬ Resets w e m)
  restarts_or_not (fired id) m = is_active_or_not (find_watch id m.watches)
  restarts_or_not reload_asked m = changed_or_not (w.load_config m.history) m.cfg
  restarts_or_not _ m = inr (λ h. h)

  -- The launches of a generation are past: the machine has reached the lock stage, or a later
  -- generation.
  abbrev pub IsPast : ℕ → Machine → Type 0
  IsPast g m = (g ≤ m.gen) × ((2 ≤ rank m.stage) ⊎ (g < m.gen))

  handle-IsPast :
      (e : Event) (g : ℕ) (m : Machine) → suc m.gen < word → IsPast g m → IsPast g (handle w e m)
  handle-IsPast e g m h (low, past) =
      let (up, most) = handle-gen w e m h in
      elim (restarts_or_not e m) [
        | inl r ↦
            let next : (handle w e m).gen ≡ next_gen m.gen = (handle-Moves w e m).by_reset r in
            let more : next_gen m.gen ≡ suc m.gen = omega arith in
            (omega (arith, up), inr (omega (arith, next, more)))
        | inr never ↦
            (omega (arith, up), onward (handle w e m) past up (handle-advances w e m never))
      ]
    where
      onward :
          (n : Machine)
          → (2 ≤ rank m.stage) ⊎ (g < m.gen)
          → m.gen ≤ n.gen
          → rank m.stage ≤ rank n.stage
          → (2 ≤ rank n.stage) ⊎ (g < n.gen)
      onward n (inl late) up k = inl (omega arith)
      onward n (inr old) up k = inr (omega arith)

  pub after_events-IsPast :
      (es : List Event) (g : ℕ) (m : Machine)
      → m.gen + length es < word
      → IsPast g m
      → IsPast g (after_events w es m)
  after_events-IsPast [] g m h p = p
  after_events-IsPast (e ∷ es) g m h p =
      let (up, most) = handle-gen w e m (omega arith) in
      after_events-IsPast es g (handle w e m) (omega (arith, most))
        (handle-IsPast e g m (omega arith) p)
