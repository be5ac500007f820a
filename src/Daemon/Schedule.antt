-- ===== src/Daemon/Schedule.antt =====
-- When the watches of internal/daemon/daemon.go fire: the thresholds of `arm` and `armCycle`.
use retrosaver.Prelude.{
  ℕ, ◌+◌, ◌*◌, ◌^◌, ◌≤◌, ◌<◌, ◌≡◌, ◌⊎◌, inl, inr, refl, sym, ap, subst, ◌∙◌, Option, Bool, true,
  false, ◌&&◌, List, [], ◌∷◌, ◌++◌, none, some, arith, if◌then◌else◌, add64, lt64, le64, half_word,
  Fits64,
}
use retrosaver.Config.{Duration, Config, lock_enabled, blank_enabled, cycle_enabled}
use retrosaver.Daemon.{
  WatchId, WatchKind, saver_watch, lock_watch, blank_watch, World, Machine, Call,
}
use retrosaver.Daemon.Watches.{
  call, added, put_watch, delete_watch, add_idle, then_add, arm, arm_cycle, next_swap, swap_at,
}
use retrosaver.Daemon.Swaps.{next_swap-future}

-- What is watched for, and after what time of no input.
abbrev pub Plan : Type 0
Plan = List (WatchKind × Duration)

abbrev pub also : Bool → WatchKind × Duration → Plan → Plan
also enabled watch plan = if enabled then watch ∷ plan else plan

-- The stages that a config enables, the last first, each at its threshold.
abbrev pub stages_at : Config → Duration → Duration → Plan
stages_at c lock_at blank_at =
    also (blank_enabled c) (blank_watch, blank_at)
      (also (lock_enabled c) (lock_watch, lock_at) ((saver_watch, c.saver_delay) ∷ []))

-- The stages at thresholds that do not wrap.
abbrev pub planned : Config → Plan
planned c =
    stages_at c (c.saver_delay + c.lock_after) (c.saver_delay + c.lock_after + c.blank_after)

abbrev pub calls : Plan → List Call
calls [] = []
calls ((kind, at) ∷ plan) = Call.add_idle_watch at ∷ calls plan

module _ (w : World) where
  -- The map has each watch of the plan, under the id that the monitor gave when it was asked for
  -- the watch's threshold, after the calls of the rest of the plan. (An id given twice stands for
  -- the later watch.)
  abbrev pub IsArmed : Plan → List Call → List (WatchId × WatchKind) → Type 0
  IsArmed [] h watches = watches ≡ []
  IsArmed ((kind, at) ∷ plan) h watches =
      (id : WatchId) × (rest : List (WatchId × WatchKind)) × (w.add_idle_watch (calls plan ++ h) at
        ≡ some id)
      × (watches ≡ (id, kind) ∷ delete_watch id rest)
      × IsArmed plan h rest

  -- A machine that has asked for the plan, on the calls before it, and has its watches.
  abbrev Follows : Plan → List Call → Machine → Type 0
  Follows plan h m = (m.history ≡ calls plan ++ h) × IsArmed plan h m.watches

  added-Follows :
      (kind : WatchKind) (at : Duration) (plan : Plan) (h : List Call) (m : Machine)
      (id : Option WatchId)
      → w.add_idle_watch m.history at ≡ id
      → Follows plan h m
      → (added id kind (call (Call.add_idle_watch at) m)).1 ≡ true
      → Follows ((kind, at) ∷ plan) h (added id kind (call (Call.add_idle_watch at) m)).0
  unfolding put_watch
  added-Follows kind at plan h m none e f ok = cc
  added-Follows kind at plan h m (some id) e (asked, armed) ok = (
    ap (λ cs. Call.add_idle_watch at ∷ cs) asked,
    (id, m.watches, ap (λ cs. w.add_idle_watch cs at) (sym asked) ∙ e, refl, armed),
  )

  add_idle-Follows :
      (kind : WatchKind) (at : Duration) (plan : Plan) (h : List Call) (m : Machine)
      → Follows plan h m
      → (add_idle w at kind m).1 ≡ true
      → Follows ((kind, at) ∷ plan) h (add_idle w at kind m).0
  unfolding add_idle
  add_idle-Follows kind at plan h m = added-Follows kind at plan h m _ refl

  then_add-Follows :
      (enabled : Bool) (kind : WatchKind) (at : Duration) (plan : Plan) (h : List Call)
      (x : Machine × Bool)
      → (x.1 ≡ true → Follows plan h x.0)
      → (then_add w enabled at kind x).1 ≡ true
      → Follows (also enabled (kind, at) plan) h (then_add w enabled at kind x).0
  then_add-Follows true kind at plan h (m, true) f ok =
      add_idle-Follows kind at plan h m (f refl) ok
  then_add-Follows false kind at plan h (m, true) f ok = f refl
  then_add-Follows true kind at plan h (m, false) f ok = cc
  then_add-Follows false kind at plan h (m, false) f ok = cc

  -- When `arm` succeeds it has asked for exactly one watch for each stage that the config enables,
  -- the saver's at SAVER_DELAY, the lock's LOCK_AFTER later and the blank's BLANK_AFTER after that,
  -- as long as the sum of the delays fits an int64; and its map has exactly the ids that the
  -- monitor gave for these, each with its own stage.
  pub arm-planned :
      (m : Machine)
      → Fits64 (m.cfg.saver_delay + m.cfg.lock_after + m.cfg.blank_after)
      → (arm w m).1 ≡ true
      → ((arm w m).0.history ≡ calls (planned m.cfg) ++ m.history)
        × IsArmed (planned m.cfg) m.history (arm w m).0.watches
  unfolding arm
  arm-planned m fits ok =
      let c = m.cfg in
      let lock_at = add64 c.saver_delay c.lock_after in
      let blank_at = add64 lock_at c.blank_after in
      let first = add_idle w c.saver_delay saver_watch (record m { watches = [] }) in
      let plan : Plan = (saver_watch, c.saver_delay) ∷ [] in
      let lock_same : lock_at ≡ c.saver_delay + c.lock_after = omega arith in
      let blank_same : blank_at ≡ c.saver_delay + c.lock_after + c.blank_after = omega arith in
      subst (λ t. Follows t m.history (arm w m).0)
        (ap (λ d. stages_at c d blank_at) lock_same
          ∙ ap (stages_at c (c.saver_delay + c.lock_after)) blank_same)
        (then_add-Follows (blank_enabled c) blank_watch blank_at
          (also (lock_enabled c) (lock_watch, lock_at) plan) m.history
          (then_add w (lock_enabled c) lock_at lock_watch first)
          (then_add-Follows (lock_enabled c) lock_watch lock_at plan m.history first (
            add_idle-Follows saver_watch c.saver_delay [] m.history (record m { watches = [] })
              (refl, refl)))
          ok)

  pub then_add-failed :
      (b : Bool) (d : Duration) (k : WatchKind) (x : Machine × Bool)
      → x.1 ≡ false
      → (then_add w b d k x).1 ≡ false
  then_add-failed b d k (m, ok) e = ground arith

  then_add-rejected :
      (b : Bool) (d : Duration) (k : WatchKind) (x : Machine × Bool)
      → b ≡ true
      → ((h : List Call) → w.add_idle_watch h d ≡ none)
      → (then_add w b d k x).1 ≡ false
  unfolding add_idle
  then_add-rejected b d k (m, ok) on rejects = ground (arith, rejects m.history)

  -- With a lock threshold past the int64 range `arm` fails, since the idle monitor takes no
  -- interval that is not positive, though each of the two delays fits by itself.
  pub arm-overflow :
      (m : Machine)
      → Fits64 m.cfg.saver_delay
      → Fits64 m.cfg.lock_after
      → half_word ≤ m.cfg.saver_delay + m.cfg.lock_after
      → ((h : List Call) (d : Duration) → lt64 0 d ≡ false → w.add_idle_watch h d ≡ none)
      → (arm w m).1 ≡ false
  unfolding arm
  arm-overflow m s l over rejects =
      let c = m.cfg in
      let lock_at = add64 c.saver_delay c.lock_after in
      let first = add_idle w c.saver_delay saver_watch (record m { watches = [] }) in
      then_add-failed (blank_enabled c) (add64 lock_at c.blank_after) blank_watch
        (then_add w (lock_enabled c) lock_at lock_watch first)
        (then_add-rejected (lock_enabled c) lock_at lock_watch first (ground arith)
          (λ h. rejects h lock_at (ground arith)))

and_right : (a b : Bool) → a ≡ true → (a && b) ≡ false → b ≡ false
and_right true b h e = e
and_right false b h e = cc

module _ (w : World) where
  -- What `armCycle` did, by the calls that it made.
  arm_cycle-calls :
      (m : Machine)
      → cycle_enabled m.cfg ≡ true
      → ((arm_cycle w m).history ≡ Call.idletime ∷ m.history)
        ⊎ (((arm_cycle w m).history ≡ Call.add_idle_watch (swap_at w m) ∷ Call.idletime ∷ m.history)
            × ((lock_enabled m.cfg && le64 (add64 m.cfg.saver_delay m.cfg.lock_after) (swap_at w m))
                ≡ false))
  unfolding arm_cycle add_idle
  arm_cycle-calls m on = ground arith

  -- Below the int64 range the threshold is the plain sum, in the future.
  swap_at-plain :
      (m : Machine) (idle : ℕ)
      → m.cfg.saver_delay < 2 ^ 61
      → 0 < m.cfg.cycle_after
      → m.cfg.cycle_after < 2 ^ 61
      → idle < 2 ^ 61
      → m.cycles < 2 ^ 62
      → (m.cycles + 1) * m.cfg.cycle_after < 2 ^ 62
      → w.idletime m.history ≡ some idle
      → (idle < swap_at w m) × (swap_at w m < half_word)
  swap_at-plain m idle s p c i k kc clock =
      let f = next_swap-future m.cfg m.cycles idle (omega arith) p (omega arith) k in
      let n = (next_swap m.cfg m.cycles (some idle)).0 in
      let small : n * m.cfg.cycle_after < 2 ^ 62 + 2 ^ 61 = product n f.3 in
      rw clock (omega (arith, f.0, small), omega (arith, f.0, small))
    where
      product :
          (n : ℕ)
          → (n ≡ m.cycles + 1) ⊎ (n * m.cfg.cycle_after ≤ idle + m.cfg.cycle_after)
          → n * m.cfg.cycle_after < 2 ^ 62 + 2 ^ 61
      product n (inl e) = rw e (omega arith)
      product n (inr h) = omega arith

  before_lock :
      (s l at : ℕ)
      → s < 2 ^ 61
      → l < 2 ^ 61
      → at < half_word
      → le64 (add64 s l) at ≡ false
      → at < s + l
  before_lock s l at hs hl ha h = ground arith

  -- When the monitor answers `Idletime`, `armCycle` asks for one watch at most, and never for a
  -- threshold that has passed by that answer, nor for one at or behind the lock's. (The bounds, of more than seventy years, keep the sums within an
  -- int64.)
  pub arm_cycle-in_time :
      (m : Machine) (idle : ℕ)
      → m.cfg.saver_delay < 2 ^ 61
      → m.cfg.lock_after < 2 ^ 61
      → 0 < m.cfg.cycle_after
      → m.cfg.cycle_after < 2 ^ 61
      → idle < 2 ^ 61
      → m.cycles < 2 ^ 62
      → (m.cycles + 1) * m.cfg.cycle_after < 2 ^ 62
      → w.idletime m.history ≡ some idle
      → ((arm_cycle w m).history ≡ Call.idletime ∷ m.history)
        ⊎ (((arm_cycle w m).history ≡ Call.add_idle_watch (swap_at w m) ∷ Call.idletime ∷ m.history)
            × (idle < swap_at w m)
            × (lock_enabled m.cfg ≡ true → swap_at w m < m.cfg.saver_delay + m.cfg.lock_after))
  arm_cycle-in_time m idle s l p c i k kc clock =
      let (future, fits) = swap_at-plain m idle s p c i k kc clock in
      elim (arm_cycle-calls m (ground arith)) [
        | inl quiet ↦ inl quiet
        | inr (did, early) ↦ inr (
          did,
          future,
          λ on.
              before_lock m.cfg.saver_delay m.cfg.lock_after (swap_at w m) s l fits
                (and_right (lock_enabled m.cfg) _ on early),
        )
      ]
