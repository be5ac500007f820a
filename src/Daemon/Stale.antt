-- ===== src/Daemon/Stale.antt =====
-- Launches whose result comes too late, and launches on a locked session, in
-- internal/daemon/daemon.go.
use retrosaver.Prelude.{
  suc, ◌+◌, List, ◌∷◌, length, ◌≤◌, ◌<◌, ◌≡◌, ◌≢◌, inl, inr, refl, ap, ◌∙◌, true, ◌||◌, none, some,
  arith, word, Member, is_some,
}
use retrosaver.Daemon.Sound.Stages.{screen-or_fatal}
use retrosaver.Daemon.{Stage, saver, lock, SaverId, ContextId, LaunchResult, World, Machine, Call}
use retrosaver.Daemon.Watches.{call, ensure_active_watch, rearm}
use retrosaver.Daemon.Launches.{rank, reached, handle_launch, stop_saver}
use retrosaver.Daemon.Stages.{on_lock, on_active, on_lock_change, reset, next_gen}
use retrosaver.Daemon.Screen.{Screen, screen, gen_bound, screen-ensure_active_watch, screen-rearm}
use retrosaver.Daemon.Sound.Parts.{GensBelow-Member}
use retrosaver.Daemon.Run.{Event}
use retrosaver.Daemon.Later.{next_of, after_events, after_events-gen, gen-on_lock}
use retrosaver.Daemon.Past.{IsPast, after_events-IsPast}
use retrosaver.Daemon.Reach.{Reach, Reach-IsSound}

-- The result changes nothing that shows, and the saver that it hands back is stopped.
pub record Discarded (r : LaunchResult) (m n : Machine) : Type 0 where
  pub same_current : n.current ≡ m.current
  pub same_names : n.current_names ≡ m.current_names
  pub same_launches : n.launches ≡ m.launches
  pub stopped : (s : SaverId) → r.saver ≡ some s → Member (Call.stop s) n.history

module _ (w : World) where
  stale-Discarded :
      (r : LaunchResult) (m : Machine) → r.origin.gen ≢ m.gen → Discarded r m (handle_launch w r m)
  unfolding handle_launch
  stale-Discarded r m h = ground arith

  late-Discarded :
      (r : LaunchResult) (m : Machine) → reached lock m ≡ true → Discarded r m (handle_launch w r m)
  unfolding handle_launch
  late-Discarded r m h = ground arith

  -- A launch that was started is of no later generation.
  origin_le :
      {m : Machine} (r : LaunchResult)
      → Reach w m
      → Member r.origin m.launches
      → r.origin.gen ≤ m.gen
  origin_le {m} r reach mem = omega (
    arith,
    GensBelow-Member (gen_bound m.stage m.gen) r.origin m.launches (Reach-IsSound w reach).gens mem,
    bound m.stage,
  )
    where
      bound : (s : Stage) → gen_bound s m.gen ≤ suc m.gen
      bound s = ground arith

  -- A launch started before a new generation is not of that generation.
  origin-ne-next :
      {m : Machine} (r : LaunchResult)
      → Reach w m
      → suc m.gen < word
      → Member r.origin m.launches
      → r.origin.gen ≢ next_gen m.gen
  origin-ne-next {m} r reach h mem e = omega (arith, origin_le r reach mem, next_of m.gen h)

  screen-on_active : (m : Machine) → screen (on_active w m) ≡ screen (reset w m)
  unfolding on_active
  screen-on_active m = screen-or_fatal w (rearm w (reset w m)) ∙ screen-rearm w (reset w m)

  screen-reset : (m : Machine) → ((reset w m).gen ≡ next_gen m.gen) × ((reset w m).current ≡ none)
  unfolding reset
  screen-reset m = ground arith

  -- From a reachable machine, the machine that user activity has reset is without a module; and
  -- the result of a launch that was started before is discarded, whatever it is, and its saver is
  -- stopped, after any sequence of further events that is too short for the generation to wrap.
  pub on_active-discards :
      {m : Machine} (r : LaunchResult) (es : List Event)
      → Reach w m
      → suc m.gen + length es < word
      → Member r.origin m.launches
      → let n = after_events w es (on_active w m) in
        ((on_active w m).current ≡ none) × Discarded r n (handle_launch w r n)
  on_active-discards {m} r es reach h mem =
      let e = screen-on_active m in
      let next : (on_active w m).gen ≡ suc m.gen =
        ap (λ (s : Screen). s.gen) e ∙ (screen-reset m).0 ∙ next_of m.gen (omega arith) in
      (
        ap (λ (s : Screen). s.current) e ∙ (screen-reset m).1,
        stale-Discarded r (after_events w es (on_active w m)) (
            omega (
              arith,
              next,
              origin_le r reach mem,
              after_events-gen w es (on_active w m) (omega (arith, next)),
            )),
      )

  on_lock_change-stops :
      (m : Machine)
      → m.stage ≡ saver
      → (is_some m.current || is_some m.cancel) ≡ true
      → ((on_lock_change true m).gen ≡ next_gen m.gen)
        × ((on_lock_change true m).current ≡ none)
        × ((on_lock_change true m).stage ≡ saver)
        × ((s : SaverId)
            → m.current ≡ some s
            → Member (Call.stop s) (on_lock_change true m).history)
  unfolding on_lock_change stop_saver
  on_lock_change-stops m here up = ground arith

  -- A lock that arrives in the saver stage of a reachable machine with a launch in flight or a
  -- module up, the generation below its wrap-around, keeps the stage as it is, stops the module,
  -- and makes every launch stale that was in flight: its result is discarded when it comes next.
  pub on_lock_change-discards :
      {m : Machine} (r : LaunchResult)
      → Reach w m
      → suc m.gen < word
      → Member r.origin m.launches
      → m.stage ≡ saver
      → (is_some m.current || is_some m.cancel) ≡ true
      → ((on_lock_change true m).current ≡ none)
        × ((on_lock_change true m).stage ≡ saver)
        × ((s : SaverId)
            → m.current ≡ some s
            → Member (Call.stop s) (on_lock_change true m).history)
        × Discarded r (on_lock_change true m) (handle_launch w r (on_lock_change true m))
  on_lock_change-discards {m} r reach h mem here up =
      let n = on_lock_change true m in
      let (g, c, s, t) = on_lock_change-stops m here up in
      (c, s, t, stale-Discarded r n (λ same. origin-ne-next r reach h mem (same ∙ g)))

  -- A stop is a cancel of the launch in flight, then a stop of the module on screen.
  stop_saver-stops :
      (m : Machine)
      → ((stop_saver m).current ≡ none)
        × ((stop_saver m).cancel ≡ none)
        × ((stop_saver m).stage ≡ m.stage)
        × ((s : SaverId) → m.current ≡ some s → Member (Call.stop s) (stop_saver m).history)
        × ((c : ContextId)
            → m.cancel ≡ some c
            → Member (Call.cancel_context c) (stop_saver m).history)
  unfolding stop_saver
  stop_saver-stops m = ground arith

  on_lock-eq :
      (m : Machine)
      → rank m.stage < 2
      → on_lock w m
        ≡ call Call.lock_session (stop_saver (ensure_active_watch w (record m { stage = lock })))
  unfolding on_lock
  on_lock-eq m early = ground arith

  -- What the lock stage has done.
  pub record Locks (m n : Machine) : Type 0 where
    pub in_lock : n.stage ≡ lock
    pub no_module : n.current ≡ none
    pub no_launch : n.cancel ≡ none
    pub before : List Call
    pub locked_last : n.history ≡ Call.lock_session ∷ before
    pub stopped_first : (s : SaverId) → m.current ≡ some s → Member (Call.stop s) before
    pub canceled_first : (c : ContextId) → m.cancel ≡ some c → Member (Call.cancel_context c) before

  on_lock-Locks : (m : Machine) → rank m.stage < 2 → Locks m (on_lock w m)
  on_lock-Locks m early =
      let m0 = record m { stage = lock } in
      let e = screen-ensure_active_watch w m0 in
      let armed = ensure_active_watch w m0 in
      let (c, l, l', s, k) = stop_saver-stops armed in
      rw (on_lock-eq m early) (record {
        in_lock = l' ∙ ap (λ (s : Screen). s.stage) e;
        no_module = c;
        no_launch = l;
        before = (stop_saver armed).history;
        locked_last = refl;
        stopped_first = λ id up. s id (ap (λ (s : Screen). s.current) e ∙ up);
        canceled_first = λ id up. k id (ap (λ (s : Screen). s.cancel) e ∙ up);
      })

  past-Discarded :
      (r : LaunchResult) (m : Machine)
      → IsPast w r.origin.gen m
      → Discarded r m (handle_launch w r m)
  past-Discarded r m (low, inl late) = late-Discarded r m (ground arith)
  past-Discarded r m (low, inr old) = stale-Discarded r m (omega arith)

  -- The lock stage, from any stage before it of a reachable machine, stops the module on screen and
  -- cancels the launch in flight, and then, as its last call, locks the session; and the result of
  -- a launch that was started before is discarded, and its saver is stopped, after any sequence of
  -- further events that is too short for the generation to wrap.
  pub on_lock_lem :
      {m : Machine} (r : LaunchResult) (es : List Event)
      → Reach w m
      → m.gen + length es < word
      → Member r.origin m.launches
      → rank m.stage < 2
      → let n = after_events w es (on_lock w m) in
        Locks m (on_lock w m) × Discarded r n (handle_launch w r n)
  on_lock_lem {m} r es reach h mem early =
      let n = on_lock w m in
      let done = on_lock-Locks m early in
      let same = gen-on_lock w m in
      let ranked : 2 ≤ rank n.stage = rw (done.in_lock) (omega arith) in
      (
        done,
        past-Discarded r (after_events w es n) (
            after_events-IsPast w es r.origin.gen n (omega (arith, same))
              (omega (arith, same, origin_le r reach mem), inl ranked)),
      )
