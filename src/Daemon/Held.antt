-- ===== src/Daemon/Held.antt =====
-- No module is left behind: what becomes of the savers that launches hand to the machine of
-- internal/daemon/daemon.go.
use retrosaver.Prelude.{
  ℕ, zero, suc, ◌+◌, ◌≡◌, ◌⊎◌, inl, inr, refl, true, not, ◌||◌, List, [], ◌∷◌, ◌++◌, Option, none,
  some, arith, Option-cases, if-both, if◌then◌else◌, is_some, leb, Text, Member, ◌==◌,
}
use retrosaver.Daemon.{lock, SaverId, LaunchError, LaunchResult, CopyExit, World, Machine, Call}
use retrosaver.Daemon.Watches.{call, is_locked}
use retrosaver.Daemon.Pick.{after, pick, pick_more, pick_set, monitors}
use retrosaver.Daemon.Launches.{
  is_saver_stage, reached, start_launch, launch_drawn, stop_saver, close_dead, handle_launch, retry,
  settle, land, close_unless_launching, stop_current, take_over,
}
use retrosaver.Daemon.Exits.{
  on_module_exit, on_copy_exit, copy_rounds, copy_round, try_replace, replace_copy, finished,
  max_relaunches, relaunch, copy_stays, counted, replacing,
}

module _ (w : World) (s : SaverId) where
  -- The saver is on screen, or it has been stopped.
  abbrev pub Held : Machine → Type 0
  Held m = (m.current ≡ some s) ⊎ Member (Call.stop s) m.history

  pick-Held : (also : List Text) (m : Machine) → Held m → Held (after m (pick w also m))
  unfolding pick
  pick-Held also m h = ground arith

  pick_more-Held :
      (n : ℕ) (names : List Text) (m : Machine) → Held m → Held (after m (pick_more w n names m))
  unfolding pick_more
  pick_more-Held zero names m h = h
  pick_more-Held (suc n) names m h =
      let d = pick w names m in
      elim (Option-cases d.result) [
        | inl nothing ↦ rw nothing (pick-Held names m h)
        | inr (name, drawn) ↦
            rw drawn (pick_more-Held n (names ++ name ∷ []) (after m d) (pick-Held names m h))
      ]

  launch_drawn-Held : (o : Option (List Text)) (m : Machine) → Held m → Held (launch_drawn o m)
  launch_drawn-Held none m h = h
  launch_drawn-Held (some names) m h = ground arith

  monitors-Held : (m : Machine) → Held m → Held (monitors w m).0
  unfolding monitors
  monitors-Held m h = ground arith

  pub start_launch-Held : (m : Machine) → Held m → Held (start_launch w m)
  unfolding start_launch pick_set
  start_launch-Held m h =
      let r = monitors w m in
      let d = pick_more w r.1 [] r.0 in
      launch_drawn-Held d.result (after r.0 d) (pick_more-Held r.1 [] r.0 (monitors-Held m h))

  pub stop_saver-Held : (m : Machine) → Held m → Held (stop_saver m)
  unfolding stop_saver
  stop_saver-Held m h = ground arith

  close_dead-Held : (m : Machine) → Held m → Held (close_dead m)
  unfolding close_dead
  close_dead-Held m h = ground arith

  close_unless_launching-Held : (m : Machine) → Held m → Held (close_unless_launching m)
  close_unless_launching-Held m h =
      if-both Held (is_some m.cancel) m (close_dead m) (λ _. h) (λ _. close_dead-Held m h)

  retry-Held : (e : LaunchError) (m : Machine) → Held m → Held (retry w e m)
  retry-Held e m h = ground (arith, start_launch-Held m h)

  take_over-Held :
      (names : List Text) (o : Option SaverId) (m : Machine) → Held m → Held (take_over names o m)
  take_over-Held names none m h = h
  take_over-Held names (some t) m h = ground arith

  land-Held : (r : LaunchResult) (m : Machine) → Held m → Held (land w r m)
  land-Held r m h = elim (Option-cases r.error) [
    | inl fine ↦ rw fine (take_over-Held r.origin.names r.saver m h)
    | inr (e, failed) ↦ rw failed (close_unless_launching-Held (retry w e m) (retry-Held e m h))
  ]

  settle-Held : (r : LaunchResult) (m : Machine) → Held m → Held (settle r m)
  settle-Held r m h = ground arith

  stop_current-Held : (o : Option SaverId) (m : Machine) → Held m → Held (stop_current o m)
  stop_current-Held none m h = h
  stop_current-Held (some t) m h = ground arith

  pub handle_launch-Held : (r : LaunchResult) (m : Machine) → Held m → Held (handle_launch w r m)
  unfolding handle_launch
  handle_launch-Held r m h =
      let m' = settle r m in
      let h' = settle-Held r m h in
      if-both Held (not (r.origin.gen == m'.gen) || reached lock m') (stop_current r.saver m')
        (land w r m') (λ _. stop_current-Held r.saver m' h') (λ _. land-Held r m' h')

  -- A result without an error, or without a saver, hands over what it has.
  pub handed-Held :
      (r : LaunchResult) (m : Machine)
      → (r.error ≡ none) ⊎ (r.saver ≡ none)
      → r.saver ≡ some s
      → Held (handle_launch w r m)
  unfolding handle_launch
  handed-Held r m (inr no_saver) e = cc
  handed-Held r m (inl fine) e =
      let m' = settle r m in
      if-both Held (not (r.origin.gen == m'.gen) || reached lock m') (stop_current r.saver m')
        (land w r m') (λ _. rw e (inr (inl refl))) (λ _. rw fine (rw e (inl refl)))

  relaunch-Held : (m : Machine) → Held m → Held (relaunch w m)
  relaunch-Held m h =
      let asked = call Call.locked m in
      let again = record asked { deaths = m.deaths + 1; attempts = 0 } in
      let h' : Held again = ground arith in
      if-both Held (is_locked w m) asked (start_launch w again) (λ _. h')
        (λ _. start_launch-Held again h')

  pub on_module_exit-Held : (m : Machine) → Held m → Held (on_module_exit w m)
  unfolding on_module_exit
  on_module_exit-Held m h =
      let m' = record m { current_done = none; dead = true } in
      let again = if leb max_relaunches m.deaths then m' else relaunch w m' in
      if-both Held (not (is_saver_stage m.stage)) (close_unless_launching m')
        (if is_some m.cancel then m' else close_unless_launching again)
        (λ _. close_unless_launching-Held m' h)
        λ _.
          if-both Held (is_some m.cancel) m' (close_unless_launching again) (λ _. h)
            λ _. close_unless_launching-Held again (
              if-both Held (leb max_relaunches m.deaths) m' (relaunch w m') (λ _. h)
                (λ _. relaunch-Held m' h))

  abbrev HeldIn : Option Machine → Type 0
  HeldIn none = Unit
  HeldIn (some n) = Held n

  try_replace-Held :
      (again : Machine → Option Machine) (e : CopyExit) (name : Text) (c : Option SaverId)
      (m : Machine)
      → ((n : Machine) → Held n → HeldIn (again n))
      → Held m
      → HeldIn (try_replace w again e name c m)
  try_replace-Held again e name none m k h = h
  try_replace-Held again e name (some t) m k h =
      let h' : Held (replacing w e t name m) = ground arith in
      if-both HeldIn (w.replace m.history t e.monitor name) _ _ (λ _. ground arith)
        (λ _. k (replacing w e t name m) h')

  replace_copy-Held :
      (again : Machine → Option Machine) (e : CopyExit) (drawn : Option Text) (m : Machine)
      → ((n : Machine) → Held n → HeldIn (again n))
      → Held m
      → HeldIn (replace_copy w again e drawn m)
  replace_copy-Held again e none m k h = h
  replace_copy-Held again e (some name) m k h = try_replace-Held again e name m.current m k h

  copy_round-Held :
      (again : Machine → Option Machine) (e : CopyExit) (m : Machine)
      → ((n : Machine) → Held n → HeldIn (again n))
      → Held m
      → HeldIn (copy_round w again e m)
  copy_round-Held again e m k h =
      let counted_one : Held (counted w e m) = ground arith in
      let d = pick w m.current_names (counted w e m) in
      let n = after (counted w e m) d in
      if-both HeldIn (copy_stays e m) (some m)
        (if is_locked w m then some (call Call.locked m) else replace_copy w again e d.result n)
        (λ _. h)
        λ _.
          if-both HeldIn (is_locked w m) (some (call Call.locked m))
            (replace_copy w again e d.result n) (λ _. counted_one)
            λ _.
              replace_copy-Held again e d.result n k
                (pick-Held m.current_names (counted w e m) counted_one)

  copy_rounds-Held :
      (fuel : ℕ) (e : CopyExit) (m : Machine) → Held m → HeldIn (copy_rounds w fuel e m)
  unfolding copy_rounds
  copy_rounds-Held zero e m h = tt
  copy_rounds-Held (suc fuel) e m h =
      copy_round-Held (λ n. copy_rounds w fuel e n) e m (λ n. copy_rounds-Held fuel e n) h

  finished-Held : (m : Machine) (o : Option Machine) → Held m → HeldIn o → Held (finished w m o)
  finished-Held m none h k = h
  finished-Held m (some n) h k = k

  pub on_copy_exit-Held : (e : CopyExit) (m : Machine) → Held m → Held (on_copy_exit w e m)
  unfolding on_copy_exit
  on_copy_exit-Held e m h =
      finished-Held m (copy_rounds w (suc max_relaunches) e m) h
        (copy_rounds-Held (suc max_relaunches) e m h)
