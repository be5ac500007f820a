-- ===== src/Daemon/Armed.antt =====
-- The watch map of internal/daemon/daemon.go: how many watches of each kind it holds.
use retrosaver.Prelude.{
  ℕ, ◌+◌, ◌≤◌, ◌≡◌, refl, Bool, true, false, ◌&&◌, List, [], ◌∷◌, Option, none, some, arith, length,
  inl, inr, Bool-cases, ◌==◌, if-both, add64, le64,
}
use retrosaver.Config.{Duration, lock_enabled, blank_enabled, cycle_enabled}
use retrosaver.Daemon.{
  Stage, idle, WatchId, WatchKind, saver_watch, cycle_watch, lock_watch, blank_watch, active_watch,
  World, Machine, Call,
}
use retrosaver.Daemon.Policy.{Policy}
use retrosaver.Daemon.Watches.{
  added, active_added, swap_at, swap_counted, call, delete_watch, put_watch, find_watch, add_idle,
  then_add, arm, ensure_active_watch, arm_cycle,
}

-- 1 for one kind and itself, 0 for two kinds.
abbrev pub same_kind : WatchKind → WatchKind → ℕ
same_kind saver_watch saver_watch = 1
same_kind cycle_watch cycle_watch = 1
same_kind lock_watch lock_watch = 1
same_kind blank_watch blank_watch = 1
same_kind active_watch active_watch = 1
same_kind _ _ = 0

abbrev pub count_kind : WatchKind → List (WatchId × WatchKind) → ℕ
count_kind k [] = 0
count_kind k ((id, j) ∷ ws) = same_kind k j + count_kind k ws

abbrev pub is_idle : Stage → Bool
is_idle idle = true
is_idle _ = false

pub count_kind-delete_watch :
    (k : WatchKind) (id : WatchId) (ws : List (WatchId × WatchKind))
    → count_kind k (delete_watch id ws) ≤ count_kind k ws
unfolding delete_watch
count_kind-delete_watch k id [] = omega arith
count_kind-delete_watch k id ((j, l) ∷ ws) = elim (Bool-cases (id == j)) [
  | inl e ↦ rw e (omega (arith, count_kind-delete_watch k id ws))
  | inr e ↦ rw e (omega (arith, count_kind-delete_watch k id ws))
]

same_kind_self : (k : WatchKind) → same_kind k k ≡ 1
same_kind_self saver_watch = refl
same_kind_self _ = refl

-- Removing a watch that is found takes one of its kind away.
pub count_kind-found :
    (k : WatchKind) (id : WatchId) (ws : List (WatchId × WatchKind))
    → find_watch id ws ≡ some k
    → count_kind k (delete_watch id ws) + 1 ≤ count_kind k ws
unfolding delete_watch find_watch
count_kind-found k id [] h = cc
count_kind-found k id ((j, l) ∷ ws) h = elim (Bool-cases (id == j)) [
  | inl e ↦
      let same : l ≡ k = ground arith in
      rw (e, same, same_kind_self) (omega (arith, count_kind-delete_watch k id ws))
  | inr e ↦
      let later : find_watch id ws ≡ some k = ground arith in
      rw e (omega (arith, count_kind-found k id ws later))
]

pub count_kind-put_watch :
    (k : WatchKind) (id : WatchId) (l : WatchKind) (ws : List (WatchId × WatchKind))
    → count_kind k (put_watch id l ws) ≤ same_kind k l + count_kind k ws
unfolding put_watch
count_kind-put_watch k id l ws = omega (arith, count_kind-delete_watch k id ws)

count_kind-added :
    (k : WatchKind) (o : Option WatchId) (l : WatchKind) (m : Machine)
    → count_kind k (added o l m).0.watches ≤ same_kind k l + count_kind k m.watches
count_kind-added k none l m = omega arith
count_kind-added k (some id) l m = count_kind-put_watch k id l m.watches

module _ (w : World) where
  pub count_kind-add_idle :
      (k : WatchKind) (d : Duration) (l : WatchKind) (m : Machine)
      → count_kind k (add_idle w d l m).0.watches ≤ same_kind k l + count_kind k m.watches
  unfolding add_idle
  count_kind-add_idle k d l m =
      count_kind-added k (w.add_idle_watch m.history d) l (call (Call.add_idle_watch d) m)

  count_kind-then_add :
      (k : WatchKind) (b : Bool) (d : Duration) (l : WatchKind) (x : Machine × Bool)
      → count_kind k (then_add w b d l x).0.watches ≤ same_kind k l + count_kind k x.0.watches
  count_kind-then_add k b d l (m, ok) = elim (Bool-cases (ok && b)) [
    | inl e ↦ rw e (count_kind-add_idle k d l m)
    | inr e ↦ rw e (omega arith)
  ]

  pub count_kind-arm :
      (k : WatchKind) (m : Machine)
      → count_kind k (arm w m).0.watches
        ≤ same_kind k blank_watch + (same_kind k lock_watch + same_kind k saver_watch)
  unfolding arm
  count_kind-arm k m =
      let c = m.cfg in
      let lock_at = add64 c.saver_delay c.lock_after in
      let first = add_idle w c.saver_delay saver_watch (record m { watches = [] }) in
      let second = then_add w (lock_enabled c) lock_at lock_watch first in
      omega (
        arith,
        count_kind-add_idle k c.saver_delay saver_watch (record m { watches = [] }),
        count_kind-then_add k (lock_enabled c) lock_at lock_watch first,
        count_kind-then_add k (blank_enabled c) (add64 lock_at c.blank_after) blank_watch second,
      )

  count_kind-active_added :
      (k : WatchKind) (o : Option WatchId) (m : Machine)
      → count_kind k (active_added w o m).watches
        ≤ same_kind k active_watch + count_kind k m.watches
  count_kind-active_added k none m = elim (Bool-cases (lock_enabled m.cfg)) [
    | inl e ↦ rw e (omega arith)
    | inr e ↦ rw e (omega arith)
  ]
  count_kind-active_added k (some id) m = count_kind-put_watch k id active_watch m.watches

  pub count_kind-ensure_active_watch :
      (k : WatchKind) (m : Machine)
      → count_kind k (ensure_active_watch w m).watches
        ≤ same_kind k active_watch + count_kind k m.watches
  unfolding ensure_active_watch
  count_kind-ensure_active_watch k m =
      let asked = call Call.add_user_active_watch m in
      let o = w.add_user_active_watch m.history in
      if-both (λ n. count_kind k n.watches ≤ same_kind k active_watch + count_kind k m.watches)
        m.active_armed m (active_added w o asked) (λ e. omega arith)
        λ e. count_kind-active_added k o asked

  pub count_kind-arm_cycle :
      (k : WatchKind) (m : Machine)
      → count_kind k (arm_cycle w m).watches ≤ same_kind k cycle_watch + count_kind k m.watches
  unfolding arm_cycle
  count_kind-arm_cycle k m = elim (Bool-cases (cycle_enabled m.cfg)) [
    | inr e ↦ rw e (omega arith)
    | inl e ↦ rw e (elim (Bool-cases (too_late m)) [
      | inl late ↦ rw late (omega arith)
      | inr early ↦ rw early (count_kind-add_idle k (swap_at w m) cycle_watch (swap_counted w m))
    ])
  ]
    where
      too_late : Machine → Bool
      too_late n =
          lock_enabled n.cfg && le64 (add64 n.cfg.saver_delay n.cfg.lock_after) (swap_at w n)

-- What the watch map and the flag of the user-active watch owe one another.
pub record IsArmed (p : Policy) : Type 0 where
  pub idle_unarmed : is_idle p.stage ≡ true → p.active_armed ≡ false
  pub unarmed : p.active_armed ≡ false → count_kind active_watch p.watches ≡ 0
  pub idle_no_swap : is_idle p.stage ≡ true → count_kind cycle_watch p.watches ≡ 0
  pub one_active : count_kind active_watch p.watches ≤ 1
  pub one_swap : count_kind cycle_watch p.watches ≤ 1
  pub one_saver : count_kind saver_watch p.watches ≤ 1
  pub one_lock : count_kind lock_watch p.watches ≤ 1
  pub one_blank : count_kind blank_watch p.watches ≤ 1

pub length-count_kind :
    (ws : List (WatchId × WatchKind))
    → length ws
      ≡ count_kind saver_watch ws
        + count_kind cycle_watch ws
        + count_kind lock_watch ws
        + count_kind blank_watch ws
        + count_kind active_watch ws
length-count_kind [] = omega arith
length-count_kind ((id, k) ∷ ws) = ground (arith, length-count_kind ws)
