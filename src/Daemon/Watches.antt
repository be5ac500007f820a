-- ===== src/Daemon/Watches.antt =====
-- internal/daemon/daemon.go: the watch map, `arm`, `addIdle`, `ensureActiveWatch`, `armCycle` and
-- `rearm`, with the lock check that the stages share.
use retrosaver.Prelude.{
  ℕ, Bool, true, false, not, ◌&&◌, List, [], ◌∷◌, Option, none, some, ◌==◌, if◌then◌else◌, add64,
  sub64, mul64, lt64, le64, div64,
}
use retrosaver.Config.{Duration, Config, lock_enabled, blank_enabled, cycle_enabled}
use retrosaver.Daemon.{
  WatchId, WatchKind, saver_watch, cycle_watch, lock_watch, blank_watch, active_watch, World,
  Machine, Call,
}

abbrev pub call : Call → Machine → Machine
call c m = record m { history = c ∷ m.history }

-- The Go map from watch ids to kinds, as an association list with each id once.
unfoldable pub delete_watch : WatchId → List (WatchId × WatchKind) → List (WatchId × WatchKind)
delete_watch id [] = []
delete_watch id ((j, k) ∷ ws) = if id == j then delete_watch id ws else (j, k) ∷ delete_watch id ws

unfoldable pub put_watch :
    WatchId → WatchKind → List (WatchId × WatchKind) → List (WatchId × WatchKind)
unfolding delete_watch
put_watch id k ws = (id, k) ∷ delete_watch id ws

unfoldable pub find_watch : WatchId → List (WatchId × WatchKind) → Option WatchKind
find_watch id [] = none
find_watch id ((j, k) ∷ ws) = if id == j then some k else find_watch id ws

-- The error of `addIdle` is the second part: true if there is none.
abbrev pub added : Option WatchId → WatchKind → Machine → Machine × Bool
added none kind m = (m, false)
added (some id) kind m = (record m { watches = put_watch id kind m.watches }, true)

-- The lock check fails open: an error counts as unlocked.
abbrev fails_open : Option Bool → Bool
fails_open none = false
fails_open (some b) = b

-- The swap that `armCycle` arms for, and the `cycles` it leaves, from the idle time.
unfoldable pub next_swap : Config → ℕ → Option Duration → ℕ × ℕ
unfolding div64
next_swap c cycles none = (add64 cycles 1, cycles)
next_swap c cycles (some idle) =
    let n = add64 cycles 1 in
    let k = add64 (div64 (sub64 idle c.saver_delay) c.cycle_after) 1 in
    if lt64 n k then (k, sub64 k 1) else (n, cycles)

-- `range m.watches` removes in no fixed order; the order of the list is taken here.
unfoldable pub remove_watches : List (WatchId × WatchKind) → List Call → List Call
remove_watches [] h = h
remove_watches ((id, k) ∷ ws) h = remove_watches ws (Call.remove_watch id ∷ h)

module _ (w : World) where
  unfoldable pub add_idle : Duration → WatchKind → Machine → Machine × Bool
  add_idle after kind m =
      added (w.add_idle_watch m.history after) kind (call (Call.add_idle_watch after) m)

  -- A step of `arm` that the config turns on, after the steps before it succeeded.
  abbrev pub then_add : Bool → Duration → WatchKind → Machine × Bool → Machine × Bool
  then_add enabled after kind (m, ok) = if ok && enabled then add_idle after kind m else (m, ok)

  unfoldable pub arm : Machine → Machine × Bool
  unfolding add_idle
  arm m =
      let c = m.cfg in
      let lock_at = add64 c.saver_delay c.lock_after in
      then_add (blank_enabled c) (add64 lock_at c.blank_after) blank_watch (
        then_add (lock_enabled c) lock_at lock_watch
          (add_idle c.saver_delay saver_watch (record m { watches = [] })))

  unfoldable pub rearm : Machine → Machine × Bool
  unfolding arm remove_watches
  rearm m = arm (record m { active_armed = false; history = remove_watches m.watches m.history })

  abbrev pub active_added : Option WatchId → Machine → Machine
  active_added none m = if lock_enabled m.cfg then m else record m { fatal = true }
  active_added (some id) m = record m {
    watches = put_watch id active_watch m.watches;
    active_armed = true;
  }

  unfoldable pub ensure_active_watch : Machine → Machine
  ensure_active_watch m =
      if m.active_armed
      then m
      else active_added (w.add_user_active_watch m.history) (call Call.add_user_active_watch m)

  unfoldable pub is_locked : Machine → Bool
  is_locked m = fails_open (w.locked m.history)

  -- When the swap that `armCycle` arms for is due, and the machine with the `cycles` it leaves.
  abbrev pub swap_at : Machine → Duration
  swap_at m =
      let swap = next_swap m.cfg m.cycles (w.idletime m.history) in
      add64 m.cfg.saver_delay (mul64 swap.0 m.cfg.cycle_after)

  abbrev pub swap_counted : Machine → Machine
  swap_counted m = record (call Call.idletime m) {
    cycles = (next_swap m.cfg m.cycles (w.idletime m.history)).1;
  }

  unfoldable pub arm_cycle : Machine → Machine
  unfolding next_swap add_idle
  arm_cycle m =
      let c = m.cfg in
      if not (cycle_enabled c)
      then m
      else if lock_enabled c && le64 (add64 c.saver_delay c.lock_after) (swap_at m)
      then swap_counted m
      else (add_idle (swap_at m) cycle_watch (swap_counted m)).0
