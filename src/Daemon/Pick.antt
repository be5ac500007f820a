-- ===== src/Daemon/Pick.antt =====
-- internal/daemon/daemon.go: `pick`, `pickSet` and `monitors`. Picking changes the list of modules
-- shown and makes calls, and nothing else: a `Draw` holds what it leaves of those two.
use retrosaver.Prelude.{
  ℕ, zero, suc, Bool, true, false, ◌&&◌, List, [], ◌∷◌, ◌++◌, Option, none, some, if◌then◌else◌,
  Text,
}
use retrosaver.Config.{different_per_monitor}
use retrosaver.Daemon.{World, Machine, Call}
use retrosaver.Daemon.Watches.{call}

pub record Draw {ℓ} (A : Type ℓ) : Type ℓ where
  pub used : List Text
  pub history : List Call
  pub result : Option A

abbrev pub is_nil : List Text → Bool
is_nil [] = true
is_nil (_ ∷ _) = false

abbrev pub after {ℓ} : {A : Type ℓ} → Machine → Draw A → Machine
after m d = record m { used = d.used; history = d.history }

module _ (w : World) where
  -- A call of the launcher's Pick.
  abbrev pub ask : Machine → List Text → Draw Text
  ask m avoid = record {
    used = m.used;
    history = Call.pick avoid ∷ m.history;
    result = w.pick m.history m.include m.exclude avoid;
  }

  abbrev pub or_else_from : Option Text → Machine → Draw Text → (Machine → Draw Text) → Draw Text
  or_else_from (some name) m d next = d
  or_else_from none m d next = next (after m d)

  abbrev pub or_else : Machine → Draw Text → (Machine → Draw Text) → Draw Text
  or_else m d next = or_else_from d.result m d next

  abbrev pub repeat_one : List Text → Machine → Draw Text
  repeat_one also m = if is_nil also then ask m [] else or_else m (ask m also) (λ m'. ask m' [])

  abbrev pub start_over : List Text → Machine → Draw Text
  start_over also m =
      let m' = record m { used = m.current_names } in
      or_else m' (ask m' (m'.used ++ also)) (λ m''. repeat_one also (record m'' { used = [] }))

  unfoldable pub pick : List Text → Machine → Draw Text
  pick also m =
      let first = ask m (m.used ++ also) in
      if is_nil m.used && is_nil also then first else or_else m first (start_over also)

  abbrev pub pick_next :
      (List Text → Machine → Draw (List Text))
      → List Text
      → Machine
      → Draw Text
      → Option Text
      → Draw (List Text)
  pick_next more names m d none = record { used = d.used; history = d.history; result = none }
  pick_next more names m d (some name) = more (names ++ name ∷ []) (after m d)

  -- The loop of `pickSet`: `n` rounds to go, `names` chosen so far.
  unfoldable pub pick_more : ℕ → List Text → Machine → Draw (List Text)
  pick_more zero names m = record { used = m.used; history = m.history; result = some names }
  pick_more (suc n) names m =
      let d = pick names m in pick_next (λ names' m'. pick_more n names' m') names m d d.result

  unfoldable pub pick_set : ℕ → Machine → Draw (List Text)
  pick_set n m = pick_more n [] m

  -- No answer, or none below 1, puts one module on every monitor.
  abbrev pub at_least_one : Option ℕ → ℕ
  at_least_one none = 1
  at_least_one (some zero) = 1
  at_least_one (some (suc n)) = suc n

  unfoldable pub monitors : Machine → Machine × ℕ
  monitors m =
      if different_per_monitor m.cfg
      then (call Call.monitors m, at_least_one (w.monitors m.history))
      else (m, 1)
