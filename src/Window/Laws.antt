-- ===== src/Window/Laws.antt =====
-- internal/window/window.go and internal/window/monitors.go: the runtime files read back as they
-- were written, the bound of the ring buffer, and what is left of the monitors.
use retrosaver.Prelude.{
  ℕ, ◌-◌, ◌≤◌, ◌≡◌, ◌≢◌, ◌↔◌, ◌⊎◌, inl, inr, refl, sym, subst, true, List, [], ◌∷◌, ◌++◌, arith,
  Bool-cases, if-both, ltb, length, Member, Text,
}
use retrosaver.Window.{
  Monitor, RingBuffer, drop, write, same_monitor, has_seen, distinct_from, distinct,
}

length-drop : (k : ℕ) (s : Text) → length (drop k s) ≡ length s - k
unfolding drop
length-drop k [] = omega arith
length-drop k (c ∷ cs) = ground (arith, length-drop (k - 1) cs)

drop_nothing : (k : ℕ) (s : Text) → k ≡ 0 → drop k s ≡ s
unfolding drop
drop_nothing k [] h = refl
drop_nothing k (c ∷ cs) h = ground arith

-- However much is written to it, the ring buffer holds at most its `n` bytes, which are the last
-- ones of what it held and what was written.
pub write_lem :
    (p : Text) (r : RingBuffer)
    → (length (write p r).buf ≤ r.n)
      × ((write p r).buf ≡ drop (length (r.buf ++ p) - r.n) (r.buf ++ p))
unfolding write
write_lem p r =
    let all = r.buf ++ p in
    if-both (λ (b : Text). (length b ≤ r.n) × (b ≡ drop (length all - r.n) all))
      (ltb r.n (length all)) (drop (length all - r.n) all) all
      (λ e. (omega (arith, length-drop (length all - r.n) all), refl))
      (λ e. (ground arith, sym (drop_nothing (length all - r.n) all (ground arith))))

same_monitor_lem : (a b : Monitor) → (same_monitor a b ≡ true) → a ≡ b
same_monitor_lem a b h = ground arith

same_monitor_self : (a : Monitor) → same_monitor a a ≡ true
same_monitor_self a = ground arith

has_seen-Member : (ms : List Monitor) (m : Monitor) → has_seen ms m ≡ true → Member m ms
unfolding has_seen
has_seen-Member [] m h = cc
has_seen-Member (s ∷ ms) m h = ground (arith, same_monitor_lem s m, has_seen-Member ms m)

Member-has_seen : (ms : List Monitor) (m : Monitor) → Member m ms → has_seen ms m ≡ true
unfolding has_seen
Member-has_seen [] m k = elim k [ ]
Member-has_seen (s ∷ ms) m k = elim k [
  | inl e ↦ rw e (rw (same_monitor_self s) refl)
  | inr later ↦ ground (arith, Member-has_seen ms m later)
]

-- Monitors of which none occurs twice.
abbrev pub DistinctMonitors : List Monitor → Type 0
DistinctMonitors [] = Unit
DistinctMonitors (m ∷ ms) = (¬ Member m ms) × DistinctMonitors ms

same_or_not : (a b : Monitor) → (a ≡ b) ⊎ (a ≢ b)
same_or_not a b = elim (Bool-cases (same_monitor a b)) [
  | inl e ↦ inl (same_monitor_lem a b e)
  | inr e ↦ inr (λ k.
      let t = subst (λ (z : Monitor). same_monitor a z ≡ true) k (same_monitor_self a) in
      ground arith)
]

distinct_from_iff :
    (seen ms : List Monitor) (m : Monitor)
    → Member m (distinct_from seen ms) ↔ (Member m ms × (¬ Member m seen))
unfolding distinct_from
distinct_from_iff seen [] m = (λ k. elim k [ ], λ k. elim k.0 [ ])
distinct_from_iff seen (a ∷ ms) m = elim (Bool-cases (has_seen seen a)) [
  | inl e ↦ rw e (ground (arith, has_seen-Member seen a e, distinct_from_iff seen ms m))
  | inr e ↦
      rw e
        (ground (arith, Member-has_seen seen a, distinct_from_iff (a ∷ seen) ms m, same_or_not m a))
]

distinct_from-Distinct : (seen ms : List Monitor) → DistinctMonitors (distinct_from seen ms)
unfolding distinct_from
distinct_from-Distinct seen [] = tt
distinct_from-Distinct seen (m ∷ ms) =
    if-both DistinctMonitors (has_seen seen m) (distinct_from seen ms)
      (m ∷ distinct_from (m ∷ seen) ms) (λ e. distinct_from-Distinct seen ms)
      λ e. (
        λ k. ((distinct_from_iff (m ∷ seen) ms m).0 k).1 (inl refl),
        distinct_from-Distinct (m ∷ seen) ms,
      )

-- `distinct` gives each monitor once, and gives exactly the monitors it was given.
pub distinct_lem :
    (ms : List Monitor)
    → DistinctMonitors (distinct ms) × ((m : Monitor) → Member m (distinct ms) ↔ Member m ms)
unfolding distinct
distinct_lem ms = (
  distinct_from-Distinct [] ms,
  λ m. (
    λ k. ((distinct_from_iff [] ms m).0 k).0,
    λ k. (distinct_from_iff [] ms m).1 (k, λ none_seen. none_seen),
  ),
)
