-- ===== src/Daemon/Swaps.antt =====
-- Which swap `armCycle` of internal/daemon/daemon.go arms for next, by Go's int64 arithmetic.
use retrosaver.Prelude.{
  ℕ, ◌+◌, ◌-◌, ◌*◌, ◌/◌, ◌^◌, ◌≤◌, ◌<◌, ◌≡◌, ◌⊎◌, inl, inr, refl, false, some, arith, Bool-cases,
  if◌then◌else◌, add64, sub64, lt64, div64, word, ltb, ltb→lt,
}
use retrosaver.Config.{Config}
use retrosaver.Daemon.Watches.{next_swap}

quotient_bounds : (x c : ℕ) → 0 < c → (x / c * c ≤ x) × (x < x / c * c + c) × (x / c ≤ x)
quotient_bounds x c p = grind arith

mul_mono : (a b c : ℕ) → a ≤ b → a * c ≤ b * c
mul_mono a b c h = grind arith

quotient_late :
    (idle saver c : ℕ)
    → saver ≤ idle
    → idle < 2 ^ 62
    → div64 (sub64 idle saver) c ≡ (idle - saver) / c
unfolding div64
quotient_late idle saver c h i =
    let e : sub64 idle saver ≡ idle - saver = omega arith in rw e (ground arith)

-- Before the saver's threshold Go's quotient is not positive, so no swap is skipped.
quotient_early :
    (idle saver c n : ℕ)
    → idle < saver
    → saver < 2 ^ 62
    → 0 < c
    → n < 2 ^ 62
    → lt64 (add64 n 1) (add64 (div64 (sub64 idle saver) c) 1) ≡ false
unfolding div64
quotient_early idle saver c n h s p k =
    let e : sub64 idle saver ≡ word - (saver - idle) = omega arith in
    rw e (ground (arith, quotient_bounds (saver - idle) c p))

module _ (c : Config) (cycles idle : ℕ) (s : c.saver_delay < 2 ^ 62) (p : 0 < c.cycle_after)
    (i : idle < 2 ^ 62) (k : cycles < 2 ^ 62) where
  next_swap-early : idle < c.saver_delay → next_swap c cycles (some idle) ≡ (cycles + 1, cycles)
  unfolding next_swap
  next_swap-early h =
      rw (quotient_early idle c.saver_delay c.cycle_after cycles h s p k) (ground arith)

  next_swap-late :
      c.saver_delay ≤ idle
      → let q = (idle - c.saver_delay) / c.cycle_after in
        next_swap c cycles (some idle) ≡ (if ltb cycles q then (q + 1, q) else (cycles + 1, cycles))
  unfolding next_swap
  next_swap-late h =
      rw (quotient_late idle c.saver_delay c.cycle_after h i)
        (ground (arith, quotient_bounds (idle - c.saver_delay) c.cycle_after p))

  -- The swap that is armed next lies in the future, past every threshold that the idle time has
  -- gone by, and the machine's count of swaps is the one before it.
  pub next_swap-future :
      (idle < c.saver_delay + (next_swap c cycles (some idle)).0 * c.cycle_after)
      × (cycles < (next_swap c cycles (some idle)).0)
      × ((next_swap c cycles (some idle)).1 + 1 ≡ (next_swap c cycles (some idle)).0)
      × (((next_swap c cycles (some idle)).0 ≡ cycles + 1)
          ⊎ ((next_swap c cycles (some idle)).0 * c.cycle_after ≤ idle + c.cycle_after))
  next_swap-future =
      let q = (idle - c.saver_delay) / c.cycle_after in
      let b = quotient_bounds (idle - c.saver_delay) c.cycle_after p in
      elim (Bool-cases (ltb idle c.saver_delay)) [
        | inl early ↦
            rw (next_swap-early (ltb→lt idle c.saver_delay early))
              (ground arith, ground arith, refl, inl refl)
        | inr late ↦ rw (next_swap-late (ground arith)) (elim (Bool-cases (ltb cycles q)) [
          | inl skip ↦ rw skip (
            omega (arith, b),
            omega (arith, b, ltb→lt cycles q skip),
            refl,
            inr (omega (arith, b)),
          )
          | inr stay ↦
              let few : q ≤ cycles = ground arith in
              let most : q * c.cycle_after ≤ cycles * c.cycle_after =
                mul_mono q cycles c.cycle_after few in
              rw stay (omega (arith, b, most), omega arith, refl, inl refl)
        ])
      ]
