-- ===== src/Signals/Laws.antt =====
-- internal/idle/idle.go and internal/session/lockwatch.go: which signals count, that the pumps pass
-- them on in order, and which intervals the idle monitor is asked for.
use retrosaver.Prelude.{
  ℕ, ◌/◌, ◌≤◌, ◌<◌, ◌≡◌, ◌⊎◌, inl, inr, ◌∙◌, refl, sym, ap, Bool, false, List, [], ◌∷◌, ◌++◌,
  append_assoc, append-nil, Option, none, some, arith, Bool-cases, if◌then◌else◌, word, half_word,
  div64, Fits64,
}
use retrosaver.Config.{Duration}
use retrosaver.Signals.{
  Signal, signal, signals_closed, closing, Pump, Turn, receives, reader_takes, turn_open, turn,
  turns, millisecond, add_idle_watch,
}

module _ {ℓ} {A : Type ℓ} (decode : Option Signal → Option A) where
  -- The values that a list holds and those that the pump still has to pass on.
  abbrev pub pending : Option A → List A
  pending none = []
  pending (some a) = a ∷ []

  -- The values of the signals that the pump reads: of the signals that come while it holds nothing
  -- and is open, those that decode.
  abbrev pub decoded_if : Bool → Option A → Turn → List A
  decoded_if false none (receives (signal sig)) = pending (decode sig)
  decoded_if _ _ _ = []

  abbrev pub decoded : List Turn → Pump A → List A
  decoded [] p = []
  decoded (t ∷ ts) p = decoded_if p.closed p.held t ++ decoded ts (turn decode t p)

  -- A turn of an open pump adds to the values sent and held what it decodes.
  turn_open-order :
      (t : Turn) (held : Option A) (p : Pump A)
      → p.held ≡ held
      → (turn_open decode t held p).closed ≡ false
      → (turn_open decode t held p).sent ++ pending (turn_open decode t held p).held
        ≡ (p.sent ++ pending held) ++ decoded_if false held t
  turn_open-order reader_takes none p e h = rw e (sym (append-nil (p.sent ++ [])))
  turn_open-order reader_takes (some a) p e h = refl
  turn_open-order (receives (signal sig)) none p e h =
      ap (λ xs. xs ++ pending (decode sig)) (sym (append-nil p.sent))
  turn_open-order (receives signals_closed) none p e h = cc
  turn_open-order (receives closing) none p e h = cc
  turn_open-order (receives (signal sig)) (some a) p e h =
      rw e (sym (append-nil (p.sent ++ a ∷ [])))
  turn_open-order (receives signals_closed) (some a) p e h =
      rw e (sym (append-nil (p.sent ++ a ∷ [])))
  turn_open-order (receives closing) (some a) p e h = cc

  turn-closed : (t : Turn) (p : Pump A) → (turn decode t p).closed ≡ false → p.closed ≡ false
  unfolding turn
  turn-closed t p h = elim (Bool-cases p.closed) [ inl e ↦ absurd (ground arith) | inr e ↦ e ]

  turns-closed :
      (ts : List Turn) (p : Pump A) → (turns decode ts p).closed ≡ false → p.closed ≡ false
  unfolding turns
  turns-closed [] p h = h
  turns-closed (t ∷ ts) p h = turn-closed t p (turns-closed ts (turn decode t p) h)

  turn-order :
      (t : Turn) (p : Pump A)
      → (turn decode t p).closed ≡ false
      → (turn decode t p).sent ++ pending (turn decode t p).held
        ≡ (p.sent ++ pending p.held) ++ decoded_if p.closed p.held t
  unfolding turn
  turn-order t p h =
      let live = turn-closed t p h in
      let same : turn decode t p ≡ turn_open decode t p.held p =
        ap (λ b. if b then p else turn_open decode t p.held p) live in
      ap (λ (q : Pump A). q.sent ++ pending q.held) same
      ∙ turn_open-order t p.held p refl (sym (ap (λ (q : Pump A). q.closed) same) ∙ h)
      ∙ ap (λ b. (p.sent ++ pending p.held) ++ decoded_if b p.held t) (sym live)

  -- As long as a pump is open it has passed on, and holds for its reader, exactly the values of the
  -- signals that it has read and that decode, in their order, none lost and none twice.
  pub turns-order :
      (ts : List Turn) (p : Pump A)
      → (turns decode ts p).closed ≡ false
      → (turns decode ts p).sent ++ pending (turns decode ts p).held
        ≡ (p.sent ++ pending p.held) ++ decoded ts p
  unfolding turns
  turns-order [] p h = sym (append-nil (p.sent ++ pending p.held))
  turns-order (t ∷ ts) p h =
      turns-order ts (turn decode t p) h
      ∙ ap (λ xs. xs ++ decoded ts (turn decode t p))
          (turn-order t p (turns-closed ts (turn decode t p) h))
      ∙ append_assoc (p.sent ++ pending p.held) (decoded_if p.closed p.held t)
          (decoded ts (turn decode t p))

split_interval : (d : ℕ) → ((d < millisecond) ⊎ (half_word ≤ d)) ⊎ ((millisecond ≤ d) × Fits64 d)
split_interval d = ground arith

whole_millisecond : (d : ℕ) → millisecond ≤ d → 1 ≤ d / millisecond
whole_millisecond d h = omega arith

pub refused-small :
    (call : ℕ → Option ℕ) (d : Duration) → d < millisecond → add_idle_watch call d ≡ none
unfolding add_idle_watch div64
refused-small call d h = ground arith

refused-negative :
    (call : ℕ → Option ℕ) (d : Duration) → d < word → half_word ≤ d → add_idle_watch call d ≡ none
unfolding add_idle_watch div64
refused-negative call d h k = ground arith

asked-positive :
    (call : ℕ → Option ℕ) (d : Duration)
    → millisecond ≤ d
    → Fits64 d
    → add_idle_watch call d ≡ call (d / millisecond)
unfolding add_idle_watch div64
asked-positive call d h k = ground arith

-- `AddIdleWatch` refuses an interval that is negative or shorter than a millisecond without a call,
-- and otherwise calls with the whole milliseconds of the interval, one at least.
pub add_idle_watch_lem :
    (call : ℕ → Option ℕ) (d : Duration)
    → d < word
    → (((d < millisecond) ⊎ (half_word ≤ d)) × (add_idle_watch call d ≡ none))
      ⊎ ((1 ≤ d / millisecond) × Fits64 d × (add_idle_watch call d ≡ call (d / millisecond)))
add_idle_watch_lem call d h = elim (split_interval d) [
  | inl refused ↦ inl (
    refused,
    elim refused [
      | inl small ↦ refused-small call d small
      | inr negative ↦ refused-negative call d h negative
    ],
  )
  | inr (long, fits) ↦ inr (whole_millisecond d long, fits, asked-positive call d long fits)
]
