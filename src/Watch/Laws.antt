-- ===== src/Watch/Laws.antt =====
-- internal/watch/watch.go: no change of the file goes unreported, and a burst is reported once.
use retrosaver.Prelude.{◌≡◌, true, false, ◌||◌, List, [], ◌∷◌, arith}
use retrosaver.Watch.{Watch, Step, raw, settled, taken, cancelled, reader_stopped, step, steps}

-- No cancellation, no failure of the reader, and nobody takes a reload.
abbrev pub Undisturbed : List Step → Type 0
Undisturbed [] = Unit
Undisturbed (raw ∷ es) = Undisturbed es
Undisturbed (settled ∷ es) = Undisturbed es
Undisturbed (_ ∷ es) = ⊥

steps-noted :
    (es : List Step) (s : Watch)
    → Undisturbed es
    → s.closed ≡ false
    → (s.timer || s.pending) ≡ true
    → ((steps es s).closed ≡ false) × (((steps es s).timer || (steps es s).pending) ≡ true)
unfolding steps step
steps-noted [] s u live noted = (live, noted)
steps-noted (raw ∷ es) s u live noted = steps-noted es (step raw s) u (ground arith) (ground arith)
steps-noted (settled ∷ es) s u live noted =
    steps-noted es (step settled s) u (ground arith) (ground arith)
steps-noted (taken ∷ es) s u live noted = absurd u
steps-noted (cancelled ∷ es) s u live noted = absurd u
steps-noted (reader_stopped ∷ es) s u live noted = absurd u

-- Of a watch that is not closed: after an event that mentions the file, and any further events and
-- ends of the timer without a cancellation, a failure of the reader or a reload taken, a reload is
-- waiting when the timer has ended once more, and after it is taken no other is waiting or to come.
pub steps-reported :
    (es : List Step) (s : Watch)
    → Undisturbed es
    → s.closed ≡ false
    → ((step settled (steps (raw ∷ es) s)).pending ≡ true)
      × ((step taken (step settled (steps (raw ∷ es) s))).pending ≡ false)
      × ((step taken (step settled (steps (raw ∷ es) s))).timer ≡ false)
unfolding steps step
steps-reported es s u live = ground (arith, steps-noted es (step raw s) u)
