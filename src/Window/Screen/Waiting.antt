-- ===== src/Window/Screen/Waiting.antt =====
-- internal/window/screen.go: the wait for the window manager ends, and what it ends with is so.
use retrosaver.Prelude.{
  ℕ, zero, suc, ◌+◌, ◌<◌, ◌≡◌, inl, inr, refl, true, false, List, [], ◌∷◌, some, arith, Bool-cases,
  length, codes,
}
use retrosaver.Window.{Monitor}
use retrosaver.Window.Screen.{
  Wait, canceled, expired, polled, Server, Screen, was_canceled, not_managed, intern_atoms,
}
use retrosaver.Window.Screen.Settling.{
  covers, Settled, in_place, short, gives, waited, settle_windows, settle,
}

-- A round takes 20 milliseconds and the time is up after five seconds, so a wait that starts after
-- 250 rounds finds that it is.
abbrev pub IsTimed : Server → Type 0
IsTimed o = (n : ℕ) → o.wait n ≡ polled → n < 250

-- What the end of the wait says of the windows, of which the first ones are in place.
pub data Explains (o : Server) : List ℕ → List Monitor → Settled → Type 0 where
  none_left : Explains o [] [] in_place
  next :
      (n w : ℕ) (m : Monitor) (ws : List ℕ) (ms : List Monitor) (r : Settled)
      → covers (o.before n w) m ≡ true
      → Explains o ws ms r
      → Explains o (w ∷ ws) (m ∷ ms) r
  does_not_cover :
      (n w : ℕ) (m : Monitor) (ws : List ℕ) (ms : List Monitor)
      → covers (o.before n w) m ≡ false
      → o.wait n ≡ expired
      → (o.after n w).is_managed ≡ true
      → Explains o (w ∷ ws) (m ∷ ms) (short w)
  never_managed :
      (n w : ℕ) (m : Monitor) (ws : List ℕ) (ms : List Monitor)
      → covers (o.before n w) m ≡ false
      → o.wait n ≡ expired
      → (o.after n w).is_managed ≡ false
      → Explains o (w ∷ ws) (m ∷ ms) (gives (not_managed m))
  stopped :
      (n w : ℕ) (m : Monitor) (ws : List ℕ) (ms : List Monitor)
      → covers (o.before n w) m ≡ false
      → o.wait n ≡ canceled
      → Explains o (w ∷ ws) (m ∷ ms) (gives was_canceled)

module _ (o : Server) (timed : IsTimed o) where
  waited-Explains :
      (n w : ℕ) (m : Monitor) (ws : List ℕ) (ms : List Monitor) (e : Wait) (next_round : Settled)
      → covers (o.before n w) m ≡ false
      → o.wait n ≡ e
      → (e ≡ polled → Explains o (w ∷ ws) (m ∷ ms) next_round)
      → Explains o (w ∷ ws) (m ∷ ms) (waited o n w m e next_round)
  waited-Explains n w m ws ms canceled r c e h = stopped n w m ws ms c e
  waited-Explains n w m ws ms expired r c e h = elim (Bool-cases (o.after n w).is_managed) [
    | inl managed ↦ rw managed (does_not_cover n w m ws ms c e managed)
    | inr unmanaged ↦ rw unmanaged (never_managed n w m ws ms c e unmanaged)
  ]
  waited-Explains n w m ws ms polled r c e h = h refl

  settle_windows-Explains :
      (fuel n : ℕ) (ws : List ℕ) (ms : List Monitor)
      → length ws ≡ length ms
      → n < 251
      → fuel + n ≡ 251
      → Explains o ws ms (settle_windows o fuel n ws ms)
  unfolding settle_windows
  settle_windows-Explains fuel n [] [] l b f = none_left
  settle_windows-Explains fuel n [] (m ∷ ms) l b f = absurd (omega arith)
  settle_windows-Explains fuel n (w ∷ ws) [] l b f = absurd (omega arith)
  settle_windows-Explains zero n (w ∷ ws) (m ∷ ms) l b f = absurd (omega arith)
  settle_windows-Explains (suc fuel) n (w ∷ ws) (m ∷ ms) l b f =
      elim (Bool-cases (covers (o.before n w) m)) [
        | inl here ↦ rw here (
            next n w m ws ms (settle_windows o (suc fuel) n ws ms) here
              (settle_windows-Explains (suc fuel) n ws ms (omega arith) b f))
        | inr not_yet ↦ rw not_yet (
            waited-Explains n w m ws ms (o.wait n) (settle_windows o fuel (suc n) (w ∷ ws) (m ∷ ms))
              not_yet refl
              λ e.
                let early = timed n e in
                settle_windows-Explains fuel (suc n) (w ∷ ws) (m ∷ ms) l (omega arith)
                  (omega arith))
      ]

  -- `settle`, of as many windows as monitors and with the atom of the windows' state, ends within its
  -- rounds, whatever the window manager does, if at most 250 waits end before the deadline. It ends
  -- well only with every window in place, or with a first one that is managed but does not cover
  -- its monitor when the time is up; it fails when the first window that is not in place is not
  -- managed by then, or when it is canceled.
  pub settle-Explains :
      (s : Screen) (a : ℕ)
      → o.atom (codes "WM_STATE") ≡ some a
      → length s.windows ≡ length s.mons
      → Explains o s.windows s.mons (settle o s)
  unfolding settle intern_atoms
  settle-Explains s a e l =
      rw e (settle_windows-Explains 251 0 s.windows s.mons l (omega arith) (omega arith))
