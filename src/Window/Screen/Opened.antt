-- ===== src/Window/Screen/Opened.antt =====
-- internal/window/screen.go: what `openScreen` leaves, whether it succeeds or not.
use retrosaver.Prelude.{
  ℕ, ◌≡◌, ◌≢◌, inl, inr, refl, sym, ap, ◌∙◌, Bool, true, false, not, List, ◌∷◌, Option, none, some,
  Option-cases, if-both, length, Text, codes,
}
use retrosaver.Window.{Monitor}
use retrosaver.Window.Screen.{
  Server, Screen, no_connection, End, well, panics, hangs, fails, intern_atoms, create, close,
}
use retrosaver.Window.Screen.Settling.{
  Settled, in_place, out_of_range, stuck, short, gives, settle, ends, closed_on_error, then_settled,
  fresh, open_screen,
}
use retrosaver.Window.Screen.Waiting.{IsTimed, Explains, next, settle-Explains}
use retrosaver.Window.Screen.Tidy.{display, IsHeld, Nothing, close-Nothing, serve_all}
use retrosaver.Window.Screen.Creating.{Ends, create-Ends}

-- A screen that is closed, of which nothing is left on the server.
abbrev pub IsGone : Server → Screen → Type 0
IsGone o s = (s.closed ≡ true) × (display o s ≡ Nothing o)

-- A screen whose windows are the program's windows on the server, one for each monitor, and what
-- the wait for them ended with.
abbrev pub IsUp : Server → Screen → Type 0
IsUp o s =
    IsHeld o s
    × (length s.windows ≡ length s.mons)
    × (r : Settled) × Explains o s.windows s.mons r
    × (ends o r ≡ well)

-- What `openScreen` returns: a screen that is up, or an error with nothing left.
abbrev pub Opens : Server → End × Option Screen → Type 0
Opens o (well, some s) = IsUp o s
Opens o (fails e, some s) = IsGone o s
Opens o (fails e, none) = o.connects ≡ false
Opens o (well, none) = ⊥
Opens o (panics, s) = ⊥
Opens o (hangs, s) = ⊥

in_range : (o : Server) (ws : List ℕ) (ms : List Monitor) → Explains o ws ms out_of_range → ⊥
in_range o _ _ (next n w m ws ms _ c e) = in_range o ws ms e

moves : (o : Server) (ws : List ℕ) (ms : List Monitor) → Explains o ws ms stuck → ⊥
moves o _ _ (next n w m ws ms _ c e) = moves o ws ms e

abbrev Closes : Server → End × Screen → Type 0
Closes o (e, s) = Opens o (e, some s)

module _ (o : Server) (timed : IsTimed o) where
  gone : (s : Screen) → IsHeld o s → IsGone o (close s)
  gone s h = let (nothing, closed) = close-Nothing o s h in (closed, nothing)

  settled-Closes :
      (s : Screen) (r : Settled)
      → IsHeld o s
      → length s.windows ≡ length s.mons
      → Explains o s.windows s.mons r
      → Closes o (closed_on_error o (ends o r) s)
  settled-Closes s in_place h l e = (h, l, in_place, e, refl)
  settled-Closes s (short w) h l e = (h, l, short w, e, refl)
  settled-Closes s (gives err) h l e = gone s h
  settled-Closes s out_of_range h l e = in_range o s.windows s.mons e
  settled-Closes s stuck h l e = moves o s.windows s.mons e

  waited-Closes :
      (s : Screen)
      → IsHeld o s
      → length s.windows ≡ length s.mons
      → Closes o (then_settled o (well, s))
  unfolding settle intern_atoms
  waited-Closes s h l = elim (Option-cases (o.atom (codes "WM_STATE"))) [
    | inl e ↦ rw e (gone s h)
    | inr (a, e) ↦ settled-Closes s (settle o s) h l (settle-Explains o timed s a e l)
  ]

  then_settled-Closes :
      (r : End × Screen) → Ends o (length (fresh o).mons) r → Closes o (then_settled o r)
  then_settled-Closes (well, s) (h, l) = waited-Closes s h (l ∙ ap length (sym h.for_monitors))
  then_settled-Closes (fails e, s) h = gone s h
  then_settled-Closes (panics, s) bad = bad
  then_settled-Closes (hangs, s) bad = bad

  fresh-IsHeld : IsHeld o (fresh o)
  unfolding serve_all
  fresh-IsHeld = record { held = refl; still_open = refl; for_monitors = refl }

  -- `openScreen` returns, and does not panic, if it is given a name and at most 250 waits of `settle`
  -- end before its deadline: either the screen is up, with a window on the server for each monitor
  -- and no more, or there is an error, and what was created before it is destroyed and the
  -- connection, if there is one, closed. The cursor's id is not zero.
  pub open_screen-Opens :
      (name : Text) (names : List Text)
      → o.cursor_id ≢ some 0
      → Opens o (open_screen o (name ∷ names))
  unfolding open_screen
  open_screen-Opens name names z =
      let r = then_settled o (create o (name ∷ names) (fresh o)) in
      if-both (Opens o) (not o.connects) (fails no_connection, none) (r.0, some r.1)
        (unconnected o.connects)
        λ _.
          then_settled-Closes (create o (name ∷ names) (fresh o))
            (create-Ends o name names (fresh o) fresh-IsHeld refl refl z)
    where
      unconnected : (b : Bool) → not b ≡ true → b ≡ false
      unconnected true h = cc
      unconnected false h = refl
