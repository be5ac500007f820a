-- ===== src/Window/Screen/Settling.antt =====
-- internal/window/screen.go: `settle`, which waits for the window manager, and `openScreen`.
use retrosaver.Prelude.{
  ℕ, zero, suc, Bool, false, not, ◌&&◌, List, [], ◌∷◌, Option, none, some, if◌then◌else◌, Text,
  codes,
}
use retrosaver.Window.{Monitor, same_monitor}
use retrosaver.Window.Screen.{
  View, Wait, canceled, expired, polled, Server, Screen, ScreenError, no_connection, was_canceled,
  no_atom, not_managed, End, well, panics, hangs, fails, Atoms, unknown, found, intern_atoms,
  layout, create, close,
}

abbrev pub rectangle : Option (ℕ × ℕ) → Option (ℕ × ℕ) → Monitor
rectangle none place = record { x = 0; y = 0; width = 0; height = 0 }
rectangle (some size) none = record { x = 0; y = 0; width = 0; height = 0 }
rectangle (some size) (some place) = record {
  x = place.0;
  y = place.1;
  width = size.0;
  height = size.1;
}

-- `geometry`: the zero monitor if it cannot be read.
abbrev pub geometry : View → Monitor
geometry v = rectangle v.size v.place

abbrev pub covers : View → Monitor → Bool
covers v m = v.is_managed && same_monitor (geometry v) m

-- How the wait for the windows ends: all are in place, a window does not cover its monitor when the
-- time is up, an error, an index out of range, or no end within the fuel.
pub data Settled : Type 0 where
  in_place out_of_range stuck : Settled
  short : ℕ → Settled
  gives : ScreenError → Settled

module _ (o : Server) where
  -- When the time is up.
  abbrev pub at_deadline : ℕ → Monitor → View → Settled
  at_deadline w m v = if not v.is_managed then gives (not_managed m) else short w

  abbrev pub waited : ℕ → ℕ → Monitor → Wait → Settled → Settled
  waited n w m canceled next = gives was_canceled
  waited n w m expired next = at_deadline w m (o.after n w)
  waited n w m polled next = next

  -- The rounds of the wait, `n` of which have passed. A window that is in place is left for the
  -- next one.
  unfoldable pub settle_windows : ℕ → ℕ → List ℕ → List Monitor → Settled
  settle_windows fuel n [] ms = in_place
  settle_windows fuel n (w ∷ ws) [] = out_of_range
  settle_windows zero n (w ∷ ws) (m ∷ ms) =
      let next_window = settle_windows zero n ws ms in
      if covers (o.before n w) m then next_window else stuck
  settle_windows (suc fuel) n (w ∷ ws) (m ∷ ms) =
      let next_window = settle_windows (suc fuel) n ws ms in
      let next_round = settle_windows fuel (suc n) (w ∷ ws) (m ∷ ms) in
      if covers (o.before n w) m then next_window else waited n w m (o.wait n) next_round

  -- The rounds of 20 milliseconds that five seconds have, and one more.
  abbrev pub rounds : ℕ
  rounds = 251

  abbrev pub if_found : Atoms → Settled → Settled
  if_found (unknown name) s = gives (no_atom name)
  if_found (found atoms) s = s

  -- `settle`
  unfoldable pub settle : Screen → Settled
  settle s =
      if_found (intern_atoms o (codes "WM_STATE" ∷ [])) (settle_windows rounds 0 s.windows s.mons)

  abbrev pub ends : Settled → End
  ends in_place = well
  ends (short w) = well
  ends (gives e) = fails e
  ends out_of_range = panics
  ends stuck = hangs

  -- An error closes the screen; a panic does not.
  abbrev pub closed_on_error : End → Screen → End × Screen
  closed_on_error well s = (well, s)
  closed_on_error (fails e) s = (fails e, close s)
  closed_on_error panics s = (panics, s)
  closed_on_error hangs s = (hangs, s)

  abbrev pub then_settled : End × Screen → End × Screen
  then_settled (well, s) = closed_on_error (ends (settle s)) s
  then_settled (fails e, s) = closed_on_error (fails e) s
  then_settled (panics, s) = (panics, s)
  then_settled (hangs, s) = (hangs, s)

  abbrev pub fresh : Screen
  fresh = record {
    cursor = 0;
    windows = [];
    mons = layout o.xinerama o.whole;
    closed = false;
    sent = [];
  }

  -- `openScreen`, with the screen that it leaves: none without a connection.
  unfoldable pub open_screen : List Text → End × Option Screen
  open_screen modules =
      if not o.connects
      then (fails no_connection, none)
      else let (e, s) = then_settled (create o modules fresh) in (e, some s)
