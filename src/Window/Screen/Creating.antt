-- ===== src/Window/Screen/Creating.antt =====
-- internal/window/screen.go: `create` leaves the X server with the windows that the screen names.
use native.Mathlib.Nat.{mod-lt, zero-lt-suc}
use retrosaver.Prelude.{
  ◌<◌, ◌%◌, zero, ℕ, suc, ◌+◌, ◌≡◌, ◌≢◌, inl, inr, refl, ap, subst, ◌∙◌, false, List, [], ◌∷◌, ◌++◌,
  Option, none, some, arith, Bool-cases, length, length-append, get_elem?, Text, ◌==◌,
}
use retrosaver.Window.{Monitor}
use retrosaver.Window.Screen.{
  Request, create_pixmap, free_pixmap, create_cursor, map_window, Server, Screen, End, well, panics,
  hangs, fails, send, Atoms, unknown, found, properties, creation, map_made, if_well, create_one,
  create_windows, with_cursor, with_pixmap, with_atoms, create, intern_atoms, state_names,
}
use retrosaver.Window.Screen.Tidy.{Display, serve_all, display, display-send, IsHeld}

module _ (o : Server) where
  -- The requests that change nothing of what is held.
  send-IsHeld :
      (rs : List Request) (s : Screen)
      → ((d : Display) → serve_all o rs d ≡ d)
      → IsHeld o s
      → IsHeld o (send rs s)
  send-IsHeld rs s q h = record {
    held = display-send o rs s ∙ q (display o s) ∙ h.held;
    still_open = h.still_open;
    for_monitors = h.for_monitors;
  }

  -- Each way in which a step of `create` can end, of a screen with windows for `n` monitors.
  abbrev pub Ends : ℕ → End × Screen → Type 0
  Ends n (well, s) = IsHeld o s × (length s.windows ≡ n)
  Ends n (fails e, s) = IsHeld o s
  Ends n (panics, s) = ⊥
  Ends n (hangs, s) = ⊥

  map_made-Ends :
      (n : ℕ) (m : Monitor) (w : ℕ) (s : Screen)
      → IsHeld o s
      → length s.windows ≡ n
      → Ends n (map_made o m w s)
  unfolding serve_all
  map_made-Ends n m w s h l =
      let held = send-IsHeld (map_window w ∷ []) s (λ d. refl) h in
      elim (Bool-cases (o.maps w)) [ inl e ↦ rw e (held, l) | inr e ↦ rw e held ]

  quiet : (pix : ℕ) (d : Display) → serve_all o (create_pixmap pix ∷ []) d ≡ d
  unfolding serve_all
  quiet pix d = refl

  properties-quiet :
      (atoms : List (Text × ℕ)) (name : Text) (m : Monitor) (w : ℕ) (d : Display)
      → serve_all o (properties atoms name m w) d ≡ d
  unfolding serve_all
  properties-quiet atoms name m w d = refl

  create_one-Ends :
      (atoms : List (Text × ℕ)) (name : Text) (m : Monitor) (id : Option ℕ) (s : Screen)
      → IsHeld o s
      → Ends (length s.windows + 1) (create_one o atoms (some name) m id s)
  unfolding serve_all
  create_one-Ends atoms name m none s h = h
  create_one-Ends atoms name m (some w) s h = elim (Bool-cases (o.creates w)) [
    | inl made ↦
        let sent = send (creation m w ∷ []) s in
        let s' : Screen = record sent { windows = sent.windows ++ w ∷ [] } in
        let there : IsHeld o s' = record {
          held =
              display-send o (creation m w ∷ []) s
              ∙ rw made (ap {A = Display} (λ d. record d { windows = d.windows ++ w ∷ [] }) h.held);
          still_open = h.still_open;
          for_monitors = h.for_monitors;
        } in
        rw made (
          map_made-Ends (length s.windows + 1) m w (send (properties atoms name m w) s')
            (send-IsHeld (properties atoms name m w) s' (properties-quiet atoms name m w) there)
            (length-append s.windows (w ∷ [])))
    | inr e ↦ rw e (record {
      held = display-send o (creation m w ∷ []) s ∙ rw e h.held;
      still_open = h.still_open;
      for_monitors = h.for_monitors;
    })
  ]

get_elem?-some : (xs : List Text) (i : ℕ) → i < length xs → (x : Text) × (get_elem? xs i ≡ some x)
get_elem?-some [] i h = absurd (omega arith)
get_elem?-some (x ∷ xs) zero h = (x, refl)
get_elem?-some (x ∷ xs) (suc i) h = get_elem?-some xs i (omega arith)

module _ (o : Server) where
  if_well-Ends :
      (n k : ℕ) (r : End × Screen) (next : Screen → End × Screen)
      → Ends o n r
      → ((s : Screen) → IsHeld o s → length s.windows ≡ n → Ends o k (next s))
      → Ends o k (if_well o r next)
  if_well-Ends n k (well, s) next (held, l) h = h s held l
  if_well-Ends n k (fails e, s) next held h = held
  if_well-Ends n k (panics, s) next bad h = bad
  if_well-Ends n k (hangs, s) next bad h = bad

module _ (o : Server) (name : Text) (names : List Text) where
  create_windows-Ends :
      (atoms : List (Text × ℕ)) (i : ℕ) (ms : List Monitor) (s : Screen)
      → IsHeld o s
      → Ends o (length s.windows + length ms) (create_windows o atoms (name ∷ names) i ms s)
  unfolding create_windows
  create_windows-Ends atoms i [] s h = (h, omega arith)
  create_windows-Ends atoms i (m ∷ ms) s h =
      let (n, named) =
        get_elem?-some (name ∷ names) (i % length (name ∷ names))
          (mod-lt i (zero-lt-suc (length names))) in
      rw named (
        if_well-Ends o (length s.windows + 1) (length s.windows + suc (length ms))
          (create_one o atoms (some n) m (o.window_id i) s)
          (λ s'. create_windows o atoms (name ∷ names) (suc i) ms s')
          (create_one-Ends o atoms n m (o.window_id i) s h)
          λ s' held l.
            let count : length s'.windows + length ms ≡ length s.windows + suc (length ms) =
              omega arith in
            subst (λ k. Ends o k (create_windows o atoms (name ∷ names) (suc i) ms s')) count
              (create_windows-Ends atoms (suc i) ms s' held))

  with_cursor-Ends :
      (atoms : List (Text × ℕ)) (pix : ℕ) (id : Option ℕ) (s : Screen)
      → IsHeld o s
      → s.windows ≡ []
      → s.cursor ≡ 0
      → id ≢ some 0
      → Ends o (length s.mons) (with_cursor o atoms (name ∷ names) pix id s)
  unfolding serve_all
  with_cursor-Ends atoms pix none s h w c z = h
  with_cursor-Ends atoms pix (some id) s h w c z =
      let s' = send (create_cursor id pix ∷ free_pixmap pix ∷ []) (record s { cursor = id }) in
      let other : (id == 0) ≡ false = elim (Bool-cases (id == 0)) [
        | inl e ↦ absurd (z (ap some (ground arith)))
        | inr e ↦ e
      ] in
      let held : IsHeld o s' = record {
        held =
            display-send o (create_cursor id pix ∷ free_pixmap pix ∷ []) (record s { cursor = id })
            ∙ ap {A = Display} (λ d. record d { cursors = id ∷ d.cursors }) h.held
            ∙ rw other (rw c refl);
        still_open = h.still_open;
        for_monitors = h.for_monitors;
      } in
      let none_yet : length s.windows ≡ 0 = ap length w in
      let count : length s.windows + length s.mons ≡ length s.mons = omega arith in
      subst (λ k. Ends o k (create_windows o atoms (name ∷ names) 0 s.mons s')) count
        (create_windows-Ends atoms 0 s.mons s' held)

  pub create-Ends :
      (s : Screen)
      → IsHeld o s
      → s.windows ≡ []
      → s.cursor ≡ 0
      → o.cursor_id ≢ some 0
      → Ends o (length s.mons) (create o (name ∷ names) s)
  unfolding create
  create-Ends s h w c z = atoms (intern_atoms o state_names)
    where
      pixmap :
          (found_atoms : List (Text × ℕ)) (id : Option ℕ)
          → Ends o (length s.mons) (with_pixmap o found_atoms (name ∷ names) id s)
      pixmap found_atoms none = h
      pixmap found_atoms (some pix) =
          with_cursor-Ends found_atoms pix o.cursor_id (send (create_pixmap pix ∷ []) s)
            (send-IsHeld o (create_pixmap pix ∷ []) s (quiet o pix) h) w c z

      atoms : (a : Atoms) → Ends o (length s.mons) (with_atoms o a (name ∷ names) s)
      atoms (unknown n) = h
      atoms (found found_atoms) = pixmap found_atoms o.pixmap_id
