-- ===== src/Window/Screen/Tidy.antt =====
-- internal/window/screen.go: the windows that the X server has, from `openScreen` to `close`.
use retrosaver.Prelude.{
  ℕ, ◌≡◌, ◌≢◌, inl, inr, refl, sym, ap, subst, ◌∙◌, Bool, true, false, List, [], ◌∷◌, ◌++◌, arith,
  Bool-cases, if◌then◌else◌, Member, ◌==◌,
}
use retrosaver.Window.Screen.{
  Request, create_pixmap, free_pixmap, create_cursor, free_cursor, create_window, set_string,
  set_cards, map_window, destroy_window, round_trip, close_connection, Server, Screen, send,
  destroys, last_requests, close, layout,
}

-- What the X server has of the program's, as far as it outlives a request.
pub record Display : Type 0 where
  pub windows : List ℕ
  pub cursors : List ℕ
  pub connected : Bool

abbrev pub without : ℕ → List ℕ → List ℕ
without w [] = []
without w (x ∷ xs) = let rest = without w xs in if x == w then rest else x ∷ rest

module _ (o : Server) where
  -- What a request does to it. A window is there if the server creates it.
  abbrev pub serve : Request → Display → Display
  serve (create_window w x y width height) d =
      if o.creates w then record d { windows = d.windows ++ w ∷ [] } else d
  serve (destroy_window w) d = record d { windows = without w d.windows }
  serve (create_cursor c pix) d = record d { cursors = c ∷ d.cursors }
  serve (free_cursor c) d = record d { cursors = without c d.cursors }
  serve close_connection d = record d { connected = false }
  serve (create_pixmap pix) d = d
  serve (free_pixmap pix) d = d
  serve (set_string w property type_of text) d = d
  serve (set_cards w property type_of cards) d = d
  serve (map_window w) d = d
  serve round_trip d = d

  unfoldable pub serve_all : List Request → Display → Display
  serve_all [] d = d
  serve_all (r ∷ rs) d = serve_all rs (serve r d)

  abbrev pub new_display : Display
  new_display = record { windows = []; cursors = []; connected = true }

  -- What the server has after all that was sent for a screen.
  abbrev pub display : Screen → Display
  display s = serve_all s.sent new_display

  serve_all-append :
      (rs qs : List Request) (d : Display) → serve_all (rs ++ qs) d ≡ serve_all qs (serve_all rs d)
  unfolding serve_all
  serve_all-append [] qs d = refl
  serve_all-append (r ∷ rs) qs d = serve_all-append rs qs (serve r d)

  abbrev pub cursors_of : ℕ → List ℕ
  cursors_of c = if c == 0 then [] else c ∷ []

  -- The server has what the screen names.
  abbrev pub Held : Screen → Display
  Held s = record { windows = s.windows; cursors = cursors_of s.cursor; connected = true }

  pub record IsHeld (s : Screen) : Type 0 where
    pub held : display s ≡ Held s
    pub still_open : s.closed ≡ false
    pub for_monitors : s.mons ≡ layout o.xinerama o.whole

  pub display-send :
      (rs : List Request) (s : Screen) → display (send rs s) ≡ serve_all rs (display s)
  display-send rs s = serve_all-append s.sent rs new_display

  abbrev without_each : List ℕ → List ℕ → List ℕ
  without_each [] v = v
  without_each (w ∷ ws) v = without w (without_each ws v)

  serve-destroys :
      (ws : List ℕ) (d : Display)
      → serve_all (destroys ws) d ≡ record d { windows = without_each ws d.windows }
  unfolding serve_all
  serve-destroys [] d = refl
  serve-destroys (w ∷ ws) d =
      serve_all-append (destroys ws) (destroy_window w ∷ []) d
      ∙ ap (serve (destroy_window w)) (serve-destroys ws d)

different_number : (x w : ℕ) → (x == w) ≡ false → x ≢ w
different_number x w h = λ e. absurd (ground arith)

Member-without : (w x : ℕ) (xs : List ℕ) → Member x (without w xs) → Member x xs × (x ≢ w)
Member-without w x [] m = absurd m
Member-without w x (y ∷ ys) m = elim (Bool-cases (y == w)) [
  | inl e ↦ let (later, other) = Member-without w x ys (rw e at m) in (inr later, other)
  | inr e ↦ elim (rw e at m) [
    | inl here ↦ (inl here, subst (λ z. z ≢ w) (sym here) (different_number y w e))
    | inr there ↦ let (later, other) = Member-without w x ys there in (inr later, other)
  ]
]

Member-without_each :
    (o : Server) (x : ℕ) (ws v : List ℕ)
    → Member x (without_each o ws v)
    → Member x v × (Member x ws → ⊥)
Member-without_each o x [] v m = (m, λ n. n)
Member-without_each o x (w ∷ ws) v m =
    let (rest, other) = Member-without w x (without_each o ws v) m in
    let (first, none_later) = Member-without_each o x ws v rest in
    (first, λ n. elim n [ inl e ↦ other e | inr later ↦ none_later later ])

no_members : (xs : List ℕ) → ((x : ℕ) → Member x xs → ⊥) → xs ≡ []
no_members [] h = refl
no_members (x ∷ xs) h = absurd (h x (inl refl))

without_each-nil : (o : Server) (ws : List ℕ) → without_each o ws ws ≡ []
without_each-nil o ws =
    no_members (without_each o ws ws)
      λ x m. let (first, gone) = Member-without_each o x ws ws m in gone first

without-one : (c : ℕ) → without c (c ∷ []) ≡ []
without-one c = ground arith

module _ (o : Server) where
  abbrev pub Nothing : Display
  Nothing = record { windows = []; cursors = []; connected = false }

  close_cursor :
      (c : ℕ)
      → serve_all o
          (last_requests c)
          (record { windows = []; cursors = cursors_of o c; connected = true })
        ≡ Nothing
  unfolding serve_all
  close_cursor c = elim (Bool-cases (c == 0)) [
    | inl e ↦ rw e refl
    | inr e ↦
        rw e (ap (λ cs. record { windows = []; cursors = cs; connected = false }) (without-one c))
  ]

  -- Closing leaves nothing of the program's on the server.
  pub close-Nothing :
      (s : Screen) → IsHeld o s → (display o (close s) ≡ Nothing) × ((close s).closed ≡ true)
  unfolding close
  close-Nothing s h = rw h.still_open (
    display-send o (destroys s.windows ++ last_requests s.cursor) s
        ∙ ap (serve_all o (destroys s.windows ++ last_requests s.cursor)) h.held
        ∙ serve_all-append o (destroys s.windows) (last_requests s.cursor) (Held o s)
        ∙ ap (serve_all o (last_requests s.cursor)) (
            serve-destroys o s.windows (Held o s)
            ∙ ap (λ ws. record (Held o s) { windows = ws }) (without_each-nil o s.windows))
        ∙ close_cursor s.cursor,
    refl,
  )

  -- A second call changes nothing.
  pub close-again : (s : Screen) → close (close s) ≡ close s
  unfolding close
  close-again s = elim (Bool-cases s.closed) [ inl e ↦ rw e refl | inr e ↦ rw e refl ]
