-- ===== src/Window/Screen.antt =====
-- internal/window/screen.go and internal/window/monitors.go: the windows that the savers draw in,
-- one per monitor, from `openScreen` to `close`. What the X server answers, and what the waits end
-- with, are given; the requests that are sent to it are kept in their order.
pub mod Settling
pub mod Waiting
pub mod Tidy
pub mod Creating
pub mod Opened
use retrosaver.Prelude.{
  ℕ, suc, ◌+◌, ◌%◌, ◌^◌, Bool, true, false, not, ◌&&◌, ◌||◌, List, [], ◌∷◌, ◌++◌, Option, none,
  some, map, ◌==◌, if◌then◌else◌, length, get_elem?, Text, text_eq, codes,
}
use retrosaver.Window.{Monitor, same_monitor, distinct}

-- What the Xinerama extension answers: none for an error.
pub record Xinerama : Type 0 where
  pub init : Bool
  pub state : Option ℕ
  pub screens : Option (List Monitor)

abbrev pub queried : Option (List Monitor) → Option (List Monitor)
queried none = none
queried (some mons) = some (distinct mons)

abbrev pub if_active : Option ℕ → Option (List Monitor) → Option (List Monitor)
if_active none screens = none
if_active (some state) screens = if state == 0 then some [] else queried screens

-- `monitors`: none for an error.
abbrev pub monitors : Xinerama → Option (List Monitor)
monitors x = if not x.init then none else if_active x.state x.screens

abbrev pub or_whole_screen : Monitor → List Monitor → List Monitor
or_whole_screen whole [] = whole ∷ []
or_whole_screen whole (m ∷ ms) = m ∷ ms

abbrev pub read_or_none : Option (List Monitor) → List Monitor
read_or_none none = []
read_or_none (some mons) = mons

-- `layout`, with the rectangle of the whole X screen.
abbrev pub layout : Xinerama → Monitor → List Monitor
layout x whole = or_whole_screen whole (read_or_none (monitors x))

-- `Monitors`: none when there is no connection.
abbrev pub monitor_count : Bool → Xinerama → Monitor → Option ℕ
monitor_count connects x whole = if connects then some (length (layout x whole)) else none

-- An atom of the X protocol by its name, or one that is interned.
pub data Atom : Type 0 where
  wm_name wm_class wm_normal_hints wm_size_hints atom_type string_type : Atom
  interned : ℕ → Atom

-- The requests to the X server that change something. A window, a cursor and a pixmap are their
-- ids; a window is created at the place and of the size that the four numbers after it give.
pub data Request : Type 0 where
  create_pixmap free_pixmap : ℕ → Request
  create_cursor : ℕ → ℕ → Request
  free_cursor : ℕ → Request
  create_window : ℕ → ℕ → ℕ → ℕ → ℕ → Request
  set_string set_cards : ℕ → Atom → Atom → List ℕ → Request
  map_window destroy_window : ℕ → Request
  round_trip close_connection : Request

-- How the window manager has a window: whether it manages it, and the size and place that it gave
-- it.
pub record View : Type 0 where
  pub is_managed : Bool
  pub size : Option (ℕ × ℕ)
  pub place : Option (ℕ × ℕ)

-- What ends a wait of `settle`.
pub data Wait : Type 0 where
  canceled expired polled : Wait

-- The X server: its setup, its replies, and its windows before and after the wait of each round.
pub record Server : Type 0 where
  pub connects : Bool
  pub xinerama : Xinerama
  pub whole : Monitor
  pub atom : Text → Option ℕ
  pub pixmap_id : Option ℕ
  pub cursor_id : Option ℕ
  pub window_id : ℕ → Option ℕ
  pub creates : ℕ → Bool
  pub maps : ℕ → Bool
  pub wait : ℕ → Wait
  pub before : ℕ → ℕ → View
  pub after : ℕ → ℕ → View

-- `screen`, with the requests that were sent on its connection.
pub record Screen : Type 0 where
  pub cursor : ℕ
  pub windows : List ℕ
  pub mons : List Monitor
  pub closed : Bool
  pub sent : List Request

pub data ScreenError : Type 0 where
  no_connection no_pixmap no_cursor no_id was_canceled : ScreenError
  no_atom : Text → ScreenError
  not_created not_mapped not_managed : Monitor → ScreenError

-- How a step ends: with no error, with one, in a panic of the program, or never.
pub data End : Type 0 where
  well panics hangs : End
  fails : ScreenError → End

abbrev pub send : List Request → Screen → Screen
send rs s = record s { sent = s.sent ++ rs }

abbrev pub destroys : List ℕ → List Request
destroys [] = []
destroys (w ∷ ws) = destroys ws ++ destroy_window w ∷ []

-- The cursor is freed, and a reply waited for before the connection goes.
abbrev pub last_requests : ℕ → List Request
last_requests cursor =
    (if cursor == 0 then [] else free_cursor cursor ∷ []) ++ round_trip ∷ close_connection ∷ []

-- `close`: the windows are destroyed from the last one back.
unfoldable pub close : Screen → Screen
close s =
    if s.closed
    then s
    else send (destroys s.windows ++ last_requests s.cursor) (record s { closed = true })

-- What `internAtoms` looks up, and the first name that it fails at.
pub data Atoms : Type 0 where
  unknown : Text → Atoms
  found : List (Text × ℕ) → Atoms

abbrev pub and_atom : Text → Option ℕ → Atoms → Atoms
and_atom name none rest = unknown name
and_atom name (some a) (unknown other) = unknown other
and_atom name (some a) (found rest) = found ((name, a) ∷ rest)

-- A map's value at a key: zero for a key that it does not have.
unfoldable pub atom_at : List (Text × ℕ) → Text → ℕ
atom_at [] name = 0
atom_at ((key, a) ∷ atoms) name =
    let rest = atom_at atoms name in if text_eq key name then a else rest

abbrev pub state_names : List Text
state_names =
    codes "_NET_WM_STATE"
    ∷ codes "_NET_WM_STATE_FULLSCREEN"
    ∷ codes "_NET_WM_STATE_ABOVE"
    ∷ codes "_NET_WM_NAME"
    ∷ codes "UTF8_STRING"
    ∷ []

abbrev pub class_text : Text
class_text = codes "retrosaver" ++ 0 ∷ codes "retrosaver" ++ 0 ∷ []

abbrev pub window_name : Text → Text
window_name name = codes "retrosaver: " ++ name

-- `uint32`, of an int64 pattern; `int16` and `uint16` as patterns too.
abbrev pub to_32 : ℕ → ℕ
to_32 n = n % 2 ^ 32

abbrev pub to_16 : ℕ → ℕ
to_16 n = n % 2 ^ 16

-- The hints of the position and the size that the user asked for, in the eighteen cards of the
-- property.
abbrev pub size_hints : Monitor → List ℕ
size_hints m =
    3
    ∷ to_32 m.x
    ∷ to_32 m.y
    ∷ to_32 m.width
    ∷ to_32 m.height
    ∷ 0
    ∷ 0
    ∷ 0
    ∷ 0
    ∷ 0
    ∷ 0
    ∷ 0
    ∷ 0
    ∷ 0
    ∷ 0
    ∷ 0
    ∷ 0
    ∷ 0
    ∷ []

-- The properties of a window, set before it is mapped.
abbrev pub properties : List (Text × ℕ) → Text → Monitor → ℕ → List Request
properties atoms name m w =
    set_string w wm_name string_type (window_name name)
    ∷ set_string w (interned (atom_at atoms (codes "_NET_WM_NAME")))
        (interned (atom_at atoms (codes "UTF8_STRING"))) (window_name name)
    ∷ set_string w wm_class string_type class_text
    ∷ set_cards w wm_normal_hints wm_size_hints (size_hints m)
    ∷ set_cards w (interned (atom_at atoms (codes "_NET_WM_STATE"))) atom_type (
        to_32 (atom_at atoms (codes "_NET_WM_STATE_FULLSCREEN"))
        ∷ to_32 (atom_at atoms (codes "_NET_WM_STATE_ABOVE"))
        ∷ [])
    ∷ []

abbrev pub creation : Monitor → ℕ → Request
creation m w = create_window w (to_16 m.x) (to_16 m.y) (to_16 m.width) (to_16 m.height)

module _ (o : Server) where
  unfoldable pub intern_atoms : List Text → Atoms
  intern_atoms [] = found []
  intern_atoms (name ∷ names) = and_atom name (o.atom name) (intern_atoms names)

  abbrev pub map_made : Monitor → ℕ → Screen → End × Screen
  map_made m w s =
      let s' = send (map_window w ∷ []) s in
      if o.maps w then (well, s') else (fails (not_mapped m), s')

  -- The window of one monitor.
  abbrev pub create_one : List (Text × ℕ) → Option Text → Monitor → Option ℕ → Screen → End × Screen
  create_one atoms none m w s = (panics, s)
  create_one atoms (some name) m none s = (fails no_id, s)
  create_one atoms (some name) m (some w) s =
      let sent = send (creation m w ∷ []) s in
      if not (o.creates w)
      then (fails (not_created m), sent)
      else map_made m w
          (send (properties atoms name m w) (record sent { windows = sent.windows ++ w ∷ [] }))

  abbrev pub if_well : End × Screen → (Screen → End × Screen) → End × Screen
  if_well (well, s) next = next s
  if_well (fails e, s) next = (fails e, s)
  if_well (panics, s) next = (panics, s)
  if_well (hangs, s) next = (hangs, s)

  -- Indexing by the remainder panics where there are no modules.
  abbrev pub name_at : List Text → ℕ → Option Text
  name_at [] i = none
  name_at (n ∷ ns) i = get_elem? (n ∷ ns) (i % length (n ∷ ns))

  unfoldable pub create_windows :
      List (Text × ℕ) → List Text → ℕ → List Monitor → Screen → End × Screen
  create_windows atoms modules i [] s = (well, s)
  create_windows atoms modules i (m ∷ ms) s =
      if_well (create_one atoms (name_at modules i) m (o.window_id i) s)
        (λ s'. create_windows atoms modules (suc i) ms s')

  abbrev pub with_cursor : List (Text × ℕ) → List Text → ℕ → Option ℕ → Screen → End × Screen
  with_cursor atoms modules pix none s = (fails no_cursor, s)
  with_cursor atoms modules pix (some c) s =
      create_windows atoms modules 0 s.mons
        (send (create_cursor c pix ∷ free_pixmap pix ∷ []) (record s { cursor = c }))

  abbrev pub with_pixmap : List (Text × ℕ) → List Text → Option ℕ → Screen → End × Screen
  with_pixmap atoms modules none s = (fails no_pixmap, s)
  with_pixmap atoms modules (some pix) s =
      with_cursor atoms modules pix o.cursor_id (send (create_pixmap pix ∷ []) s)

  abbrev pub with_atoms : Atoms → List Text → Screen → End × Screen
  with_atoms (unknown name) modules s = (fails (no_atom name), s)
  with_atoms (found atoms) modules s = with_pixmap atoms modules o.pixmap_id s

  -- `create`
  unfoldable pub create : List Text → Screen → End × Screen
  create modules s = with_atoms (intern_atoms state_names) modules s
