-- ===== src/Signals.antt =====
-- internal/idle/idle.go and internal/session/lockwatch.go: what the program reads off the two D-Bus
-- connections. The bus is an argument: signals come as a list, and a method call answers with its
-- result, or none when it fails.
pub mod Laws
pub mod Subscribing
use retrosaver.Prelude.{
  ℕ, zero, suc, ◌+◌, ◌*◌, ◌/◌, Bool, true, false, not, ◌&&◌, ◌||◌, List, [], ◌∷◌, ◌++◌, Option,
  none, some, leb, ltb, if◌then◌else◌, is_some, Text, codes, text_eq, word, half_word, mul64, le64,
  div64,
}
use retrosaver.Config.{Duration}
use retrosaver.Config.Write.{lookup}

-- A value in a variant, as far as `LockedHint` goes.
pub data Variant : Type 0 where
  boolean : Bool → Variant
  other : Variant

-- An argument of a signal: a uint32, a string, a map from strings to variants, or anything else.
pub data Argument : Type 0 where
  uint32 : ℕ → Argument
  string : Text → Argument
  variants : List (Text × Variant) → Argument
  unknown : Argument

pub record Signal : Type 0 where
  pub path : Text
  pub name : Text
  pub body : List Argument

abbrev pub idle_path : Text
idle_path = codes "/org/gnome/Mutter/IdleMonitor/Core"

abbrev pub watch_fired : Text
watch_fired = codes "org.gnome.Mutter.IdleMonitor.WatchFired"

abbrev pub fired_body : List Argument → Option ℕ
fired_body (uint32 id ∷ []) = some id
fired_body _ = none

-- `watchFiredID`: none for a signal that is not one; a nil signal is none.
unfoldable pub watch_fired_id : Option Signal → Option ℕ
watch_fired_id none = none
watch_fired_id (some sig) =
    if not (text_eq sig.path idle_path) || not (text_eq sig.name watch_fired)
    then none
    else fired_body sig.body

abbrev pub properties_changed : Text
properties_changed = codes "org.freedesktop.DBus.Properties.PropertiesChanged"

abbrev pub logind_session : Text
logind_session = codes "org.freedesktop.login1.Session"

abbrev pub hint_in : Option Variant → Option Bool
hint_in (some (boolean locked)) = some locked
hint_in _ = none

abbrev pub hint_of_body : List Argument → Option Bool
hint_of_body (string interface ∷ variants changed ∷ _) =
    if text_eq interface logind_session then hint_in (lookup changed (codes "LockedHint")) else none
hint_of_body _ = none

-- `lockedHintChange` of a session's path.
unfoldable pub locked_hint_change : Text → Option Signal → Option Bool
locked_hint_change path none = none
locked_hint_change path (some sig) =
    if not (text_eq sig.path path) || not (text_eq sig.name properties_changed)
    then none
    else hint_of_body sig.body

-- The loop of both `pump`s: what it reads from its two channels, in that order, and what its reader
-- takes.
pub data Received : Type 0 where
  signal : Option Signal → Received
  signals_closed closing : Received

-- A value that the pump holds waits for the reader or for `Close`, whichever comes first.
pub record Pump {ℓ} (A : Type ℓ) : Type ℓ where
  pub sent : List A
  pub held : Option A
  pub closed : Bool

pub data Turn : Type 0 where
  receives : Received → Turn
  reader_takes : Turn

module _ {ℓ} {A : Type ℓ} (decode : Option Signal → Option A) where
  abbrev pub receive : Received → Pump A → Pump A
  receive (signal sig) p = record p { held = decode sig }
  receive signals_closed p = record p { closed = true }
  receive closing p = record p { closed = true }

  abbrev pub deliver : Option A → Pump A → Pump A
  deliver none p = p
  deliver (some a) p = record p { sent = p.sent ++ a ∷ []; held = none }

  -- While it holds a value the pump reads no signal: it waits for the reader, or for `Close`.
  abbrev pub turn_open : Turn → Option A → Pump A → Pump A
  turn_open reader_takes held p = deliver held p
  turn_open (receives closing) held p = record p { closed = true; held = none }
  turn_open (receives r) (some a) p = p
  turn_open (receives r) none p = receive r p

  unfoldable pub turn : Turn → Pump A → Pump A
  turn t p = if p.closed then p else turn_open t p.held p

  unfoldable pub turns : List Turn → Pump A → Pump A
  turns [] p = p
  turns (t ∷ ts) p = turns ts (turn t p)

abbrev pub millisecond : ℕ
millisecond = 1_000_000

abbrev pub as_duration : Option ℕ → Option Duration
as_duration none = none
as_duration (some ms) = some (mul64 ms millisecond)

-- `Idletime`, of the uint64 that `GetIdletime` returns.
unfoldable pub idletime : Option ℕ → Option Duration
idletime reply = as_duration reply

-- `AddIdleWatch`: the call is made, with the milliseconds, only for an interval that is positive.
unfoldable pub add_idle_watch : (ℕ → Option ℕ) → Duration → Option ℕ
add_idle_watch call d = let ms = div64 d millisecond in if le64 ms 0 then none else call ms
