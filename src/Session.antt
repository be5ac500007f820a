-- ===== src/Session.antt =====
-- internal/session/session.go: the session's lock and GNOME's idle delay. The helper processes
-- (loginctl, gsettings), the environment and the file system are arguments: a helper answers with
-- its output, or none when it fails.
pub mod Laws
use retrosaver.Prelude.{
  ℕ, ◌+◌, Bool, true, false, not, ◌&&◌, ◌||◌, List, [], ◌∷◌, ◌++◌, Option, none, some, leb,
  if◌then◌else◌, Text, codes, text_eq, lt64,
}
use retrosaver.Chars.{trim_space, fields, has_prefix, atoi, itoa}

abbrev pub default_idle_delay : ℕ
default_idle_delay = 300

-- What `graphicalSessionID` reads: the variable's value, and what `loginctl show-user` prints.
pub record Session : Type 0 where
  pub environment : Text
  pub show_user : Option Text
  pub show_session : Text → Option Text
  pub lock_session : List Text → Bool

abbrev pub trimmed : Option Text → Option Text
trimmed none = none
trimmed (some out) = some (trim_space out)

abbrev pub graphical_session_id : Session → Option Text
graphical_session_id s =
    let id = trim_space s.environment in
    if not (text_eq id []) then some id else trimmed s.show_user

-- The arguments of `loginctl` when it is to lock.
abbrev pub lock_arguments : Option Text → List Text
lock_arguments none = codes "lock-session" ∷ []
lock_arguments (some id) =
    if not (text_eq id []) then codes "lock-session" ∷ id ∷ [] else codes "lock-session" ∷ []

-- `Lock`: false stands for the error.
unfoldable pub lock : Session → Bool
lock s = s.lock_session (lock_arguments (graphical_session_id s))

unfoldable pub drop_prefix : Text → Text → Text
drop_prefix s [] = s
drop_prefix [] (p ∷ ps) = []
drop_prefix (c ∷ cs) (p ∷ ps) = drop_prefix cs ps

-- strings.TrimPrefix
abbrev pub trim_prefix : Text → Text → Text
trim_prefix s p = if has_prefix s p then drop_prefix s p else s

abbrev pub lower : ℕ → ℕ
lower c = if leb 65 c && leb c 90 then c + 32 else c

-- strings.ToLower, on ASCII.
unfoldable pub to_lower : Text → Text
to_lower [] = []
to_lower (c ∷ cs) = lower c ∷ to_lower cs

abbrev pub hint_of : Text → Option Bool
hint_of v =
    if text_eq v (codes "yes") || text_eq v (codes "true") || text_eq v (codes "1")
    then some true
    else if text_eq v (codes "no") || text_eq v (codes "false") || text_eq v (codes "0")
    then some false
    else none

unfoldable pub parse_locked_hint : Text → Option Bool
parse_locked_hint s =
    hint_of (to_lower (trim_space (trim_prefix (trim_space s) (codes "LockedHint="))))

abbrev pub hint_or_error : Option Text → Option Bool
hint_or_error none = none
hint_or_error (some out) = parse_locked_hint out

abbrev pub locked_as : Session → Option Text → Option Bool
locked_as s none = none
locked_as s (some id) = if text_eq id [] then none else hint_or_error (s.show_session id)

-- `Locked`: none stands for the error.
unfoldable pub locked : Session → Option Bool
locked s = locked_as s (graphical_session_id s)

abbrev pub last_of : List Text → Option Text
last_of [] = none
last_of (f ∷ []) = some f
last_of (f ∷ g ∷ fs) = last_of (g ∷ fs)

abbrev pub not_negative : Option ℕ → Option ℕ
not_negative none = none
not_negative (some n) = if lt64 n 0 then none else some n

abbrev pub number_in : Option Text → Option ℕ
number_in none = none
number_in (some t) = not_negative (atoi t)

unfoldable pub parse_idle_delay : Text → Option ℕ
parse_idle_delay s = number_in (last_of (fields s))

abbrev pub idle_delay : Option Text → Option ℕ
idle_delay none = none
idle_delay (some out) = parse_idle_delay out

-- What the operating system answers while `SaveIdleDelay` runs. A write that fails leaves a part of
-- the text behind, which stays when the removal fails too.
pub record Answers : Type 0 where
  pub config_dir : Bool
  pub mkdir_ok : Bool
  pub gsettings_get : Option Text
  pub create_ok : Bool
  pub write_ok : Bool
  pub close_ok : Bool
  pub remove_ok : Bool
  pub partial : Text

-- The file after a removal that nothing reports.
abbrev pub removed : Answers → Text → Option Text
removed a left = if a.remove_ok then none else some left

abbrev pub write_saved : Answers → Text → Bool × Option Text
write_saved a text =
    if not a.create_ok
    then (false, none)
    else if not a.write_ok
    then (false, removed a a.partial)
    else if not a.close_ok
    then (false, removed a text)
    else (true, some text)

abbrev pub create_exclusive : Answers → Option Text → Text → Bool × Option Text
create_exclusive a (some saved) text = (true, some saved)
create_exclusive a none text = write_saved a text

abbrev pub save_current : Answers → Option Text → Option ℕ → Bool × Option Text
save_current a file none = (false, file)
save_current a file (some current) = create_exclusive a file (itoa current ++ 10 ∷ [])

-- `SaveIdleDelay`: whether it succeeds, and the saved file afterwards.
unfoldable pub save_idle_delay : Answers → Option Text → Bool × Option Text
save_idle_delay a file =
    if not a.config_dir
    then (false, file)
    else if not a.mkdir_ok
    then (false, file)
    else save_current a file (idle_delay a.gsettings_get)

abbrev pub or_default : Option ℕ → ℕ
or_default none = default_idle_delay
or_default (some n) = n

abbrev pub saved_value : Option Text → Option ℕ
saved_value none = none
saved_value (some t) = not_negative (atoi (trim_space t))

-- `SetIdleDelay`: the value that `gsettings set` is called with, unless it is negative.
abbrev pub set_idle_delay : ℕ → Option Text
set_idle_delay n = if lt64 n 0 then none else some (itoa n)

-- `RestoreIdleDelay`, of the file that can be read: the value that `gsettings set` is called with.
unfoldable pub restore_idle_delay : Option Text → Option Text
restore_idle_delay file = set_idle_delay (or_default (saved_value file))

-- `ClearSavedIdleDelay`: whether it succeeds, and the saved file afterwards.
unfoldable pub clear_saved_idle_delay : Bool → Bool → Option Text → Bool × Option Text
clear_saved_idle_delay dir_ok remove_ok none = (dir_ok, none)
clear_saved_idle_delay dir_ok remove_ok (some saved) =
    if dir_ok && remove_ok then (true, none) else (false, some saved)
