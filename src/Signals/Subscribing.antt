-- ===== src/Signals/Subscribing.antt =====
-- internal/idle/idle.go and internal/session/lockwatch.go: `Connect` and `WatchLocks`, which
-- subscribe to signals, and the `Close` of both. The answers of the bus are given; the calls are
-- kept in order.
use retrosaver.Prelude.{
  ◌≡◌, refl, Bool, true, false, not, ◌&&◌, List, [], ◌∷◌, ◌++◌, Option, none, some, if◌then◌else◌,
  Text,
}

-- What is done on a connection. A dial and a match rule have their outcome.
pub data Call : Type 0 where
  dial add_match : Bool → Call
  ask register unregister start_pump release_pump close_connection wait_pump : Call

pub data SubscribeError : Type 0 where
  no_session no_bus no_answer not_owned no_match : SubscribeError

-- From the registration of the channel on, after the calls that came before it.
abbrev pub subscribed : List Call → Bool → Option SubscribeError × List Call
subscribed calls match_ok =
    if match_ok
    then (none, calls ++ register ∷ add_match true ∷ start_pump ∷ [])
    else (some no_match, calls ++ register ∷ add_match false ∷ unregister ∷ close_connection ∷ [])

abbrev pub owned : Option Bool → Bool → Option SubscribeError × List Call
owned none match_ok = (some no_answer, dial true ∷ ask ∷ close_connection ∷ [])
owned (some false) match_ok = (some not_owned, dial true ∷ ask ∷ close_connection ∷ [])
owned (some true) match_ok = subscribed (dial true ∷ ask ∷ []) match_ok

-- `Connect`: whether the bus is reached, what it says of the name's owner, and whether it takes the
-- match rule.
unfoldable pub connect : Bool → Option Bool → Bool → Option SubscribeError × List Call
connect dials owner match_ok =
    if not dials then (some no_bus, dial false ∷ []) else owned owner match_ok

abbrev pub session_found : Option Text → Bool → Option SubscribeError × List Call
session_found none match_ok = (some no_answer, dial true ∷ ask ∷ close_connection ∷ [])
session_found (some path) match_ok = subscribed (dial true ∷ ask ∷ []) match_ok

-- `WatchLocks`: the graphical session's id, as `graphicalSessionID` gives it, whether the bus is
-- reached, the session's path, and whether the bus takes the match rule.
unfoldable pub watch_locks :
    Option Text → Bool → Option Text → Bool → Option SubscribeError × List Call
watch_locks none dials path match_ok = (some no_session, [])
watch_locks (some []) dials path match_ok = (some no_session, [])
watch_locks (some (c ∷ cs)) dials path match_ok =
    if not dials then (some no_bus, dial false ∷ []) else session_found path match_ok

-- `Close`, given whether it was called before.
abbrev pub close : Bool → List Call
close again = if again then [] else release_pump ∷ unregister ∷ close_connection ∷ wait_pump ∷ []

-- What a program holds of a bus.
pub record Link : Type 0 where
  pub connected : Bool
  pub registered : Bool
  pub matching : Bool
  pub pumping : Bool
  pub released : Bool

-- What a call makes of it: none where signals come in with no channel for them, a call needs a
-- connection that is not there, or a wait has no end.
abbrev pub perform : Call → Link → Option Link
perform (dial ok) l = some (record l { connected = ok })
perform ask l = if l.connected then some l else none
perform register l = if l.connected then some (record l { registered = true }) else none
perform (add_match ok) l =
    if l.connected && l.registered then some (record l { matching = ok }) else none
perform unregister l = some (record l { registered = false })
perform start_pump l =
    if l.connected && l.registered then some (record l { pumping = true }) else none
perform release_pump l = some (record l { released = true })
perform close_connection l =
    if l.connected then some (record l { connected = false; matching = false }) else none
perform wait_pump l = if l.released then some (record l { pumping = false }) else none

abbrev pub and_perform : (Link → Option Link) → Option Link → Option Link
and_perform next none = none
and_perform next (some l) = next l

unfoldable pub perform_all : List Call → Link → Option Link
perform_all [] l = some l
perform_all (c ∷ cs) l = and_perform (perform_all cs) (perform c l)

abbrev pub unlinked : Link
unlinked = record {
  connected = false;
  registered = false;
  matching = false;
  pumping = false;
  released = false;
}

abbrev pub linked : Link
linked = record {
  connected = true;
  registered = true;
  matching = true;
  pumping = true;
  released = false;
}

-- An error leaves nothing behind; a success has all of it, and two closes leave nothing but the
-- mark that the pump was released.
abbrev pub LeavesNothing : Option SubscribeError × List Call → Type 0
LeavesNothing (some e, calls) = perform_all calls unlinked ≡ some unlinked
LeavesNothing (none, calls) =
    (perform_all calls unlinked ≡ some linked)
    × (perform_all (close false ++ close true) linked ≡ some (record unlinked { released = true }))

subscribed-LeavesNothing :
    (match_ok : Bool) → LeavesNothing (subscribed (dial true ∷ ask ∷ []) match_ok)
unfolding perform_all
subscribed-LeavesNothing true = (refl, refl)
subscribed-LeavesNothing false = refl

asked_in_vain : perform_all (dial true ∷ ask ∷ close_connection ∷ []) unlinked ≡ some unlinked
unfolding perform_all
asked_in_vain = refl

unconnected : perform_all (dial false ∷ []) unlinked ≡ some unlinked
unfolding perform_all
unconnected = refl

connect-LeavesNothing :
    (dials : Bool) (owner : Option Bool) (match_ok : Bool)
    → LeavesNothing (connect dials owner match_ok)
unfolding connect
connect-LeavesNothing false owner match_ok = unconnected
connect-LeavesNothing true none match_ok = asked_in_vain
connect-LeavesNothing true (some false) match_ok = asked_in_vain
connect-LeavesNothing true (some true) match_ok = subscribed-LeavesNothing match_ok

watch_locks-LeavesNothing :
    (id : Option Text) (dials : Bool) (path : Option Text) (match_ok : Bool)
    → LeavesNothing (watch_locks id dials path match_ok)
unfolding watch_locks perform_all
watch_locks-LeavesNothing none dials path match_ok = refl
watch_locks-LeavesNothing (some []) dials path match_ok = refl
watch_locks-LeavesNothing (some (c ∷ cs)) false path match_ok = unconnected
watch_locks-LeavesNothing (some (c ∷ cs)) true none match_ok = asked_in_vain
watch_locks-LeavesNothing (some (c ∷ cs)) true (some path) match_ok =
    subscribed-LeavesNothing match_ok

-- Subscribing to the idle monitor and to the lock state takes a connection, a channel, a match rule
-- and a pump, the channel before the rule, or fails and gives back what it took; closing, once or
-- twice, ends the pump without a deadlock and gives back all of it.
pub subscribing-LeavesNothing :
    (dials match_ok : Bool) (owner : Option Bool) (id path : Option Text)
    → LeavesNothing (connect dials owner match_ok)
      × LeavesNothing (watch_locks id dials path match_ok)
subscribing-LeavesNothing dials match_ok owner id path =
    (connect-LeavesNothing dials owner match_ok, watch_locks-LeavesNothing id dials path match_ok)
