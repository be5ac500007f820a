-- ===== src/Tests/Reloads.antt =====
-- The way of an edit to the daemon, and the subscriptions, at concrete inputs.
use retrosaver.Prelude.{◌≡◌, true, List, [], ◌∷◌, none, some, length, Text, codes}
use retrosaver.Command.Reloads.{
  Change, edited, reads, receives, settles, forwards, hangs_up, hup_forwards, reloads, changes,
  started,
}
use retrosaver.Command.Reloads.Laws.{IsReported, rest, changes-loaded}
use retrosaver.Signals.Subscribing.{LeavesNothing, connect, watch_locks, subscribing-LeavesNothing}
use retrosaver.Tests.Files.{one_event, event_mentions}

abbrev conf : Text
conf = codes "retrosaver.conf"

-- An edit, a second one while the first is on its way, and a SIGHUP.
abbrev two_edits : List Change
two_edits =
    edited (codes "LOCK_AFTER=1") one_event
    ∷ reads
    ∷ receives
    ∷ settles
    ∷ hangs_up
    ∷ edited (codes "LOCK_AFTER=2") one_event
    ∷ hup_forwards
    ∷ reloads
    ∷ edited (codes "LOCK_AFTER=3") one_event
    ∷ forwards
    ∷ []

two_edits-IsReported : IsReported conf two_edits
two_edits-IsReported = (event_mentions, (event_mentions, (event_mentions, tt)))

changes-loaded_example :
    (changes conf
      (rest (length (changes conf two_edits (started [])).kernel))
      (changes conf two_edits (started []))).loaded
    ≡ (changes conf two_edits (started [])).content
changes-loaded_example = changes-loaded conf [] two_edits two_edits-IsReported

subscribing-LeavesNothing_example :
    LeavesNothing (connect true (some true) true)
    × LeavesNothing (watch_locks (some (codes "2")) true none true)
subscribing-LeavesNothing_example =
    subscribing-LeavesNothing true true (some true) (some (codes "2")) none
