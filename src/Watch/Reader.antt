-- ===== src/Watch/Reader.antt =====
-- internal/watch/watch.go: `File`, which starts a watch, and the loop of `read`, which passes on
-- what the kernel reports. The system calls' results are given.
use retrosaver.Prelude.{
  Bool, true, false, not, Option, none, some, ◌==◌, if◌then◌else◌, length, Text,
}
use retrosaver.Watch.{Watch, mentions, step, raw, reader_stopped}

-- The channel `raw`: whether an event is queued in it, and whether the reader has stopped and
-- closed it.
pub record Reader : Type 0 where
  pub queued : Bool
  pub stopped : Bool

pub data ReadResult : Type 0 where
  read_failed : ReadResult
  bytes : Text → ReadResult

-- A round of `read`: a full channel keeps the event that it has.
abbrev pub read_once : Text → ReadResult → Reader → Reader
read_once name read_failed r = record r { stopped = true }
read_once name (bytes buf) r =
    if r.stopped
    then r
    else if length buf == 0
    then r
    else if not (mentions buf name)
    then r
    else record r { queued = true }

-- The case of `run` that receives from `raw`: an event, or the end of a channel that is closed and
-- empty.
abbrev pub receive : Reader × Watch → Reader × Watch
receive (r, w) =
    if w.closed
    then (r, w)
    else if r.queued
    then (record r { queued = false }, step raw w)
    else if r.stopped
    then (r, step reader_stopped w)
    else (r, w)

abbrev pub new_reader : Reader
new_reader = record { queued = false; stopped = false }

abbrev pub new_watch : Watch
new_watch = record { timer = false; pending = false; closed = false }

-- `File`: the watch, if each of its steps succeeds, and whether the inotify descriptor stays open.
abbrev pub file : Bool → Bool → Bool → Option (Reader × Watch) × Bool
file mkdir_ok init_ok add_ok =
    if not mkdir_ok
    then (none, false)
    else if not init_ok
    then (none, false)
    else if not add_ok
    then (none, false)
    else (some (new_reader, new_watch), true)
