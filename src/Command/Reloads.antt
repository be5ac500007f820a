-- ===== src/Command/Reloads.antt =====
-- cmd/retrosaver/main.go: `reloadTriggers`, which joins SIGHUP and the watch on the config file
-- into one channel, and the way of an edit from the file to the daemon.
pub mod Laws
use retrosaver.Prelude.{
  Bool, true, false, not, ◌&&◌, ◌||◌, List, [], ◌∷◌, ◌++◌, Option, none, some, if◌then◌else◌, Text,
}
use retrosaver.Watch.{Watch, mentions, step, settled, taken, cancelled}
use retrosaver.Watch.Reader.{
  Reader, read_failed, bytes, read_once, receive, new_reader, new_watch, file,
}

-- The state of `reloadTriggers`: a SIGHUP is in its channel, the watch's channel is not nil, a
-- reload is in the channel that it returns, and its loop has ended.
pub record Triggers : Type 0 where
  pub hup : Bool
  pub watching : Bool
  pub pending : Bool
  pub stopped : Bool

-- What the loop receives.
pub data Cause : Type 0 where
  done hup_received changed changed_closed : Cause

abbrev pub trigger : Cause → Triggers → Triggers
trigger done t = record t { stopped = true }
trigger hup_received t =
    if t.stopped || not t.hup then t else record t { hup = false; pending = true }
trigger changed t = if t.stopped || not t.watching then t else record t { pending = true }
trigger changed_closed t = if t.stopped then t else record t { watching = false }

-- `reloadTriggers`, with the watch, if the path is known and the watch starts.
abbrev pub reload_triggers : Bool → Option (Reader × Watch) → Triggers
reload_triggers path_ok none = record {
  hup = false;
  watching = false;
  pending = false;
  stopped = false;
}
reload_triggers path_ok (some w) = record {
  hup = false;
  watching = path_ok;
  pending = false;
  stopped = false;
}

-- The file, the events that the kernel holds, the watch, the triggers, and the text that the daemon
-- read last.
pub record Chain : Type 0 where
  pub content : Text
  pub kernel : List Text
  pub reader : Reader
  pub watch : Watch
  pub triggers : Triggers
  pub loaded : Text

pub data Change : Type 0 where
  edited : Text → Text → Change
  other_file : Text → Change
  reads receives settles forwards hangs_up hup_forwards reloads read_fails cancels : Change

-- The reader takes what the kernel gives it at once.
abbrev pub reading : Text → List Text → Chain → Chain
reading name [] c = c
reading name (buf ∷ bufs) c = record c {
  kernel = bufs;
  reader = read_once name (bytes buf) c.reader;
}

abbrev pub receiving : Chain → Chain
receiving c = let (r, w) = receive (c.reader, c.watch) in record c { reader = r; watch = w }

-- The loop of `reloadTriggers` at the watch's channel: it is nil, has a reload, or is closed and
-- empty.
abbrev pub forwarding : Chain → Chain
forwarding c =
    if c.triggers.stopped || not c.triggers.watching
    then c
    else if c.watch.pending
    then record c { watch = step taken c.watch; triggers = trigger changed c.triggers }
    else if c.watch.closed
    then record c { triggers = trigger changed_closed c.triggers }
    else c

-- The daemon takes a reload and reads the file.
abbrev pub reloading : Chain → Chain
reloading c =
    if c.triggers.pending
    then record c { triggers = record (c.triggers) { pending = false }; loaded = c.content }
    else c

module _ (name : Text) where
  unfoldable pub change : Change → Chain → Chain
  change (edited text buf) c = record c { content = text; kernel = c.kernel ++ buf ∷ [] }
  change (other_file buf) c = record c { kernel = c.kernel ++ buf ∷ [] }
  change reads c = reading name c.kernel c
  change receives c = receiving c
  change settles c = record c { watch = step settled c.watch }
  change forwards c = forwarding c
  change hangs_up c = record c { triggers = record (c.triggers) { hup = true } }
  change hup_forwards c = record c { triggers = trigger hup_received c.triggers }
  change reloads c = reloading c
  change read_fails c = record c { reader = read_once name read_failed c.reader }
  change cancels c = record c { watch = step cancelled c.watch; triggers = trigger done c.triggers }

  unfoldable pub changes : List Change → Chain → Chain
  changes [] c = c
  changes (e ∷ es) c = changes es (change e c)

-- The chain when the watch has started, if the daemon has read what the file holds.
abbrev pub started : Text → Chain
started text = record {
  content = text;
  kernel = [];
  reader = new_reader;
  watch = new_watch;
  triggers = reload_triggers true (some (new_reader, new_watch));
  loaded = text;
}
