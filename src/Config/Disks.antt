-- ===== src/Config/Disks.antt =====
-- internal/config/write.go: `writeAtomic`, and `Set` with the file that it reads and writes. The
-- outcomes of the system calls are given; the disk after each of them is kept, since another
-- process can read it then.
use retrosaver.Prelude.{
  ℕ, Bool, true, false, not, List, [], ◌∷◌, Option, none, some, if◌then◌else◌, Text,
}
use retrosaver.Config.Parse.{Outcome, failed, parsed, ReadFile, missing, unreadable, holds}
use retrosaver.Config.Write.{SetError, set_config}

pub record File : Type 0 where
  pub bytes : Text
  pub mode : ℕ

-- The file at the path, once a symbolic link is resolved, and the temporary file beside it.
pub record Disk : Type 0 where
  pub target : Option File
  pub temp : Option File

-- What becomes of the system calls: `cut` is what a write that fails has written. A file that is
-- there can be unreadable.
pub record Calls : Type 0 where
  pub readable : Bool
  pub stat_ok : Bool
  pub mkdir_ok : Bool
  pub create_ok : Bool
  pub cut : Option Text
  pub chmod_ok : Bool
  pub sync_ok : Bool
  pub close_ok : Bool
  pub rename_ok : Bool

-- Whether there is no error, and the disk after each step, the last one last.
abbrev pub Trail : Type 0
Trail = Bool × List Disk

abbrev pub then_trail : Disk → Trail → Trail
then_trail d (ok, ds) = (ok, d ∷ ds)

-- The deferred removal of the temporary file, which succeeds where there is one.
abbrev pub ending : Bool → Disk → Trail
ending ok d = (ok, record d { temp = none } ∷ [])

abbrev pub renaming : Calls → Disk → Trail
renaming c d =
    if c.rename_ok
    then (let d' : Disk = record { target = d.temp; temp = none } in then_trail d' (ending true d'))
    else ending false d

abbrev pub closing : Calls → Disk → Trail
closing c d = if c.close_ok then renaming c d else ending false d

abbrev pub syncing : Calls → Disk → Trail
syncing c d = if c.sync_ok then closing c d else ending false d

abbrev pub with_temp : Disk → Text → ℕ → Disk
with_temp d bytes mode = record d { temp = some (record { bytes = bytes; mode = mode }) }

abbrev pub setting_mode : Calls → Text → ℕ → Disk → Trail
setting_mode c content mode d =
    if c.chmod_ok
    then (let d' = with_temp d content mode in then_trail d' (syncing c d'))
    else ending false d

-- os.CreateTemp makes a file that only its owner reads and writes.
abbrev pub temp_mode : ℕ
temp_mode = 0o600

abbrev pub writing : Calls → Option Text → Text → ℕ → Disk → Trail
writing c none content mode d =
    let d' = with_temp d content temp_mode in then_trail d' (setting_mode c content mode d')
writing c (some part) content mode d =
    let d' = with_temp d part temp_mode in then_trail d' (ending false d')

-- `writeAtomic`
unfoldable pub write_atomic : Calls → Text → ℕ → Disk → Trail
write_atomic c content mode d =
    if not c.mkdir_ok
    then (false, d ∷ [])
    else if not c.create_ok
    then (false, d ∷ [])
    else let d' = with_temp d [] temp_mode in then_trail d' (writing c c.cut content mode d')

abbrev pub read_target : Calls → Option File → ReadFile
read_target c none = missing
read_target c (some f) = if c.readable then holds f.bytes else unreadable

-- The mode of the file, where it can be told.
abbrev pub mode_of : Calls → Option File → ℕ
mode_of c none = 0o644
mode_of c (some f) = if c.stat_ok then f.mode else 0o644

abbrev pub write_result : Calls → Disk → Outcome SetError (Option Text) → Trail
write_result c d (failed e) = (false, d ∷ [])
write_result c d (parsed none) = (true, d ∷ [])
write_result c d (parsed (some text)) = write_atomic c text (mode_of c d.target) d

-- `Set`, on the disk.
unfoldable pub set_file : Calls → List (Text × Text) → Disk → Trail
set_file c updates d = write_result c d (set_config (read_target c d.target) updates)
