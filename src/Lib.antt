-- ===== src/Lib.antt =====
-- A model of retrosaver, a screensaver daemon for GNOME on X11 and XWayland, written in Go.
--
-- The program. The daemon (internal/daemon/daemon.go) asks Mutter's idle monitor for watches at
-- cumulative thresholds and goes through the stages idle, saver, lock and blank as they fire. In
-- the saver stage it launches an XScreenSaver module, swaps it for another at intervals, relaunches
-- one that exits, and stops it when the session locks or the user comes back. Launches run in
-- goroutines and answer later; a generation count tells a late answer from a current one. The
-- daemon reads its settings from a file (internal/config), draws the module's name from those
-- installed (internal/modules), locks and blanks through loginctl and gsettings (internal/session),
-- and leaves the PIDs of its modules in runtime files (internal/window).
--
-- The files.
--   Prelude: names and lemmas that all files share: Boolean tests, lists, byte strings, int64 as
--     its 64-bit pattern. Chars: the functions of Go's strings, strconv and bufio that the program
--     calls; Chars/Find what those that search a text find.
--   Config: `Config`, `Defaults` and the tests of internal/config/config.go; Config/Parse `Load`,
--     `parse`, `unquote`, `seconds`; Config/Write `Set`, `assignment`, `apply` and `DefaultFile`
--     of internal/config/write.go; Config/Reference has `apply` again without its map of last
--     lines, Config/EditSpec what it is to make of a file, Config/Disks `writeAtomic` and `Set` as
--     steps on a disk. Config/Bounds, Edits, Keeps, Sets, Placing, Specified, AnyOrder and Atomic
--     are the laws of these, over the lemmas on lines in Lines, Frame, Assigning, Pieces,
--     Rendered, LastLine, Final, Spelled and Assigned.
--   Modules: `Discover`, `Select`, `Available`, `Pick` of internal/modules/modules.go.
--   Session: `Lock`, `Locked`, `SaveIdleDelay`, `RestoreIdleDelay` and what they call, of
--     internal/session/session.go.
--   Window: `readPIDs`, `writeState`, `clearStateFor`, `RunningModule`, `ringBuffer` of
--     internal/window/window.go and `distinct` of internal/window/monitors.go.
--   Watch: `mentions` and the loop of `run` of internal/watch/watch.go, as steps on its state;
--     Watch/Events the bytes of inotify events, Watch/Reader `File` and the loop of `read`.
--   Daemon: the types of internal/daemon/daemon.go. `Machine` is its `machine`; `World` holds the
--     answers of its collaborators (idle monitor, saver, launcher, lock watcher, session control),
--     each a function of the calls made before, and `Machine.history` is the list of those calls,
--     the last one first. Its children hold the handlers: Watches (`arm`, `rearm`, `addIdle`,
--     `ensureActiveWatch`, `armCycle`, `locked`), Pick (`pick`, `pickSet`, `monitors`), Launches
--     (`startLaunch`, `handleLaunch`, `stopSaver`, `closeDead`), Stages (`onSaver`, `onCycle`,
--     `onLock`, `onBlank`, `onActive`, `reset`, `reload`, `onLockChange`, `handleWatch`), Exits
--     (`onModuleExit`, `onCopyExit`), Run (the loop of `Run` and `shutdown`). The other children
--     prove what their names say: Reach is the step relation, Sound its invariant on the screen,
--     Armed and ArmedSteps the watch map, Order the stages, Stale late launches over Later and
--     Past (what holds however many events later), Handed over Held what becomes of every saver,
--     Copies the relaunches, Schedule and Swaps the thresholds, Launcher `realLauncher.Pick` over
--     the finder, Zero the config with a delay of 0.
--   Window/Saver: a saver of internal/window/window.go from `launch` to `Stop`, with `Replace`,
--     the watch of its children and the waits for the startup; Window/Owns its runtime files;
--     Window/Starting `launch` with what a launch that fails leaves, and the daemon's
--     `realLauncher` over it; Window/Stopping `StopRunning`. Window/Screen `layout`, `create` and
--     `close` of internal/window/screen.go and `monitors` of internal/window/monitors.go, as the
--     requests that are sent to the X server; its children Settling `settle` and `openScreen`,
--     Waiting, Tidy, Creating and Opened their laws. Modules/Info: `Info` and `firstParagraph` of
--     internal/modules/info.go.
--   Signals: `watchFiredID`, `Idletime`, `AddIdleWatch` of internal/idle/idle.go,
--     `lockedHintChange` of internal/session/lockwatch.go, and the loop of `pump` that both have,
--     as turns of a `Pump`. Signals/Subscribing `Connect`, `WatchLocks` and the `Close` of both,
--     as calls on a bus.
--   Command: Command/Settings `config show`, `config set` and `list` of
--     cmd/retrosaver/configcmd.go; Command/Launching `pickForRun`, `cmdRun` up to the launch,
--     `runningMessage`, `daemonRunning` of cmd/retrosaver/main.go and `previewArgv` of
--     cmd/retrosaver/preview.go; Command/Install `cmdSetup`, `cmdTeardown`, `cmdStop` of
--     cmd/retrosaver/main.go, as changes of a `Desktop` with the answers of a `Host`; Command/Main
--     `main`, `dispatch`, `versionString` and `cmdDaemon`; Command/Reloads `reloadTriggers`, and
--     the chain from the config file over the kernel, Watch and the triggers to the daemon.
--   Tests: the theorems at concrete inputs.
--
-- Numbers and loops. A Duration and the generation are int64 and uint64 patterns below 2 ^ 64, and
-- their sums wrap. The loop of `onCopyExit` runs on fuel, one more than the cap of relaunches: each
-- round counts a death, and one that finds the cap used up ends. `mentions` has the buffer's length
-- as fuel: each round takes the sixteen bytes of a header at least. `itoa` has fuel for the 19
-- digits of an int64. `settle` waits in rounds of 20 milliseconds up to a deadline of five seconds:
-- fuel for 251 rounds is enough when at most 250 waits end before the deadline. The other loops are
-- structural; the event loop of `Run` reads a list of events.
--
-- Not modelled: the calls of D-Bus, X11, inotify and the operating system themselves, whose answers
-- are arguments; the XML decoder that internal/modules/info.go calls; the flags of
-- cmd/retrosaver/main.go; logging and error texts; the settings window in gui. Text is bytes, and
-- case and white space are those of ASCII. A symbolic link at the config's path is taken as
-- resolved. `writeState` and `clearState` are modelled where each write and each removal of a
-- runtime file succeeds; `StopRunning` also where a removal fails.
pub mod Prelude
pub mod Chars
pub mod Config
pub mod Daemon
pub mod Modules
pub mod Session
pub mod Window
pub mod Watch
pub mod Signals
pub mod Command
mod Tests
