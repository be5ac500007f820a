-- ===== src/Command.antt =====
-- cmd/retrosaver: the commands that change the system, over the state that they change. The other
-- files have the parts: Settings configcmd.go, Launching `run` and `preview`, Install `setup`,
-- `teardown` and `stop`, and
-- Reloads what makes the daemon read its config again, and Main the choice of the command.
pub mod Settings
pub mod Launching
pub mod Install
pub mod Reloads
pub mod Main
