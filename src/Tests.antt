-- ===== src/Tests.antt =====
-- Runs at concrete inputs, and the theorems applied at them.
mod Worlds
mod Daemon
mod Files
mod Modules
mod Commands
mod Signals
mod Events
mod Settings
mod Windows
mod Reloads
