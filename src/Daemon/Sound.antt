-- ===== src/Daemon/Sound.antt =====
-- The soundness of the screen, handler by handler.
pub mod Parts
pub mod Stages
pub mod Exits
