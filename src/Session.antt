-- ===== src/Session.antt =====
-- The checkpoint session of the main program: `saveCheckpoint` and `restoreCheckpoint` (src/main.cc).
pub mod Codec
pub mod State
pub mod Valid
pub mod StateLaws
pub mod Host
pub mod Head
pub mod Restore
