-- ===== src/Ipc.antt =====
-- src/ipc/: what the daemon and its clients say to each other.
pub mod Commands
pub mod ErrorCodes
pub mod Codec
pub mod Topics
