-- ===== src/Server.antt =====
-- src/server/: the daemon's cache of the state of OBS, and what feeds it.
pub mod Adapter
pub mod Hub
pub mod Projection
pub mod Apply
pub mod Store
pub mod Refresh
pub mod Fetch
pub mod Args
pub mod Executor
