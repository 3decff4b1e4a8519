-- ===== src/Pinning.antt =====
-- pinning/: the artifacts that the configuration or the management API fixes to a version.
pub mod License
pub mod Launch
pub mod PersistedQueries
pub mod Entry
pub mod Names
pub mod Serving
