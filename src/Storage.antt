-- ===== src/Storage.antt =====
-- What nvr-db stores and the workers of nvr that use it: record segments, their retention and their
-- copies, and login sessions.
pub mod Segments
pub mod Migrations
pub mod Cleanup
pub mod Transport
pub mod Sessions
pub mod Targets
