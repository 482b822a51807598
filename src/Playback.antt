-- ===== src/Playback.antt =====
-- nvr/src/handler/playback.rs: the handlers that list, play and delete recorded segments.
pub mod Range
pub mod Delete
pub mod Playlist
mod Runs
