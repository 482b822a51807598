-- ===== src/Recorder.antt =====
-- crates/nvr-recorder: where a recording is cut into segments, how a segment's file is written, and
-- how the recorder goes through its packets and its connections.
pub mod Rotation
pub mod Config
pub mod Ticks
pub mod Segment
pub mod Session
mod Runs
