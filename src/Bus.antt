-- ===== src/Bus.antt =====
-- crates/ffmpeg-bus: bus.rs, one media pipe's inputs, decoders, encoders and outputs, and in output.rs
-- how a packet goes to a muxer.
pub mod Types
pub mod Choice
pub mod State
pub mod Outputs
pub mod Commands
pub mod Forward
pub mod Muxer
