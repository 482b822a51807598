-- ===== src/Gb.antt =====
-- GB/T 28181: crates/gb28181 and its use in nvr/src/gb.
pub mod Ptz
pub mod Ssrc
pub mod Registrar
pub mod StreamMap
pub mod Bridge
pub mod Digest
pub mod Server
pub mod Catalog
pub mod Sdp
