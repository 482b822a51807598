-- ===== src/Cs2.antt =====
-- crates/xiaomi/src/cs2.rs: the CS2 point-to-point transport of the Xiaomi cameras.
pub mod Channel
pub mod Wire
pub mod Worker
