-- ===== src/Compositor.antt =====
-- crates/nvr-compositor: where the sources lie on the canvas.
pub mod Layout
