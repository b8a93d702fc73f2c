-- ===== src/Gfx.antt =====
-- crates/nr-gfx: drawing into memory.
pub mod Surface
