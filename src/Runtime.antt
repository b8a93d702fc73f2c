-- ===== src/Runtime.antt =====
-- crates/nr-runtime: the bump arena and the tick clock.
pub mod Arena
pub mod Clock
