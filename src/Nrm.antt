-- ===== src/Nrm.antt =====
-- crates/nr-model/src/{format,verify}.rs: the .nrm container, its parser and its streaming verifier.
pub mod Types
pub mod Cursor
pub mod Header
pub mod Model
pub mod Verify
