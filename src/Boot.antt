-- ===== src/Boot.antt =====
-- crates/nr-boot: the UEFI application.
pub mod ModelLoad
pub mod Network
