-- ===== src/Ui.antt =====
-- crates/nr-ui: the screens.
pub mod Chat
