-- ===== src/Examples.antt =====
-- Runs of the definitions at concrete inputs.
pub mod File
pub mod Checks
pub mod Models
pub mod Messages
pub mod Frames
pub mod Tokens
pub mod Merging
pub mod Threads
pub mod Memory
pub mod Boot
pub mod Bridge
pub mod Chat
pub mod Screen
