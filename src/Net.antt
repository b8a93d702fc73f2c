-- ===== src/Net.antt =====
-- crates/nr-net/src/lib.rs: the Ethernet, ARP, IPv4, ICMP and UDP stack.
pub mod Types
pub mod Checksum
pub mod Cache
pub mod Wire
pub mod Echo
pub mod Receive
pub mod Send
pub mod RoundTrip
