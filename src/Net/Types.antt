-- ===== src/Net/Types.antt =====
-- crates/nr-net/src/lib.rs: the stack's constants and types.
-- A MAC address is a list of 6 bytes, an IPv4 address one of 4.
use nightrun.Prelude.{ℕ, ◌+◌, ◌*◌, ◌≡◌, Bool, List, [], ◌∷◌, length}
use nightrun.Prelude.Bytes.{IsBytes}

abbrev pub eth_header : ℕ
eth_header = 14

abbrev pub ipv4_header : ℕ
ipv4_header = 20

abbrev pub udp_header : ℕ
udp_header = 8

abbrev pub arp_packet : ℕ
arp_packet = 28

abbrev pub ethertype_ipv4 : ℕ
ethertype_ipv4 = 0x0800

abbrev pub ethertype_arp : ℕ
ethertype_arp = 0x0806

abbrev pub ip_protocol_icmp : ℕ
ip_protocol_icmp = 1

abbrev pub ip_protocol_udp : ℕ
ip_protocol_udp = 17

abbrev pub MacAddress : Type 0
MacAddress = List ℕ

abbrev pub mac_broadcast : MacAddress
mac_broadcast = 255 ∷ 255 ∷ 255 ∷ 255 ∷ 255 ∷ 255 ∷ []

abbrev pub mac_zero : MacAddress
mac_zero = 0 ∷ 0 ∷ 0 ∷ 0 ∷ 0 ∷ 0 ∷ []

abbrev pub Ipv4Address : Type 0
Ipv4Address = List ℕ

abbrev pub ip_broadcast : Ipv4Address
ip_broadcast = 255 ∷ 255 ∷ 255 ∷ 255 ∷ []

abbrev pub ip_unspecified : Ipv4Address
ip_unspecified = 0 ∷ 0 ∷ 0 ∷ 0 ∷ []

-- `u32::from_be_bytes(self.0)`
abbrev pub as_u32 : Ipv4Address → ℕ
as_u32 (a ∷ b ∷ c ∷ d ∷ rest) = ((a * 256 + b) * 256 + c) * 256 + d
as_u32 other = 0

pub record Config : Type 0 where
  pub mac : MacAddress
  pub address : Ipv4Address
  pub subnet_mask : Ipv4Address
  pub gateway : Ipv4Address

pub data Error : Type 0 where
  buffer_too_small truncated unsupported invalid_header invalid_checksum : Error

pub data SendOutcome : Type 0 where
  datagram neighbor_discovery : ℕ → SendOutcome

pub record UdpDatagram : Type 0 where
  pub source : Ipv4Address
  pub destination : Ipv4Address
  pub source_port : ℕ
  pub destination_port : ℕ
  pub payload : List ℕ

pub data ReceiveEvent : Type 0 where
  no_event : ReceiveEvent
  reply : ℕ → ReceiveEvent
  neighbor_learned : Ipv4Address → MacAddress → ReceiveEvent
  udp : UdpDatagram → ReceiveEvent

pub record Neighbor : Type 0 where
  pub ip : Ipv4Address
  pub mac : MacAddress
  pub valid : Bool

-- The array of `N` neighbors is a list of that length.
pub record Stack : Type 0 where
  pub config : Config
  pub neighbors : List Neighbor
  pub next_neighbor : ℕ
  pub identification : ℕ

abbrev pub IsMac : MacAddress → Type 0
IsMac m = (length m ≡ 6) × IsBytes m

abbrev pub IsIp : Ipv4Address → Type 0
IsIp a = (length a ≡ 4) × IsBytes a

-- What the types of the source say of a configuration.
pub record IsConfig (c : Config) : Type 0 where
  pub mac_ok : IsMac c.mac
  pub address_ok : IsIp c.address
