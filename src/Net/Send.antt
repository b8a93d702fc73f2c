-- ===== src/Net/Send.antt =====
-- crates/nr-net/src/lib.rs: `Stack::send_udp`.
pub mod Datagram
pub mod Frame
pub mod Total
use nightrun.Prelude.{
  ℕ, ◌+◌, ◌-◌, ◌%◌, ◌^◌, List, [], ◌∷◌, length, Option, none, some, Bool, true, false, ltb, ◌==◌,
  if◌then◌else◌, Result, ok, err, panic, ◌>>=◌, ◌>>◌, fail_if,
}
use nightrun.Prelude.Bytes.{sub, write, be16, bytes_eq}
use nightrun.Net.Types.{
  MacAddress, Ipv4Address, Config, Error, Stack, SendOutcome, datagram, neighbor_discovery,
  unsupported, buffer_too_small, eth_header, ipv4_header, udp_header, ethertype_ipv4,
  ip_protocol_udp, ip_broadcast, mac_broadcast,
}
use nightrun.Net.Checksum.{transport_checksum}
use nightrun.Net.Cache.{neighbor}
use nightrun.Net.Wire.{write_ethernet, write_ipv4_header, write_arp_request, same_subnet}

-- The host that a datagram for `destination` is handed to.
unfoldable pub next_hop_of : Config → Ipv4Address → Ipv4Address
next_hop_of c destination =
    if same_subnet c.address destination c.subnet_mask then destination else c.gateway

-- Its MAC address, none where it has to be asked for.
unfoldable pub destination_mac_of : Stack → Ipv4Address → Option MacAddress
destination_mac_of s destination =
    if bytes_eq destination ip_broadcast
    then some mac_broadcast
    else neighbor s (next_hop_of s.config destination)

-- A sum of 0 goes out as 0xffff.
abbrev pub udp_sum : ℕ → ℕ
udp_sum sum = if sum == 0 then 0xffff else sum

-- The writes into `udp`, the slice behind the IPv4 header.
pub fill_udp : List ℕ → Ipv4Address → Ipv4Address → ℕ → ℕ → List ℕ → Result Error (List ℕ)
fill_udp bytes source destination source_port destination_port payload = do
  u ← write bytes 0 (be16 source_port)
  u ← write u 2 (be16 destination_port)
  u ← write u 4 (be16 ((udp_header + length payload) % 2 ^ 16))
  u ← write u 6 (0 ∷ 0 ∷ [])
  u ← write u udp_header payload
  write u 6 (be16 (udp_sum (transport_checksum source destination ip_protocol_udp u)))

-- The writes of a whole frame, with the identification that it takes.
pub write_datagram :
    Config → MacAddress → ℕ → Ipv4Address → ℕ → ℕ → List ℕ → List ℕ → Result Error (List ℕ)
write_datagram c mac identification destination source_port destination_port payload output = do
  let total = eth_header + ipv4_header + udp_header + length payload
  o ← write_ethernet output mac c.mac ethertype_ipv4
  header ← sub o eth_header (eth_header + ipv4_header)
  h ←
      write_ipv4_header header (udp_header + length payload) identification ip_protocol_udp
        c.address destination
  o ← write o eth_header h
  bytes ← sub o (eth_header + ipv4_header) total
  u ← fill_udp bytes c.address destination source_port destination_port payload
  write o (eth_header + ipv4_header) u

-- The outcome, and the stack and the output afterwards. An error leaves both as they were.
pub send_udp :
    Stack → Ipv4Address → ℕ → ℕ → List ℕ → List ℕ → Result Error (SendOutcome × (Stack × List ℕ))
send_udp s destination source_port destination_port payload output = do
  let total = eth_header + ipv4_header + udp_header + length payload
  fail_if (ltb (0xffff - ipv4_header - udp_header) (length payload)) unsupported
  elim (destination_mac_of s destination) [
    | none ↦ do
      (len, o) ← write_arp_request s.config (next_hop_of s.config destination) output
      ok (neighbor_discovery len, (s, o))
    | some mac ↦ do
      fail_if (ltb (length output) total) buffer_too_small
      let identification = (s.identification + 1) % 2 ^ 16
      o ←
          write_datagram s.config mac identification destination source_port destination_port
            payload output
      ok (datagram total, (record s { identification = identification }, o))
  ]
