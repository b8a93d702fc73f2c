-- ===== src/Net/Wire.antt =====
-- crates/nr-net/src/lib.rs: the writers of frames, and the parser of UDP.
-- A `&mut [u8]` is an argument, and the function returns what it holds afterwards.
pub mod Writes
pub mod Headers
use nightrun.Prelude.{
  ℕ, ◌+◌, ◌*◌, ◌%◌, ◌^◌, bit_and, Bool, ◌&&◌, ◌||◌, List, [], ◌∷◌, length, replicate, ltb, ◌==◌,
  ◌!=◌, if◌then◌else◌, Result, ok, err, panic, ◌>>=◌, ◌>>◌, fail_if,
}
use nightrun.Prelude.Bytes.{sub, write, be16, be16_at}
use nightrun.Net.Types.{
  Config, MacAddress, Ipv4Address, Error, UdpDatagram, truncated, buffer_too_small,
  invalid_checksum, eth_header, ipv4_header, udp_header, arp_packet, ethertype_arp, ethertype_ipv4,
  ip_protocol_udp, mac_broadcast, mac_zero, as_u32,
}
use nightrun.Net.Checksum.{checksum, transport_checksum}

pub write_ethernet : List ℕ → MacAddress → MacAddress → ℕ → Result Error (List ℕ)
write_ethernet output destination source ethertype = do
  o ← write output 0 destination
  o ← write o 6 source
  write o 12 (be16 ethertype)

-- The writes into `arp`, the ARP packet behind the Ethernet header.
pub fill_arp : List ℕ → Config → Ipv4Address → MacAddress → ℕ → Result Error (List ℕ)
fill_arp arp config target_ip target_mac operation = do
  a ← write arp 0 (be16 1)
  a ← write a 2 (be16 ethertype_ipv4)
  a ← write a 4 (6 ∷ [])
  a ← write a 5 (4 ∷ [])
  a ← write a 6 (be16 operation)
  a ← write a 8 config.mac
  a ← write a 14 config.address
  a ← write a 18 target_mac
  write a 24 target_ip

-- The length written, and the output afterwards.
pub write_arp :
    Config → MacAddress → Ipv4Address → MacAddress → ℕ → List ℕ → Result Error (ℕ × List ℕ)
write_arp config ethernet_dst target_ip target_mac operation output = do
  let len = eth_header + arp_packet
  fail_if (ltb (length output) len) buffer_too_small
  o ← write_ethernet output ethernet_dst config.mac ethertype_arp
  arp ← sub o eth_header len
  a ← fill_arp arp config target_ip target_mac operation
  o ← write o eth_header a
  ok (len, o)

abbrev pub write_arp_request : Config → Ipv4Address → List ℕ → Result Error (ℕ × List ℕ)
write_arp_request config target output = write_arp config mac_broadcast target mac_zero 1 output

abbrev pub write_arp_reply : Config → Ipv4Address → MacAddress → List ℕ → Result Error (ℕ × List ℕ)
write_arp_reply config target_ip target_mac output =
    write_arp config target_mac target_ip target_mac 2 output

pub write_ipv4_header : List ℕ → ℕ → ℕ → ℕ → Ipv4Address → Ipv4Address → Result Error (List ℕ)
write_ipv4_header header payload_len identification protocol source destination = do
  h ← write header 0 (replicate (length header) 0)
  h ← write h 0 (0x45 ∷ [])
  h ← write h 2 (be16 ((ipv4_header + payload_len) % 2 ^ 16))
  h ← write h 4 (be16 identification)
  h ← write h 6 (be16 0x4000)
  h ← write h 8 (64 ∷ [])
  h ← write h 9 (protocol ∷ [])
  h ← write h 12 source
  h ← write h 16 destination
  write h 10 (be16 (checksum h))

unfoldable pub same_subnet : Ipv4Address → Ipv4Address → Ipv4Address → Bool
same_subnet a b mask = bit_and (as_u32 a) (as_u32 mask) == bit_and (as_u32 b) (as_u32 mask)

unfoldable pub parse_udp : Ipv4Address → Ipv4Address → List ℕ → Result Error UdpDatagram
parse_udp source destination bytes = do
  fail_if (ltb (length bytes) udp_header) truncated
  len ← be16_at bytes 4
  fail_if (ltb len udp_header || ltb (length bytes) len) truncated
  packet ← sub bytes 0 len
  wire_checksum ← be16_at packet 6
  fail_if (wire_checksum != 0 && transport_checksum source destination ip_protocol_udp packet != 0)
      invalid_checksum
  source_port ← be16_at packet 0
  destination_port ← be16_at packet 2
  payload ← sub packet udp_header (length packet)
  ok (record {
    source = source;
    destination = destination;
    source_port = source_port;
    destination_port = destination_port;
    payload = payload;
  })
