-- ===== src/Net/Receive.antt =====
-- crates/nr-net/src/lib.rs: `Stack::receive` and the handlers it calls.
-- The stack and the response buffer are threaded through: a handler that fails keeps what it has
-- changed of them before.
pub mod Udp
mod Ends
pub mod Handlers
pub mod Total
use nightrun.Prelude.{
  ℕ, ◌+◌, ◌*◌, ◌/◌, ◌%◌, ◌^◌, bit_and, Bool, not, ◌&&◌, ◌||◌, List, [], ◌∷◌, length, Option, none,
  some, ltb, ◌==◌, ◌!=◌, if◌then◌else◌, Result, ok, err, panic, fail_if,
}
use nightrun.Prelude.Bytes.{sub, at, write, be16_at, be16, bytes_eq}
use nightrun.Net.Types.{
  MacAddress, Ipv4Address, Config, Error, Stack, ReceiveEvent, no_event, reply, neighbor_learned,
  udp, UdpDatagram, truncated, unsupported, invalid_header, invalid_checksum, buffer_too_small,
  eth_header, ipv4_header, arp_packet, ethertype_arp, ethertype_ipv4, ip_protocol_icmp,
  ip_protocol_udp, mac_broadcast, ip_broadcast,
}
use nightrun.Net.Checksum.{checksum}
use nightrun.Net.Cache
use nightrun.Net.Wire.{write_arp_reply, parse_udp}
use nightrun.Net.Echo.{write_icmp_reply}

pub record Io : Type 0 where
  pub stack : Stack
  pub response : List ℕ

abbrev pub Action : Type 0 → Type 0
Action A = Io → Io × Result Error A

abbrev continue : {A B : Type 0} → (A → Action B) → Io → Result Error A → Io × Result Error B
continue f io (ok a) = f a io
continue f io (err e) = (io, err e)
continue f io panic = (io, panic)

infixl 5 ◌>>=◌ ◌>>◌
abbrev pub ◌>>=◌ : {A B : Type 0} → Action A → (A → Action B) → Action B
◌>>=◌ m f io = continue f (m io).0 (m io).1

abbrev pub ◌>>◌ : {A B : Type 0} → Action A → Action B → Action B
m >> k = m >>= λ _. k

abbrev pub lift : {A : Type 0} → Result Error A → Action A
lift r io = (io, r)

abbrev pub pure : {A : Type 0} → A → Action A
pure a io = (io, ok a)

abbrev pub config : Action Config
config io = (io, ok io.stack.config)

-- `self.learn(ip, mac)`
abbrev with_stack : Io → Option Stack → Io × Result Error (Unit {0})
with_stack io (some s) = (record io { stack = s }, ok tt)
with_stack io none = (io, panic)

abbrev pub learn : Ipv4Address → MacAddress → Action (Unit {0})
learn ip mac io = with_stack io (Cache.learn io.stack ip mac)

-- A call that writes into the response buffer.
abbrev with_response : {A : Type 0} → Io → Result Error (A × List ℕ) → Io × Result Error A
with_response io (ok (a, bytes)) = (record io { response = bytes }, ok a)
with_response io (err e) = (io, err e)
with_response io panic = (io, panic)

abbrev pub respond : {A : Type 0} → (List ℕ → Result Error (A × List ℕ)) → Action A
respond f io = with_response io (f io.response)

pub receive_arp : MacAddress → List ℕ → Action ReceiveEvent
receive_arp ethernet_source packet = do
  lift (fail_if (ltb (length packet) arp_packet) truncated)
  hardware ← lift (be16_at packet 0)
  protocol ← lift (be16_at packet 2)
  hardware_len ← lift (at packet 4)
  protocol_len ← lift (at packet 5)
  lift (
      fail_if
        (hardware != 1 || protocol != ethertype_ipv4 || hardware_len != 6 || protocol_len != 4)
        unsupported)
  operation ← lift (be16_at packet 6)
  sender_mac ← lift (sub packet 8 14)
  sender_ip ← lift (sub packet 14 18)
  target_ip ← lift (sub packet 24 28)
  lift (fail_if (not (bytes_eq sender_mac ethernet_source)) invalid_header)
  learn sender_ip sender_mac
  c ← config
  if operation == 1 && bytes_eq target_ip c.address
      then (do len ← respond (write_arp_reply c sender_ip sender_mac); pure (reply len))
      else if operation == 2
      then pure (neighbor_learned sender_ip sender_mac)
      else pure no_event

pub receive_icmp : List ℕ → ℕ → ℕ → Action ReceiveEvent
receive_icmp frame header_len total_len = do
  let end = eth_header + total_len
  let icmp_start = eth_header + header_len
  lift (fail_if (ltb (length frame) end || ltb total_len (header_len + 8)) truncated)
  icmp ← lift (sub frame icmp_start end)
  lift (fail_if (checksum icmp != 0) invalid_checksum)
  kind ← lift (at icmp 0)
  code ← lift (at icmp 1)
  if kind != 8 || code != 0 then pure no_event else (do
    c ← config
    len ← respond (write_icmp_reply c frame icmp_start end)
    pure (reply len))

pub receive_ipv4 : MacAddress → List ℕ → Action ReceiveEvent
receive_ipv4 source_mac frame = do
  packet ← lift (sub frame eth_header (length frame))
  lift (fail_if (ltb (length packet) ipv4_header) invalid_header)
  first ← lift (at packet 0)
  lift (fail_if (first / 16 != 4) invalid_header)
  let header_len = bit_and first 0x0f * 4
  lift (fail_if (ltb header_len ipv4_header || ltb (length packet) header_len) invalid_header)
  total_len ← lift (be16_at packet 2)
  lift (fail_if (ltb total_len header_len || ltb (length packet) total_len) truncated)
  header ← lift (sub packet 0 header_len)
  lift (fail_if (checksum header != 0) invalid_checksum)
  fragment ← lift (be16_at packet 6)
  lift (fail_if (bit_and fragment 0x3fff != 0) unsupported)
  source ← lift (sub packet 12 16)
  destination ← lift (sub packet 16 20)
  c ← config
  if not (bytes_eq destination c.address) && not (bytes_eq destination ip_broadcast)
      then pure no_event
      else (do
        learn source source_mac
        payload ← lift (sub packet header_len total_len)
        protocol ← lift (at packet 9)
        if protocol == ip_protocol_icmp
            then receive_icmp frame header_len total_len
            else if protocol == ip_protocol_udp
            then (do d ← lift (parse_udp source destination payload); pure (udp d))
            else pure no_event)

pub receive : List ℕ → Action ReceiveEvent
receive frame = do
  lift (fail_if (ltb (length frame) eth_header) truncated)
  destination_mac ← lift (sub frame 0 6)
  c ← config
  if not (bytes_eq destination_mac c.mac) && not (bytes_eq destination_mac mac_broadcast)
      then pure no_event
      else (do
        source_mac ← lift (sub frame 6 12)
        ethertype ← lift (be16_at frame 12)
        packet ← lift (sub frame eth_header (length frame))
        if ethertype == ethertype_arp
            then receive_arp source_mac packet
            else if ethertype == ethertype_ipv4
            then receive_ipv4 source_mac frame
            else pure no_event)
