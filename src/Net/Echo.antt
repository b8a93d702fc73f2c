-- ===== src/Net/Echo.antt =====
-- crates/nr-net/src/lib.rs: the part of `receive_icmp` that writes the echo reply.
pub mod Total
use nightrun.Prelude.{ℕ, ◌+◌, List, [], ◌∷◌, length, ltb, Result, ok, ◌>>=◌, ◌>>◌, fail_if}
use nightrun.Prelude.Bytes.{sub, write, be16}
use nightrun.Net.Types.{Config, Ipv4Address, Error, buffer_too_small, eth_header, ethertype_ipv4}
use nightrun.Net.Checksum.{checksum}
use nightrun.Net.Wire.{write_ethernet}

-- The writes into `ip_header`: our address, the sender's, and the checksum over both.
pub turn_header : List ℕ → Ipv4Address → Ipv4Address → Result Error (List ℕ)
turn_header header address sender = do
  h ← write header 12 address
  h ← write h 16 sender
  h ← write h 10 (0 ∷ 0 ∷ [])
  write h 10 (be16 (checksum h))

-- The writes into `reply`.
pub turn_icmp : List ℕ → Result Error (List ℕ)
turn_icmp icmp = do
  r ← write icmp 0 (0 ∷ [])
  r ← write r 2 (0 ∷ 0 ∷ [])
  write r 2 (be16 (checksum r))

-- The test on the response's room and the writes behind it: the length written, and the response.
pub write_icmp_reply : Config → List ℕ → ℕ → ℕ → List ℕ → Result Error (ℕ × List ℕ)
write_icmp_reply config frame icmp_start end response = do
  fail_if (ltb (length response) end) buffer_too_small
  request ← sub frame 0 end
  o ← write response 0 request
  source_mac ← sub frame 6 12
  o ← write_ethernet o source_mac config.mac ethertype_ipv4
  header ← sub o eth_header icmp_start
  sender ← sub frame (eth_header + 12) (eth_header + 16)
  h ← turn_header header config.address sender
  o ← write o eth_header h
  icmp ← sub o icmp_start end
  r ← turn_icmp icmp
  o ← write o icmp_start r
  ok (end, o)
