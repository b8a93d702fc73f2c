-- ===== src/Mcp.antt =====
-- crates/nr-mcp/src/lib.rs: datagram framing for MCP messages, the fragment codec.
-- A `&mut [u8]` output is an argument, and the function returns what it holds afterwards.
pub mod Codec
pub mod Reassembler
pub mod Checksum
pub mod Parse
use nightrun.Prelude.{
  ℕ, zero, suc, ◌+◌, ◌-◌, ◌*◌, ◌/◌, ◌%◌, ◌^◌, min, max, bit_and, bit_xor, Bool, not, ◌||◌, List, [],
  ◌∷◌, length, take, drop, replicate, Option, none, some, ltb, leb, ◌==◌, ◌!=◌, if◌then◌else◌,
  Result, ok, err, panic, ◌>>=◌, ◌>>◌, fail_if,
}
use nightrun.Prelude.Bytes.{at, sub, write, be16_at, be32_at, be16, be32, bytes_eq}

abbrev pub version : ℕ
version = 1

abbrev pub header_len : ℕ
header_len = 24

abbrev pub max_datagram : ℕ
max_datagram = 1200

abbrev pub max_fragment_payload : ℕ
max_fragment_payload = max_datagram - header_len

-- b"NRMP"
abbrev pub magic : List ℕ
magic = 0x4e ∷ 0x52 ∷ 0x4d ∷ 0x50 ∷ []

pub data Kind : Type 0 where
  host_request device_response device_request host_response hello : Kind

-- `kind as u8`
abbrev pub kind_code : Kind → ℕ
kind_code host_request = 1
kind_code device_response = 2
kind_code device_request = 3
kind_code host_response = 4
kind_code hello = 5

pub data Error : Type 0 where
  buffer_too_small truncated bad_magic unsupported_version unknown_kind : Error
  invalid_fragment message_too_large checksum_mismatch : Error

pub kind_of : ℕ → Result Error Kind
kind_of value =
    if value == 1
    then ok host_request
    else if value == 2
    then ok device_response
    else if value == 3
    then ok device_request
    else if value == 4
    then ok host_response
    else if value == 5
    then ok hello
    else err unknown_kind

pub record Fragment : Type 0 where
  pub kind : Kind
  pub message_id : ℕ
  pub index : ℕ
  pub count : ℕ
  pub total_len : ℕ
  pub checksum : ℕ
  pub payload : List ℕ

pub record CompleteMessage : Type 0 where
  pub kind : Kind
  pub message_id : ℕ
  pub payload : List ℕ

-- `n.div_ceil(d)`
abbrev pub div_ceil : ℕ → ℕ → ℕ
div_ceil n d = (n + (d - 1)) / d

unfoldable pub fragment_count : ℕ → Result Error ℕ
fragment_count message_len =
    if message_len == 0
    then err invalid_fragment
    else let count = div_ceil (max message_len 1) max_fragment_payload in
      if ltb 0xffff count || ltb 64 count then err message_too_large else ok (count % 2 ^ 16)

-- One round of the inner loop of `crc32`: `mask` is 0 or all ones.
pub crc_round : ℕ → ℕ
crc_round crc =
    let mask = (0 + 2 ^ 32 - bit_and crc 1) % 2 ^ 32 in bit_xor (crc / 2) (bit_and 0xedb8_8320 mask)

pub crc_rounds : ℕ → ℕ → ℕ
crc_rounds zero crc = crc
crc_rounds (suc k) crc = crc_rounds k (crc_round crc)

pub crc_loop : ℕ → List ℕ → ℕ
crc_loop crc [] = crc
crc_loop crc (byte ∷ rest) = crc_loop (crc_rounds 8 (bit_xor crc byte)) rest

-- `!crc` of a `u32`
pub crc32 : List ℕ → ℕ
crc32 bytes = 0xffff_ffff - crc_loop 0xffff_ffff bytes

-- The writes of `encode_fragment`, in order.
write_fragment : Kind → ℕ → List ℕ → ℕ → ℕ → List ℕ → List ℕ → Result Error (List ℕ)
write_fragment kind message_id message index count payload output = do
  o ← write output 0 (replicate (header_len + length payload) 0)
  o ← write o 0 magic
  o ← write o 4 (version ∷ [])
  o ← write o 5 (kind_code kind ∷ [])
  o ← write o 6 (be16 index)
  o ← write o 8 (be32 message_id)
  o ← write o 12 (be16 count)
  o ← write o 14 (be16 (length payload % 2 ^ 16))
  o ← write o 16 (be32 (length message % 2 ^ 32))
  o ← write o 20 (be32 (crc32 message))
  write o header_len payload

-- The length written, and the output afterwards; an error leaves the output as it was.
pub encode_fragment : Kind → ℕ → List ℕ → ℕ → List ℕ → Result Error (ℕ × List ℕ)
encode_fragment kind message_id message index output = do
  count ← fragment_count (length message)
  fail_if (leb count index) invalid_fragment
  let start = index * max_fragment_payload
  payload ← sub message start (min (start + max_fragment_payload) (length message))
  let len = header_len + length payload
  fail_if (ltb (length output) len) buffer_too_small
  o ← write_fragment kind message_id message index count payload output
  ok (len, o)

-- `a - b` on `usize`, which panics below zero.
abbrev checked_sub : ℕ → ℕ → Result Error ℕ
checked_sub a b = if leb b a then ok (a - b) else panic

expected_len : ℕ → ℕ → ℕ → Result Error ℕ
expected_len index count total_len =
    if index + 1 == count
    then checked_sub total_len (index * max_fragment_payload)
    else ok max_fragment_payload

-- The tests under one `if` of `parse_fragment`.
bad_shape : ℕ → ℕ → ℕ → ℕ → ℕ → Bool
bad_shape index count payload_len total_len datagram_len =
    count == 0
    || ltb 64 count
    || leb count index
    || ltb max_fragment_payload payload_len
    || datagram_len != header_len + payload_len
    || total_len == 0
    || count != div_ceil total_len max_fragment_payload

pub parse_fragment : List ℕ → Result Error Fragment
parse_fragment datagram = do
  fail_if (ltb (length datagram) header_len) truncated
  start ← sub datagram 0 4
  fail_if (not (bytes_eq start magic)) bad_magic
  v ← at datagram 4
  fail_if (v != version) unsupported_version
  k ← at datagram 5
  kind ← kind_of k
  index ← be16_at datagram 6
  message_id ← be32_at datagram 8
  count ← be16_at datagram 12
  payload_len ← be16_at datagram 14
  total_len ← be32_at datagram 16
  checksum ← be32_at datagram 20
  fail_if (bad_shape index count payload_len total_len (length datagram)) invalid_fragment
  expected ← expected_len index count total_len
  fail_if (payload_len != expected) invalid_fragment
  payload ← sub datagram header_len (length datagram)
  ok (record {
    kind = kind;
    message_id = message_id;
    index = index;
    count = count;
    total_len = total_len;
    checksum = checksum;
    payload = payload;
  })
