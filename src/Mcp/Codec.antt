-- ===== src/Mcp/Codec.antt =====
-- `encode_fragment` and `parse_fragment`: what a datagram holds, and the round trip.
use nightrun.Prelude.{
  ◌⊎◌, inl, inr, Bool-cases, ltb, ◌==◌, err, not_ltb→le, ℕ, ◌+◌, ◌-◌, ◌*◌, ◌%◌, ◌^◌, ◌≤◌, ◌<◌, min,
  ◌≡◌, refl, ap, ◌∙◌, List, [], ◌∷◌, ◌++◌, length, take, drop, replicate, replicate-add,
  length-replicate, false, le→ltb, lt→leb, !=_self, take_all, take-append, drop-append, length-take,
  length-drop, some, ok, arith,
}
use nightrun.Prelude.Bytes.{
  write, overwrite?, be16, be32, sub-fits, write-fits, be16_value, be32_value,
}
use nightrun.Mcp.{
  Kind, host_request, device_response, device_request, host_response, hello, Error,
  invalid_fragment, message_too_large, Fragment, kind_of, kind_code, fragment_count, crc32,
  write_fragment, encode_fragment, bad_shape, expected_len, parse_fragment, max_fragment_payload,
  header_len, magic, version, div_ceil,
}

-- The header of a fragment.
abbrev header : Kind → ℕ → List ℕ → ℕ → ℕ → List ℕ → List ℕ
header kind message_id message index count payload =
    magic
    ++ (version ∷ kind_code kind ∷ [])
    ++ be16 index
    ++ be32 message_id
    ++ be16 count
    ++ be16 (length payload % 2 ^ 16)
    ++ be32 (length message % 2 ^ 32)
    ++ be32 (crc32 message)

cleared :
    (n : ℕ) (output : List ℕ)
    → header_len + n ≤ length output
    → write {E = Error} output 0 (replicate (header_len + n) 0)
      ≡ ok (replicate 24 0 ++ (replicate n 0 ++ drop (header_len + n) output))
cleared n output h =
    write-fits output 0 (replicate (header_len + n) 0) fits
    ∙ ap (λ (k : ℕ). ok (replicate (header_len + n) 0 ++ drop k output)) whole
    ∙ ap (λ t. ok (t ++ drop (header_len + n) output)) (replicate-add header_len n 0)
  where
    whole : 0 + length {A = ℕ} (replicate (header_len + n) 0) ≡ header_len + n
    whole = omega (arith, length-replicate {A = ℕ} (header_len + n) 0)

    fits : 0 + length {A = ℕ} (replicate (header_len + n) 0) ≤ length output
    fits = omega (arith, length-replicate {A = ℕ} (header_len + n) 0)

over_zeros :
    (payload rest : List ℕ)
    → overwrite? (replicate (length payload) 0 ++ rest) 0 payload ≡ some (payload ++ rest)
over_zeros [] rest = refl
over_zeros (p ∷ payload) rest = rw (over_zeros payload rest)

write_fragment_lem :
    (kind : Kind) (message_id : ℕ) (message : List ℕ) (index count : ℕ) (payload output : List ℕ)
    → header_len + length payload ≤ length output
    → write_fragment kind message_id message index count payload output
      ≡ ok (
          header kind message_id message index count payload
          ++ (payload ++ drop (header_len + length payload) output))
unfolding write_fragment
write_fragment_lem kind message_id message index count payload output h =
    rw (cleared (length payload) output h, over_zeros payload) refl

-- What a successful `encode_fragment` is made of.
abbrev start_of : ℕ → ℕ
start_of index = index * max_fragment_payload

-- The bytes of the message that fragment `index` carries.
abbrev pub piece : List ℕ → ℕ → List ℕ
piece message index =
    take (min (start_of index + max_fragment_payload) (length message) - start_of index)
      (drop (start_of index) message)

abbrev pub count_of : List ℕ → ℕ
count_of message = div_ceil (length message) max_fragment_payload

-- A message that `fragment_count` accepts: not empty, and at most 64 fragments.
abbrev pub IsSendable : List ℕ → Type 0
IsSendable message = (0 < length message) × (length message ≤ 64 * max_fragment_payload)

pub fragment_count_sendable :
    (message : List ℕ)
    → IsSendable message
    → fragment_count (length message) ≡ ok (count_of message)
unfolding fragment_count
fragment_count_sendable message h = ground arith

pub fragment_count-cases :
    (message : List ℕ)
    → IsSendable message ⊎ ((e : Error) × (fragment_count (length message) ≡ err e))
unfolding fragment_count
fragment_count-cases message = elim (Bool-cases (length message == 0)) [
  | inl e ↦ inr (invalid_fragment, rw e refl)
  | inr e ↦ elim (Bool-cases (ltb (64 * max_fragment_payload) (length message))) [
    | inl long ↦ inr (message_too_large, ground arith)
    | inr short ↦ inl (ground arith, not_ltb→le (64 * max_fragment_payload) (length message) short)
  ]
]

kind_of-kind_code : (k : Kind) → kind_of (kind_code k) ≡ ok k
unfolding kind_of
kind_of-kind_code host_request = refl
kind_of-kind_code device_response = refl
kind_of-kind_code device_request = refl
kind_of-kind_code host_response = refl
kind_of-kind_code hello = refl

-- The fragment that a datagram of `encode_fragment` stands for.
abbrev pub fragment_of : Kind → ℕ → List ℕ → ℕ → Fragment
fragment_of kind message_id message index = record {
  kind = kind;
  message_id = message_id;
  index = index;
  count = count_of message;
  total_len = length message;
  checksum = crc32 message;
  payload = piece message index;
}

abbrev pub datagram_of : Kind → ℕ → List ℕ → ℕ → List ℕ
datagram_of kind message_id message index =
    header kind message_id message index (count_of message) (piece message index)
    ++ piece message index

pub length-piece :
    (message : List ℕ) (index : ℕ)
    → IsSendable message
    → index < count_of message
    → length (piece message index)
      ≡ min (start_of index + max_fragment_payload) (length message) - start_of index
length-piece message index h k = rw (length-take, length-drop) (omega arith)

crc32-lt : (bytes : List ℕ) → crc32 bytes < 2 ^ 32
unfolding crc32
crc32-lt bytes = omega arith

well_shaped :
    (total index payload_len datagram_len : ℕ)
    → 0 < total
    → total ≤ 64 * max_fragment_payload
    → index < div_ceil total max_fragment_payload
    → payload_len ≡ min (start_of index + max_fragment_payload) total - start_of index
    → datagram_len ≡ header_len + payload_len
    → (bad_shape index (div_ceil total max_fragment_payload) payload_len total datagram_len ≡ false)
      × (expected_len index (div_ceil total max_fragment_payload) total ≡ ok payload_len)
unfolding bad_shape expected_len
well_shaped total index payload_len datagram_len pos small hi hp hd = (ground arith, ground arith)

pub parse-datagram_of :
    (kind : Kind) (message_id : ℕ) (message : List ℕ) (index : ℕ)
    → IsSendable message
    → message_id < 2 ^ 32
    → index < count_of message
    → parse_fragment (datagram_of kind message_id message index)
      ≡ ok (fragment_of kind message_id message index)
unfolding parse_fragment
parse-datagram_of kind message_id message index h hid hi =
    let bytes = datagram_of kind message_id message index in
    let size : length bytes ≡ header_len + length (piece message index) = omega arith in
    let carried = length-piece message index h hi in
    let (shape, expected) =
      well_shaped (length message) index (length (piece message index)) (length bytes) h.0 h.1 hi
        carried size in
    let short : length (piece message index) % 2 ^ 16 ≡ length (piece message index) =
      omega arith in
    let small : length message % 2 ^ 32 ≡ length message = omega arith in
    rw
      (
        kind_of-kind_code kind,
        be16_value index (omega arith),
        be16_value (count_of message) (omega arith),
        be16_value (length (piece message index) % 2 ^ 16) (omega arith),
        be32_value message_id hid,
        be32_value (length message % 2 ^ 32) (omega arith),
        be32_value (crc32 message) (crc32-lt message),
      )
      (rw
        (
          le→ltb (length bytes) header_len (omega arith),
          sub-fits bytes 0 4 (omega arith) (omega arith),
          short,
          small,
          shape,
          expected,
          sub-fits bytes header_len (length bytes) (omega arith) (omega arith),
        )
        (rw
          (
            !=_self (length (piece message index)),
            take_all (length bytes - header_len) (piece message index) (omega arith),
          )
          refl))

pub encode_fragment_lem :
    (kind : Kind) (message_id : ℕ) (message : List ℕ) (index : ℕ) (output : List ℕ)
    → IsSendable message
    → index < count_of message
    → header_len + length (piece message index) ≤ length output
    → encode_fragment kind message_id message index output
      ≡ ok (
        header_len + length (piece message index),
        datagram_of kind message_id message index
            ++ drop (header_len + length (piece message index)) output,
      )
unfolding encode_fragment
encode_fragment_lem kind message_id message index output h hi room =
    rw
      (
        fragment_count_sendable message h,
        lt→leb (count_of message) index hi,
        sub-fits message (start_of index)
            (min (start_of index + max_fragment_payload) (length message)) (omega arith)
            (omega arith),
        le→ltb (length output) (header_len + length (piece message index)) room,
        write_fragment_lem kind message_id message index (count_of message) (piece message index)
            output room,
      )
      refl

-- For a message that fits 64 fragments and an output with room, `encode_fragment` writes the
-- datagram of fragment `index` and nothing behind it, and `parse_fragment` of what was written
-- returns that fragment: its kind, id, index and count, and the message's length and checksum.
pub parse_fragment-encode_fragment :
    (kind : Kind) (message_id : ℕ) (message : List ℕ) (index : ℕ) (output : List ℕ)
    → IsSendable message
    → message_id < 2 ^ 32
    → index < count_of message
    → header_len + length (piece message index) ≤ length output
    → (len : ℕ) × (o : List ℕ) × (encode_fragment kind message_id message index output
        ≡ ok (len, o))
      × (parse_fragment (take len o) ≡ ok (fragment_of kind message_id message index))
      × (drop len o ≡ drop len output)
parse_fragment-encode_fragment kind message_id message index output h hid hi room =
    let bytes = datagram_of kind message_id message index in
    let len = header_len + length (piece message index) in
    let size : length bytes ≡ len = omega arith in
    (
      len,
      bytes ++ drop len output,
      encode_fragment_lem kind message_id message index output h hi room,
      rw (take-append len bytes (drop len output) size)
          (parse-datagram_of kind message_id message index h hid hi),
      drop-append len bytes (drop len output) size,
    )
