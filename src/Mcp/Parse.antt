-- ===== src/Mcp/Parse.antt =====
-- `parse_fragment` on any input: it never panics, and what it accepts is well formed.
use nightrun.Prelude.{
  ℕ, ◌+◌, ◌-◌, ◌*◌, ◌≤◌, ◌<◌, min, ◌≡◌, ◌≢◌, List, length, length-take, length-drop, take, drop,
  get_or, ltb, not, ok, panic, ◌>>=◌, Safe, Safe-bind, Safe-fail_if, fail_if, ◌>>◌, ◌!=◌, false,
  arith,
}
use nightrun.Prelude.Bytes.{bytes_eq, be16_of, be32_of, at-lt, sub-fits, be16_at-lt, be32_at-lt}
use nightrun.Mcp.{
  Kind, Fragment, kind_of, bad_shape, expected_len, parse_fragment, max_fragment_payload,
  header_len, magic, version, div_ceil, truncated, bad_magic, unsupported_version, invalid_fragment,
}

-- The count follows from the length, and the payload fills its place in the message.
pub record IsWellFormed (f : Fragment) : Type 0 where
  pub some_bytes : 0 < f.total_len
  pub few : f.count ≤ 64
  pub counted : f.count ≡ div_ceil f.total_len max_fragment_payload
  pub in_range : f.index < f.count
  pub filled :
      length f.payload
      ≡ min (f.index * max_fragment_payload + max_fragment_payload) f.total_len
        - f.index * max_fragment_payload

kind_of-ne-panic : (k : ℕ) → kind_of k ≢ panic
unfolding kind_of
kind_of-ne-panic k = ground arith

shape :
    (index count payload_len total size : ℕ)
    → bad_shape index count payload_len total size ≡ false
    → (count ≤ 64)
      × (index < count)
      × (count ≡ div_ceil total max_fragment_payload)
      × (0 < total)
      × (size ≡ header_len + payload_len)
unfolding bad_shape
shape index count payload_len total size h = ground arith

module _ (index count total : ℕ) (in_range : index < count)
    (counted : count ≡ div_ceil total max_fragment_payload) (some_bytes : 0 < total) where
  expected_len-ne-panic : expected_len index count total ≢ panic
  unfolding expected_len
  expected_len-ne-panic = ground arith

expected_len_value :
    (index count total expected : ℕ)
    → index < count
    → count ≡ div_ceil total max_fragment_payload
    → 0 < total
    → expected_len index count total ≡ ok expected
    → expected
      ≡ min (index * max_fragment_payload + max_fragment_payload) total
        - index * max_fragment_payload
unfolding expected_len
expected_len_value index count total expected hi hc pos e = ground arith

-- The tests on the header's numbers, once the fields are read.
checked :
    (kind : Kind) (message_id index count payload_len total checksum size : ℕ) (payload : List ℕ)
    → length payload ≡ size - header_len
    → Safe IsWellFormed (do
      fail_if (bad_shape index count payload_len total size) invalid_fragment
      expected ← expected_len index count total
      fail_if (payload_len != expected) invalid_fragment
      payload' ← ok payload
      ok (record {
        kind = kind;
        message_id = message_id;
        index = index;
        count = count;
        total_len = total;
        checksum = checksum;
        payload = payload';
      }))
checked kind message_id index count payload_len total checksum size payload h =
    Safe-fail_if IsWellFormed (bad_shape index count payload_len total size) invalid_fragment _
      λ good.
        let (few, in_range, counted, some_bytes, exact) =
          shape index count payload_len total size good in
        Safe-bind IsWellFormed (expected_len index count total) _
          (λ expected e.
            Safe-fail_if IsWellFormed (payload_len != expected) invalid_fragment _ λ same. record {
              some_bytes = some_bytes;
              few = few;
              counted = counted;
              in_range = in_range;
              filled = ground (
                arith,
                expected_len_value index count total expected in_range counted some_bytes e,
              );
            })
          (expected_len-ne-panic index count total in_range counted some_bytes)

-- On every input `parse_fragment` returns without a panic, and a fragment that it accepts is well
-- formed: it has at most 64 fragments, as many as its length needs, an index below their number, and
-- the payload that fills its place in the message.
pub parse_fragment-Safe : (datagram : List ℕ) → Safe IsWellFormed (parse_fragment datagram)
unfolding parse_fragment
parse_fragment-Safe datagram =
    Safe-fail_if IsWellFormed (ltb (length datagram) header_len) truncated _ λ long.
      let enough : header_len ≤ length datagram = ground arith in
      rw
        (
          sub-fits datagram 0 4 (omega arith) (omega arith),
          at-lt datagram 4 (omega arith),
          at-lt datagram 5 (omega arith),
          be16_at-lt datagram 6 (omega arith),
          be32_at-lt datagram 8 (omega arith),
          be16_at-lt datagram 12 (omega arith),
          be16_at-lt datagram 14 (omega arith),
          be32_at-lt datagram 16 (omega arith),
          be32_at-lt datagram 20 (omega arith),
          sub-fits datagram header_len (length datagram) (omega arith) (omega arith),
        )
        (Safe-fail_if IsWellFormed (not (bytes_eq (take 4 datagram) magic)) bad_magic _ λ _.
          Safe-fail_if IsWellFormed (get_or datagram 4 0 != version) unsupported_version _ λ _.
            Safe-bind IsWellFormed (kind_of (get_or datagram 5 0)) _
              (λ kind _.
                checked kind (be32_of datagram 8) (be16_of datagram 6) (be16_of datagram 12)
                  (be16_of datagram 14) (be32_of datagram 16) (be32_of datagram 20)
                  (length datagram) (take (length datagram - header_len) (drop header_len datagram))
                  (rw (length-take, length-drop) (omega arith)))
              (kind_of-ne-panic (get_or datagram 5 0)))
