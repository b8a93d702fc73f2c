-- ===== src/Mcp/Reassembler/Delivery.antt =====
-- Fragments of one message, in any order: the last one to arrive completes the message.
use nightrun.Prelude.{
  ℕ, ◌+◌, ◌-◌, ◌*◌, ◌/◌, ◌^◌, ◌≤◌, ◌<◌, min, bit_or, ◌≡◌, ◌≢◌, refl, sym, ap, ◌∙◌, Bool-cases, inl,
  inr, true, false, List, length, take, drop, get_elem?, none, some, ok, ltb, ◌==◌, ◌!=◌, !=_self,
  length-take, arith,
}
use nightrun.Prelude.Bytes.{sub-fits, overwritten, length-overwritten}
use nightrun.Prelude.Index.{
  get_elem?-take, get_elem?-drop, get_elem?_ext, get_elem?-overwritten_before,
  get_elem?-overwritten_inside, get_elem?-overwritten_after,
}
use nightrun.Prelude.Masks.{bit, bit-bit_or, bit-pow_ne, bit_or-lt, all_ones, bit-ones}
use nightrun.Mcp.{Kind, CompleteMessage, max_fragment_payload, crc32}
use nightrun.Mcp.Codec.{IsSendable, count_of, piece, length-piece}
use nightrun.Mcp.Reassembler.{Reassembler, complete_mask, deliver, check_complete}
use nightrun.Mcp.Reassembler.Validity.{shift-lt}

-- Byte `p` of a message is carried by fragment `p / max_fragment_payload`.
module _ (kind : Kind) (message_id : ℕ) (message : List ℕ) where
  -- The message is in flight, and each fragment that is marked has its bytes in the buffer.
  pub record Holds (r : Reassembler) : Type 0 where
    pub on : r.active ≡ true
    pub kind_eq : r.kind ≡ kind
    pub id_eq : r.message_id ≡ message_id
    pub count_eq : r.count ≡ count_of message
    pub total_eq : r.total_len ≡ length message
    pub checksum_eq : r.checksum ≡ crc32 message
    pub room : length message ≤ length r.buffer
    pub marked : r.received < 2 ^ count_of message
    pub copied :
        (p : ℕ)
        → p < length message
        → bit (p / max_fragment_payload) r.received ≡ 1
        → get_elem? r.buffer p ≡ get_elem? message p

  module _ (sendable : IsSendable message) where
    unfoldable pub stored_buffer : Reassembler → ℕ → List ℕ
    stored_buffer r i = overwritten r.buffer (i * max_fragment_payload) (piece message i)

    -- The state behind the write of fragment `i`.
    unfoldable pub stored : Reassembler → ℕ → Reassembler
    stored r i = record r { buffer = stored_buffer r i; received = bit_or r.received (2 ^ i) }

    pub piece_fits :
        (r : Reassembler) (i : ℕ)
        → length message ≤ length r.buffer
        → i < count_of message
        → i * max_fragment_payload + length (piece message i) ≤ length r.buffer
    piece_fits r i room hi = omega (arith, length-piece message i sendable hi)

    copied-stored :
        (r : Reassembler) (i : ℕ)
        → Holds r
        → i < count_of message
        → (p : ℕ) → p < length message
        → bit (p / max_fragment_payload) (bit_or r.received (2 ^ i)) ≡ 1
        → get_elem? (stored_buffer r i) p ≡ get_elem? message p
    unfolding stored_buffer
    copied-stored r i h hi p hp set = elim (Bool-cases (ltb p start)) [
      | inl before ↦
          get_elem?-overwritten_before r.buffer part start fits p (ground arith)
          ∙ h.copied p hp (kept (ground arith))
      | inr past ↦ elim (Bool-cases (ltb p (start + length part))) [
        | inl inside ↦
            let offset : start + (p - start) ≡ p = ground arith in
            let within : p - start < length part = ground arith in
            get_elem?-overwritten_inside r.buffer part start fits p (p - start) offset within
            ∙ get_elem?-take _ (p - start) (drop start message) (ground (arith, carried))
            ∙ get_elem?-drop start (p - start) p message offset
        | inr after ↦
            get_elem?-overwritten_after r.buffer part start fits p (ground arith)
            ∙ h.copied p hp (kept (ground (arith, carried)))
      ]
    ]
      where
        start : ℕ
        start = i * max_fragment_payload

        part : List ℕ
        part = piece message i

        carried :
            length (piece message i)
            ≡ min (i * max_fragment_payload + max_fragment_payload) (length message)
              - i * max_fragment_payload
        carried = length-piece message i sendable hi

        fits : i * max_fragment_payload + length (piece message i) ≤ length r.buffer
        fits = piece_fits r i h.room hi

        kept : p / max_fragment_payload ≢ i → bit (p / max_fragment_payload) r.received ≡ 1
        kept other = omega (
          arith,
          bit-bit_or (p / max_fragment_payload) r.received (2 ^ i),
          bit-pow_ne (p / max_fragment_payload) i other,
        )

    pub few : (0 < count_of message) × (count_of message ≤ 64)
    few = omega arith

    pub Holds-stored :
        (r : Reassembler) (i : ℕ) → Holds r → i < count_of message → Holds (stored r i)
    unfolding stored stored_buffer
    Holds-stored r i h hi =
        let (_, strict) = shift-lt i (count_of message) hi few.1 in
        record {
          on = h.on;
          kind_eq = h.kind_eq;
          id_eq = h.id_eq;
          count_eq = h.count_eq;
          total_eq = h.total_eq;
          checksum_eq = h.checksum_eq;
          room = omega (
            arith,
            h.room,
            length-overwritten r.buffer (i * max_fragment_payload) (piece message i)
                (piece_fits r i h.room hi),
          );
          marked = bit_or-lt (count_of message) r.received (2 ^ i) h.marked strict;
          copied = copied-stored r i h hi;
        }

    complete_mask_lem : complete_mask (count_of message) ≡ 2 ^ count_of message - 1
    unfolding complete_mask
    complete_mask_lem = elim (Bool-cases (count_of message == 64)) [
      | inl full ↦ let e : count_of message ≡ 64 = ground arith in rw e refl
      | inr less ↦
          let (same, _) = shift-lt (count_of message) 64 (ground (arith, few)) (omega arith) in
          rw less (ap (λ (t : ℕ). t - 1) same)
    ]

    whole_message :
        (r : Reassembler)
        → Holds r
        → ((j : ℕ) → j < count_of message → bit j r.received ≡ 1)
        → take (r.total_len - 0) r.buffer ≡ message
    whole_message r h all = rw h.total_eq (
        get_elem?_ext (take (length message - 0) r.buffer) message
          (omega (arith, length-take (length message - 0) r.buffer, h.room))
          λ p hp.
            let inside : p < length message =
              omega (arith, length-take (length message - 0) r.buffer) in
            get_elem?-take (length message - 0) p r.buffer (omega arith)
            ∙ h.copied p inside (all (p / max_fragment_payload) (omega arith)))

    abbrev pub delivered : CompleteMessage
    delivered = record { kind = kind; message_id = message_id; payload = message }

    pub check_complete_full :
        (r : Reassembler)
        → Holds r
        → ((j : ℕ) → j < count_of message → bit j r.received ≡ 1)
        → check_complete r ≡ (record r { active = false }, ok (some delivered))
    unfolding check_complete deliver
    check_complete_full r h all =
        let mask : r.received ≡ complete_mask r.count =
          all_ones (count_of message) r.received h.marked all
          ∙ sym (ap complete_mask h.count_eq ∙ complete_mask_lem) in
        let fits : r.total_len ≤ length r.buffer = omega (arith, h.total_eq, h.room) in
        rw
          (
            mask,
            !=_self (complete_mask r.count),
            sub-fits r.buffer 0 r.total_len (omega arith) fits,
            whole_message r h all,
            h.checksum_eq,
            !=_self (crc32 message),
            h.kind_eq,
            h.id_eq,
          )
          refl

    pub check_complete_missing :
        (r : Reassembler) (j : ℕ)
        → Holds r
        → j < count_of message
        → bit j r.received ≡ 0
        → check_complete r ≡ (r, ok none)
    unfolding check_complete
    check_complete_missing r j h hj absent =
        let differs : r.received ≢ complete_mask r.count = λ e. omega (
          arith,
          bit-ones (count_of message) j hj,
          ap (bit j) (e ∙ ap complete_mask h.count_eq ∙ complete_mask_lem),
        ) in
        let test : (r.received != complete_mask r.count) ≡ true = ground arith in rw test
