-- ===== src/Mcp/Reassembler/Order.antt =====
-- The fragments of one message in any order, with any repetitions before the last one.
use nightrun.Prelude.{
  ℕ, ◌*◌, ◌/◌, ◌^◌, ◌≤◌, ◌<◌, ◌≡◌, ◌≢◌, refl, sym, ap, ◌∙◌, ◌⊎◌, Bool-cases, inl, inr, Bool, true,
  false, List, [], ◌∷◌, ◌++◌, map, length, replicate, none, some, ok, ◌==◌, ◌||◌, le→ltb, ==_self,
  ==_iff, All, if◌then◌else◌, arith,
}
use nightrun.Prelude.Bytes.{overwrite?-fits}
use nightrun.Prelude.Masks.{bit, bit-zero, bit-bit_or, bit-pow_self, bit-pow_ne, bit-le_one}
use native.Mathlib.Nat.{one-le-pow}
use nightrun.Mcp.{Kind, max_fragment_payload, kind_code, crc32}
use nightrun.Mcp.Codec.{IsSendable, count_of, piece, fragment_of, datagram_of, parse-datagram_of}
use nightrun.Mcp.Reassembler.{
  Reassembler, Reply, same_message, restart, check_complete, store, accept, push, run,
}
use nightrun.Mcp.Reassembler.Validity.{shift-lt}
use nightrun.Mcp.Reassembler.Delivery.{
  Holds, stored, stored_buffer, piece_fits, few, Holds-stored, delivered, check_complete_full,
  check_complete_missing,
}

abbrev pub contains : ℕ → List ℕ → Bool
contains j [] = false
contains j (i ∷ is) = j == i || contains j is

module _ (kind : Kind) (message_id : ℕ) (message : List ℕ) (sendable : IsSendable message)
    (small_id : message_id < 2 ^ 32) (max : ℕ) (fits : length message ≤ max) where
  abbrev datagram : ℕ → List ℕ
  datagram i = datagram_of kind message_id message i

  abbrev Held : Reassembler → Type 0
  Held = Holds kind message_id message

  abbrev after : Reassembler → ℕ → Reassembler
  after r i = stored kind message_id message sendable r i

  same_message-Held :
      (r : Reassembler) (i : ℕ)
      → Held r
      → same_message r (fragment_of kind message_id message i) ≡ true
  unfolding same_message
  same_message-Held r i h =
      rw (h.on, h.kind_eq, h.id_eq, h.count_eq, h.total_eq, h.checksum_eq)
        (rw
          (
            ==_self (kind_code kind),
            ==_self message_id,
            ==_self (count_of message),
            ==_self (length message),
            ==_self (crc32 message),
          )
          refl)

  store-Held :
      (r : Reassembler) (i : ℕ)
      → Held r
      → i < count_of message
      → store r (fragment_of kind message_id message i) ≡ check_complete (after r i)
  unfolding store stored stored_buffer
  store-Held r i h hi =
      let (same, _) = shift-lt i (count_of message) hi (few kind message_id message sendable).1 in
      let room = piece_fits kind message_id message sendable r i h.room hi in
      rw (overwrite?-fits r.buffer (i * max_fragment_payload) (piece message i) room, store, same)
        refl

  -- A datagram of the message in flight is stored, and nothing else changes.
  push-Held :
      (r : Reassembler) (i : ℕ)
      → Held r
      → i < count_of message
      → push max r (datagram i) ≡ check_complete (after r i)
  unfolding push accept restart
  push-Held r i h hi =
      rw
        (
          parse-datagram_of kind message_id message i sendable small_id hi,
          push,
          le→ltb max (length message) fits,
          same_message-Held r i h,
        )
        (store-Held r i h hi)

  bit-after :
      (r : Reassembler) (i j : ℕ)
      → bit j (after r i).received ≡ (if j == i then 1 else bit j r.received)
  unfolding stored
  bit-after r i j = elim (Bool-cases (j == i)) [
    | inl same ↦
        let e : j ≡ i = (==_iff j i).0 same in
        rw same (
          omega (
            arith,
            bit-bit_or j r.received (2 ^ i),
            ap (λ (t : ℕ). bit j (2 ^ t)) e,
            bit-pow_self j,
            bit-le_one j r.received,
          ))
    | inr other ↦
        let ne : j ≢ i = ground arith in
        rw other (omega (arith, bit-bit_or j r.received (2 ^ i), bit-pow_ne j i ne))
  ]

  abbrev Covered : ℕ → List ℕ → Reassembler → Type 0
  Covered last is r =
      (j : ℕ) → j < count_of message → j ≢ last → (bit j r.received ≡ 1) ⊎ (contains j is ≡ true)

  abbrev Earlier : ℕ → List ℕ → Type 0
  Earlier last = All (λ i. (i < count_of message) × (i ≢ last))

  abbrev pub replies : List ℕ → List Reply
  replies is =
      replicate (length is) (ok none)
      ++ (ok (some (delivered kind message_id message sendable)) ∷ [])

  run-Held :
      (is : List ℕ) (last : ℕ) (r : Reassembler)
      → Held r
      → last < count_of message
      → bit last r.received ≡ 0
      → Earlier last is
      → Covered last is r
      → run max r (map datagram (is ++ (last ∷ []))) ≡ replies is
  unfolding run
  run-Held [] last r h hl absent es cover =
      rw
        (
          push-Held r last h hl,
          check_complete_full kind message_id message sendable (after r last)
              (Holds-stored kind message_id message sendable r last h hl) last_bit,
        )
        refl
    where
      last_bit : (j : ℕ) → j < count_of message → bit j (after r last).received ≡ 1
      last_bit j hj = elim (Bool-cases (j == last)) [
        | inl same ↦ bit-after r last j ∙ rw same
        | inr other ↦ elim (cover j hj (ground arith)) [
          | inl marked ↦ bit-after r last j ∙ rw other marked
          | inr none_left ↦ cc
        ]
      ]
  run-Held (i ∷ is) last r h hl absent es cover =
      let still : bit last (after r i).received ≡ 0 = ground (arith, bit-after r i last, es.0.1) in
      rw
        (
          push-Held r i h es.0.0,
          check_complete_missing kind message_id message sendable (after r i) last
              (Holds-stored kind message_id message sendable r i h es.0.0) hl still,
        )
        (ap (λ t. ok none ∷ t)
          (run-Held is last (after r i) (Holds-stored kind message_id message sendable r i h es.0.0)
            hl still es.1 still_covered))
    where
      still_covered : Covered last is (after r i)
      still_covered j hj ne = elim (Bool-cases (j == i)) [
        | inl same ↦ inl (bit-after r i j ∙ rw same)
        | inr other ↦ ground (arith, cover j hj ne, bit-after r i j)
      ]

  -- What the first fragment makes of an idle state.
  opened : Reassembler → Reassembler
  opened r = record r {
    active = true;
    kind = kind;
    message_id = message_id;
    count = count_of message;
    total_len = length message;
    checksum = crc32 message;
    received = 0;
  }

  opened-Held : (r : Reassembler) → length message ≤ length r.buffer → Held (opened r)
  unfolding opened
  opened-Held r room = record {
    on = refl;
    kind_eq = refl;
    id_eq = refl;
    count_eq = refl;
    total_eq = refl;
    checksum_eq = refl;
    room = room;
    marked = one-le-pow (count_of message) 2 (omega arith);
    copied = λ p hp set. absurd (omega (arith, set, bit-zero (p / max_fragment_payload)));
  }

  push-idle :
      (r : Reassembler) (i : ℕ)
      → r.active ≡ false
      → length message ≤ length r.buffer
      → i < count_of message
      → push max r (datagram i) ≡ push max (opened r) (datagram i)
  unfolding opened
  push-idle r i idle room hi = first ∙ sym (push-Held (opened r) i (opened-Held r room) hi)
    where
      other : same_message r (fragment_of kind message_id message i) ≡ false
      other = unfold same_message in rw idle

      first : push max r (datagram i) ≡ check_complete (after (opened r) i)
      first =
          unfold push accept restart in
          rw
            (
              parse-datagram_of kind message_id message i sendable small_id hi,
              push,
              le→ltb max (length message) fits,
              other,
            )
            (store-Held (opened r) i (opened-Held r room) hi)

  -- An idle reassembler with room for the message is sent the fragments `is` and then `last`, which
  -- is not among them and without which no fragment is missing: in whatever order and however often
  -- the others come, they are answered with no message, and `last` with the whole message.
  pub run-any_order :
      (r : Reassembler) (is : List ℕ) (last : ℕ)
      → r.active ≡ false
      → length message ≤ length r.buffer
      → last < count_of message
      → Earlier last is
      → ((j : ℕ) → j < count_of message → j ≢ last → contains j is ≡ true)
      → run max r (map datagram (is ++ (last ∷ []))) ≡ replies is
  unfolding opened
  run-any_order r is last idle room hl es cover =
      enter is es
      ∙ run-Held is last (opened r) (opened-Held r room) hl (bit-zero last) es
          (λ j hj ne. inr (cover j hj ne))
    where
      step :
          (i : ℕ) (rest : List (List ℕ))
          → i < count_of message
          → run max r (datagram i ∷ rest) ≡ run max (opened r) (datagram i ∷ rest)
      step i rest hi = unfold run in rw (push-idle r i idle room hi)

      enter :
          (xs : List ℕ)
          → Earlier last xs
          → run max r (map datagram (xs ++ (last ∷ [])))
            ≡ run max (opened r) (map datagram (xs ++ (last ∷ [])))
      enter [] h = step last [] hl
      enter (x ∷ xs) h = step x (map datagram (xs ++ (last ∷ []))) h.0.0
