-- ===== src/Gateway/Delivery.antt =====
-- tools/nrmcp-gateway/src/main.rs and crates/nr-mcp/src/lib.rs: what `send_message` sends is put
-- together at the other end.
use nightrun.Prelude.{
  ℕ, zero, suc, ◌+◌, ◌-◌, ◌*◌, ◌^◌, min, ◌≤◌, ◌<◌, ◌≡◌, refl, sym, ap, ◌∙◌, subst, Bool, true,
  false, List, [], ◌∷◌, ◌++◌, map, length, drop, replicate, ok, length-append, length-drop,
  length-replicate, length-take, take-append, All, All-append, append-nil, Bool-cases, inl, inr,
  ◌==◌, ◌||◌, arith,
}
use nightrun.Prelude.Bytes.{sub, sub-fits}
use mathlib.Core.List.{map-append}
use nightrun.Mcp.{Kind, max_datagram, max_fragment_payload, header_len}
use nightrun.Mcp.Codec.{
  IsSendable, count_of, piece, datagram_of, encode_fragment_lem, fragment_count_sendable,
}
use nightrun.Mcp.Reassembler.{Reassembler, run}
use nightrun.Mcp.Reassembler.Order.{contains, replies, run-any_order}
use nightrun.Gateway.{SocketAddr, SendError, send_fragments, send_message}

-- The indices below a bound, in order.
abbrev pub upto : ℕ → List ℕ
upto zero = []
upto (suc n) = upto n ++ (n ∷ [])

-- The datagrams in the order in which they were sent.
abbrev pub arrivals : List (SocketAddr × List ℕ) → List (List ℕ)
arrivals [] = []
arrivals ((peer, bytes) ∷ rest) = arrivals rest ++ (bytes ∷ [])

pub piece_room : (message : List ℕ) (i : ℕ) → header_len + length (piece message i) ≤ max_datagram
piece_room message i = omega (
  arith,
  length-take
      (min (i * max_fragment_payload + max_fragment_payload) (length message)
        - i * max_fragment_payload)
      (drop (i * max_fragment_payload) message),
)

-- The datagram buffer after the fragment `i` was encoded into it.
abbrev pub written : Kind → ℕ → List ℕ → ℕ → List ℕ → List ℕ
written kind id message i datagram =
    datagram_of kind id message i ++ drop (header_len + length (piece message i)) datagram

-- It keeps its size, and `datagram[..len]` is the encoded fragment.
pub written_whole :
    (kind : Kind) (id : ℕ) (message : List ℕ) (i : ℕ) (datagram : List ℕ)
    → length datagram ≡ max_datagram
    → (length (written kind id message i datagram) ≡ max_datagram)
      × (sub {E = SendError}
            (written kind id message i datagram)
            0
            (header_len + length (piece message i))
          ≡ ok (datagram_of kind id message i))
written_whole kind id message i datagram size =
    let bytes = datagram_of kind id message i in
    let len = header_len + length (piece message i) in
    let room : len ≤ max_datagram = piece_room message i in
    let full : length (written kind id message i datagram) ≡ max_datagram =
      omega (arith, room, length-append bytes (drop len datagram), length-drop len datagram) in
    (
      full,
      sub-fits {E = SendError} (written kind id message i datagram) 0 len (omega arith)
            (omega (arith, full, room))
          ∙ ap ok (take-append (len - 0) bytes (drop len datagram) (omega arith)),
    )

module _ (accepts : List (SocketAddr × List ℕ) → List ℕ → Bool)
    (all : (sent : List (SocketAddr × List ℕ)) (bytes : List ℕ) → accepts sent bytes ≡ true)
    (peer : SocketAddr) (kind : Kind) (message_id : ℕ) (message : List ℕ)
    (sendable : IsSendable message) where
  -- The first datagrams of the message, newest first.
  abbrev recorded : ℕ → List (SocketAddr × List ℕ)
  recorded zero = []
  recorded (suc i) = (peer, datagram_of kind message_id message i) ∷ recorded i

  send_fragments_lem :
      (n i : ℕ) (datagram : List ℕ) (sent : List (SocketAddr × List ℕ))
      → i + n ≡ count_of message
      → length datagram ≡ max_datagram
      → send_fragments accepts n peer kind message_id message i datagram (recorded i ++ sent)
        ≡ (recorded (count_of message) ++ sent, ok tt)
  unfolding send_fragments
  send_fragments_lem zero i datagram sent e size =
      ap (λ (k : ℕ). (recorded k ++ sent, ok tt)) {x = i} (omega arith)
  send_fragments_lem (suc n) i datagram sent e size =
      let bytes = datagram_of kind message_id message i in
      let (full, whole) = written_whole kind message_id message i datagram size in
      let next : recorded (i + 1) ≡ (peer, bytes) ∷ recorded i =
        ap recorded {x = i + 1} {y = suc i} (omega arith) in
      rw
        (
          encode_fragment_lem kind message_id message i datagram sendable (omega arith)
              (omega (arith, piece_room message i)),
          send_fragments,
          whole,
          all (recorded i ++ sent) bytes,
        )
        (subst
          (λ t.
            send_fragments accepts n peer kind message_id message (i + 1)
              (written kind message_id message i datagram) (t ++ sent)
            ≡ (recorded (count_of message) ++ sent, ok tt))
          next
          (send_fragments_lem n (i + 1) (written kind message_id message i datagram) sent
            (omega arith) full))

  -- Where the socket takes every datagram, `send_message` sends all of the message.
  pub send_message_lem :
      (sent : List (SocketAddr × List ℕ))
      → send_message accepts peer kind message_id message sent
        ≡ (recorded (count_of message) ++ sent, ok tt)
  unfolding send_message
  send_message_lem sent =
      rw (fragment_count_sendable message sendable, send_message)
        (send_fragments_lem (count_of message) 0 (replicate max_datagram 0) sent (omega arith)
          (length-replicate {A = ℕ} max_datagram 0))

  arrivals-recorded :
      (n : ℕ) → arrivals (recorded n) ≡ map (datagram_of kind message_id message) (upto n)
  arrivals-recorded zero = refl
  arrivals-recorded (suc n) =
      ap (λ t. t ++ (datagram_of kind message_id message n ∷ [])) (arrivals-recorded n)
      ∙ sym (map-append (datagram_of kind message_id message) (upto n) (n ∷ []))

module _ {ℓ} (P : ℕ → Type ℓ) where
  All-upto : (n : ℕ) → ((i : ℕ) → i < n → P i) → All P (upto n)
  All-upto zero h = tt
  All-upto (suc n) h =
      All-append P (upto n) (n ∷ []) (All-upto n (λ i k. h i (omega arith))) (h n (omega arith), tt)

contains-append : (j : ℕ) (is js : List ℕ) → contains j is || contains j js ≡ contains j (is ++ js)
contains-append j [] js = refl
contains-append j (i ∷ is) js = ground (arith, contains-append j is js)

contains-upto : (j n : ℕ) → j < n → contains j (upto n) ≡ true
contains-upto j zero h = absurd (omega arith)
contains-upto j (suc n) h = elim (Bool-cases (j == n)) [
  | inl e ↦ ground (arith, contains-append j (upto n) (n ∷ []))
  | inr e ↦ ground (arith, contains-append j (upto n) (n ∷ []), contains-upto j n (ground arith))
]

-- One end calls `send_message` on a message that fits 64 fragments, and its socket takes every
-- datagram: the call succeeds. An idle reassembler with room for the message, at the other end, that
-- gets the datagrams in the order of sending answers the last one with the whole message, and those
-- before it with no message.
pub run-send_message :
    (accepts : List (SocketAddr × List ℕ) → List ℕ → Bool)
    → ((sent : List (SocketAddr × List ℕ)) (bytes : List ℕ) → accepts sent bytes ≡ true)
    → (peer : SocketAddr) (kind : Kind) (message_id : ℕ) (message : List ℕ)
      (sendable : IsSendable message) (small_id : message_id < 2 ^ 32) (max : ℕ)
      (fits : length message ≤ max) (r : Reassembler)
    → r.active ≡ false
    → length message ≤ length r.buffer
    → ((send_message accepts peer kind message_id message []).1 ≡ ok tt)
      × (run max r (arrivals (send_message accepts peer kind message_id message []).0)
          ≡ replies kind message_id message sendable small_id max fits
              (upto (count_of message - 1)))
run-send_message accepts all peer kind message_id message sendable small_id max fits r idle room =
    (ap (λ t. t.1) sending, ap (λ t. run max r (arrivals t.0)) sending ∙ arrived)
  where
    sending : send_message accepts peer kind message_id message [] ≡ (
      recorded accepts all peer kind message_id message sendable (count_of message) ++ [],
      ok tt,
    )
    sending = send_message_lem accepts all peer kind message_id message sendable []

    last : ℕ
    last = count_of message - 1

    datagrams : ℕ → List ℕ
    datagrams = datagram_of kind message_id message

    in_order :
        arrivals
          (recorded accepts all peer kind message_id message sendable (count_of message) ++ [])
        ≡ map datagrams (upto last ++ (last ∷ []))
    in_order =
        ap arrivals (
          append-nil
            (recorded accepts all peer kind message_id message sendable (count_of message)))
        ∙ arrivals-recorded accepts all peer kind message_id message sendable (count_of message)
        ∙ ap (λ (k : ℕ). map datagrams (upto k)) {x = count_of message} {y = suc last} (omega arith)

    arrived :
        run max r (
          arrivals
            (recorded accepts all peer kind message_id message sendable (count_of message) ++ []))
        ≡ replies kind message_id message sendable small_id max fits (upto last)
    arrived =
        ap (run max r) in_order
        ∙ run-any_order kind message_id message sendable small_id max fits r (upto last) last idle
            room (omega arith)
            (All-upto _ last (λ i h. (omega arith, λ (e : i ≡ last). absurd (omega arith))))
            (λ j h ne. contains-upto j last (omega arith))
