-- ===== src/Boot/Network/Polling.antt =====
-- A poll returns and keeps the invariant.
use nightrun.Prelude.{
  ℕ, ◌+◌, ◌-◌, ◌%◌, ◌^◌, ◌≤◌, ◌≡◌, ◌≢◌, refl, Bool, true, false, ◌&&◌, Bool-cases, inl, inr, List,
  [], ◌∷◌, ◌++◌, length, length-drop, length-append, take, drop, All, none, some, ◌==◌,
  if◌then◌else◌, Result, ok, err, panic, ◌>>=◌, Safe, Returns, Returns-then, Returns-weaken, arith,
}
use nightrun.Prelude.Bytes.{sub-fits}
use nightrun.Net.Types.{
  Stack, Error, SendOutcome, datagram, neighbor_discovery, ReceiveEvent, no_event, reply,
  neighbor_learned, udp,
}
use nightrun.Net.Receive.{Io, receive}
use nightrun.Net.Receive.Handlers.{Fits}
use nightrun.Net.Receive.Total.{receive-ne-panic}
use nightrun.Net.Send.Total.{IsSent, send_udp-Safe}
use nightrun.Mcp.{max_datagram}
use nightrun.Mcp.Codec.{
  IsSendable, count_of, piece, length-piece, fragment_count_sendable, encode_fragment_lem,
  datagram_of,
}
use nightrun.Mcp.Reassembler.{Reassembler, Reply, push}
use nightrun.Mcp.Reassembler.Validity.{IsValid, IsBounded, push-IsValid}
use nightrun.Boot.Network.{
  Network, PendingMessage, Received, frame, not_ready, failed, frame_bytes, max_mcp_message,
  mcp_port, gateway, reclaim_transmit, transmit, conclude_send, send_front, send_pending,
  take_datagram, handle, receive_loop, poll_stack, poll_mcp,
}
use nightrun.Boot.Network.Running.{
  IsWaiting, IsRunning, with_pending, with_stack, with_reassembler, with_transmit,
}

reclaim-IsRunning : (b : Bool) {n : Network} → IsRunning n → IsRunning (reclaim_transmit b n)
unfolding reclaim_transmit
reclaim-IsRunning b {n = n} r = elim (Bool-cases (n.tx_busy && b)) [
  | inl done ↦
      rw done
        (with_transmit r n.mcp_datagram false n.sent n.next_message_id r.datagram_sized r.id_set)
  | inr still ↦ rw still r
]

module _ (accepts : List (List ℕ) → List ℕ → Bool) where
  transmit-Returns :
      (len : ℕ) (n : Network)
      → len ≤ length n.tx
      → IsRunning n
      → Returns (λ n'. IsRunning n' × (n'.pending ≡ n.pending)) (transmit accepts len n)
  unfolding transmit
  transmit-Returns len n fits r =
      rw (sub-fits {E = Error} n.tx 0 len (omega arith) fits)
        (elim (Bool-cases (accepts n.sent (take (len - 0) n.tx))) [
          | inl taken ↦ rw taken (
            with_transmit r n.mcp_datagram true _ n.next_message_id r.datagram_sized r.id_set,
            refl,
          )
          | inr refused ↦ rw refused (r, refl)
        ])

  conclude_send-Returns :
      (n : Network) (m : PendingMessage) (rest : List PendingMessage) (count : ℕ)
      (r : Result Error (SendOutcome × (Stack × List ℕ)))
      → IsRunning n
      → IsWaiting m
      → All IsWaiting rest
      → All IsWaiting n.pending
      → count ≡ count_of m.json
      → Safe (IsSent n.stack n.tx) r
      → Returns IsRunning (conclude_send accepts n m rest count r)
  unfolding conclude_send
  conclude_send-Returns n m rest count (ok (neighbor_discovery len, (s, o))) r w ws all e sent =
      let (sound, same, size, fits) = sent in
      Returns-weaken IsRunning _ (transmit accepts len (record n { stack = s; tx = o }))
        (λ n' h. h.0)
        (transmit-Returns len (record n { stack = s; tx = o }) (omega arith)
          (with_stack r s o sound same size))
  conclude_send-Returns n m rest count (ok (datagram len, (s, o))) r w ws all e sent =
      let (sound, same, size, fits) = sent in
      Returns-then IsRunning _ (transmit accepts len (record n { stack = s; tx = o })) _
        (transmit-Returns len (record n { stack = s; tx = o }) (omega arith)
          (with_stack r s o sound same size))
        λ n' _ h. elim (Bool-cases ((m.fragment + 1) % 2 ^ 16 == count)) [
          | inl last ↦ rw last (with_pending h.0 rest ws)
          | inr more ↦ rw more (with_pending h.0 _ ((w.0, w.1, ground arith), ws))
        ]
  conclude_send-Returns n m rest count (err x) r w ws all e sent = with_pending r rest ws
  conclude_send-Returns n m rest count panic r w ws all e sent = absurd sent

  send_front-Returns :
      (n : Network) (ms : List PendingMessage)
      → IsRunning n
      → All IsWaiting ms
      → Returns IsRunning (send_front accepts n ms)
  unfolding send_front
  send_front-Returns n [] r ws = r
  send_front-Returns n (m ∷ rest) r ws =
      let sendable : IsSendable m.json = (ws.0.0, omega (arith, ws.0.1)) in
      let size = length-piece m.json m.fragment sendable ws.0.2 in
      let room : 24 + length (piece m.json m.fragment) ≤ length n.mcp_datagram =
        omega (arith, r.datagram_sized) in
      let whole : length (datagram_of m.kind m.message_id m.json m.fragment)
          ≡ 24 + length (piece m.json m.fragment) =
        omega arith in
      let kept : length (
            datagram_of m.kind m.message_id m.json m.fragment
            ++ drop (24 + length (piece m.json m.fragment)) n.mcp_datagram)
          ≡ max_datagram =
        omega (
          arith,
          r.datagram_sized,
          length-append (datagram_of m.kind m.message_id m.json m.fragment)
              (drop (24 + length (piece m.json m.fragment)) n.mcp_datagram),
          length-drop (24 + length (piece m.json m.fragment)) n.mcp_datagram,
        ) in
      rw
        (
          encode_fragment_lem m.kind m.message_id m.json m.fragment n.mcp_datagram sendable ws.0.2
              room,
          send_front,
          sub-fits {E = Error}
              (datagram_of m.kind m.message_id m.json m.fragment
                ++ drop (24 + length (piece m.json m.fragment)) n.mcp_datagram)
              0 (24 + length (piece m.json m.fragment)) (omega arith) (omega arith),
          fragment_count_sendable m.json sendable,
        )
        (conclude_send-Returns _ m rest _ _
          (with_transmit r _ n.tx_busy n.sent n.next_message_id kept r.id_set) ws.0 ws.1 r.waiting
          refl
          (send_udp-Safe n.stack r.sound gateway refl (rw (r.gateway_set) refl) mcp_port mcp_port _
            n.tx))

  take_datagram-Returns :
      (n : Network) (p : Reassembler × Reply)
      → IsRunning n
      → IsValid max_mcp_message p.0
      → Safe (IsBounded max_mcp_message) p.1
      → Returns (λ q. IsRunning q.0) (take_datagram accepts p n)
  unfolding take_datagram
  take_datagram-Returns n (a, ok (some m)) r v b = with_reassembler r a (some m) v b
  take_datagram-Returns n (a, ok none) r v b = with_reassembler r a n.inbox v r.bounded
  take_datagram-Returns n (a, err e) r v b = with_reassembler r a n.inbox v r.bounded
  take_datagram-Returns n (a, panic) r v b = absurd b

  handle-Returns :
      (n : Network) (e : Result Error ReceiveEvent)
      → IsRunning n
      → e ≢ panic
      → Safe (Fits frame_bytes) e
      → Returns (λ q. IsRunning q.0) (handle accepts e n)
  unfolding handle
  handle-Returns n (ok (reply len)) r ne fits =
      elim (n.tx_busy)
        as (λ b.
          Returns (λ (q : Network × Bool). IsRunning q.0)
            (if b then ok (n, false) else (transmit accepts len n >>= λ n'. ok (n', false)))) [
              | true ↦ r
              | false ↦
                  Returns-then (λ q. IsRunning q.0) _ (transmit accepts len n) _
                    (transmit-Returns len n (omega (arith, r.tx_sized)) r) λ n' _ h. h.0
            ]
  handle-Returns n (ok (udp d)) r ne fits = elim (Bool-cases (d.destination_port == mcp_port)) [
    | inl ours ↦
        let (v, b) = push-IsValid max_mcp_message n.reassembler d.payload r.assembling in
        rw ours (take_datagram-Returns n (push max_mcp_message n.reassembler d.payload) r v b)
    | inr other ↦ rw other r
  ]
  handle-Returns n (ok (neighbor_learned ip mac)) r ne fits = r
  handle-Returns n (ok no_event) r ne fits = r
  handle-Returns n (err e) r ne fits = r
  handle-Returns n panic r ne fits = absurd (ne refl)

  receive_loop-Returns :
      (frames : List Received) (n : Network)
      → IsRunning n
      → Returns IsRunning (receive_loop accepts frames n)
  unfolding receive_loop
  receive_loop-Returns [] n r = r
  receive_loop-Returns (not_ready ∷ rest) n r = r
  receive_loop-Returns (failed ∷ rest) n r = r
  receive_loop-Returns (frame bytes ∷ rest) n r =
      let io : Io = record { stack = n.stack; response = n.tx } in
      let (calm, kept, fits) = receive-ne-panic (take frame_bytes bytes) io r.sound in
      let at = receive (take frame_bytes bytes) io in
      let n' : Network = record n { stack = at.0.stack; tx = at.0.response } in
      let r' : IsRunning n' =
        with_stack r at.0.stack at.0.response kept.sound kept.same_config kept.same_room in
      Returns-then IsRunning (λ q. IsRunning q.0) (handle accepts at.1 n') _
        (handle-Returns n' at.1 r' calm (rw (← r.tx_sized) fits))
        λ q _ h. after (receive_loop-Returns rest) q h
    where
      after :
          ((m : Network) → IsRunning m → Returns IsRunning (receive_loop accepts rest m))
          → (q : Network × Bool) → IsRunning q.0
          → Returns IsRunning (elim (q.1) [ true ↦ ok q.0 | false ↦ receive_loop accepts rest q.0 ])
      after ih (m, true) h = h
      after ih (m, false) h = ih m h

  send_pending-Returns : (n : Network) → IsRunning n → Returns IsRunning (send_pending accepts n)
  unfolding send_pending
  send_pending-Returns n r =
      elim (n.tx_busy)
        as (λ b. Returns IsRunning (if b then ok n else send_front accepts n n.pending)) [
          | true ↦ r
          | false ↦ send_front-Returns n n.pending r r.waiting
        ]

  -- A poll, whatever the firmware answers.
  pub poll_mcp-Returns :
      (recycled : Bool) (frames : List Received) (n : Network)
      → IsRunning n
      → Returns
          (λ p. IsBounded max_mcp_message p.0 × IsRunning p.1)
          (poll_mcp accepts recycled frames n)
  unfolding poll_mcp poll_stack
  poll_mcp-Returns recycled frames n r =
      let m = reclaim_transmit recycled n in
      Returns-then _ IsRunning (poll_stack accepts recycled frames n) _
        (Returns-then IsRunning IsRunning (send_pending accepts m) (receive_loop accepts frames)
          (send_pending-Returns m (reclaim-IsRunning recycled r))
          λ n' _ h. receive_loop-Returns frames n' h)
        λ n' _ h. (h.bounded, with_reassembler h n'.reassembler none h.assembling tt)
