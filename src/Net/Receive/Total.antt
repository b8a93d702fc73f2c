-- ===== src/Net/Receive/Total.antt =====
-- `receive` on any bytes: it does not panic, and keeps what the stack relies on.
use nightrun.Prelude.{
  ℕ, ◌-◌, ◌*◌, ◌/◌, ◌≤◌, ◌≡◌, ◌≢◌, Bool-cases, inl, inr, refl, bit_and, Bool, true, false, not,
  ◌&&◌, ◌||◌, List, length, get_or, length-drop, length-take, take, drop, Result, ok, err, panic,
  Safe, ltb, ◌==◌, ◌!=◌, if◌then◌else◌, arith,
}
use nightrun.Prelude.Bytes.{sub, at, at-lt, be16_of, sub-fits, be16_at-lt, bytes_eq}
use nightrun.Net.Types.{
  Config, Error, ReceiveEvent, udp, no_event, MacAddress, Ipv4Address, eth_header, ipv4_header,
  ethertype_arp, ethertype_ipv4, ip_protocol_icmp, ip_protocol_udp, mac_broadcast,
}
use nightrun.Net.Checksum.{checksum}
use nightrun.Net.Cache.Lookup.{learned, learn_lem}
use nightrun.Net.Wire.{parse_udp}
use nightrun.Net.Receive.{Io, ◌>>=◌, ◌>>◌, lift, pure, learn, receive_icmp, receive_ipv4, receive}
use nightrun.Net.Receive.Handlers.{
  IsSound, Keeps, Fits, learned-Keeps, receive_arp-Ends, receive_icmp-Ends, parse_udp-Safe,
}
use nightrun.Net.Receive.Ends.{Ends, pure-Ends, step, if-Ends}

module _ (c : Config) (room : ℕ) where
  abbrev I : Io → Type 0
  I = Keeps c room

  abbrev R : ReceiveEvent → Type 0
  R = Fits room

  -- What follows the address tests.
  deliver-Ends :
      (protocol header_len total_len : ℕ) (source destination : Ipv4Address)
      (frame payload : List ℕ) (io : Io)
      → ipv4_header ≤ header_len
      → I io
      → Ends I R (
          (if protocol == ip_protocol_icmp
              then receive_icmp frame header_len total_len
              else if protocol == ip_protocol_udp
              then (lift (parse_udp source destination payload) >>= λ d. pure (udp d))
              else pure no_event)
            io)
  deliver-Ends protocol hl tl source destination frame payload io h k =
      if-Ends I R (protocol == ip_protocol_icmp) (receive_icmp frame hl tl) _ io
        (λ _. receive_icmp-Ends c room frame hl tl io h k)
        λ _.
          if-Ends I R (protocol == ip_protocol_udp)
            (lift (parse_udp source destination payload) >>= λ d. pure (udp d)) (pure no_event) io
            (λ _.
              step I (λ _. Unit {0}) R (parse_udp source destination payload) (λ d. pure (udp d)) io
                k (parse_udp-Safe c room source destination payload)
                λ d _. pure-Ends I R (udp d) io k tt)
            (λ _. pure-Ends I R no_event io k tt)

  -- The tests on the header have passed; `ip` and `mac` are the sender's, who is learned.
  accept-Ends :
      (ours : Bool) (source destination : Ipv4Address) (mac : MacAddress) (frame packet : List ℕ)
      (header_len total_len : ℕ) (io : Io)
      → length mac ≡ 6
      → 20 ≤ header_len
      → header_len ≤ total_len
      → total_len ≤ length packet
      → I io
      → Ends I R (
          (if ours then pure no_event else (do
            learn source mac
            payload ← lift (sub packet header_len total_len)
            protocol ← lift (at packet 9)
            if protocol == ip_protocol_icmp
                then receive_icmp frame header_len total_len
                else if protocol == ip_protocol_udp
                then (do d ← lift (parse_udp source destination payload); pure (udp d))
                else pure no_event))
            io)
  accept-Ends true source destination mac frame packet hl tl io six a b f k =
      pure-Ends I R no_event io k tt
  accept-Ends false source destination mac frame packet hl tl io six a b f k =
      rw
        (
          learn_lem io.stack source mac k.sound.ready,
          sub-fits {E = Error} packet hl tl b f,
          at-lt {E = Error} packet 9 (omega arith),
        )
        (deliver-Ends (get_or packet 9 0) hl tl source destination frame
          (take (tl - hl) (drop hl packet)) (record io { stack = learned io.stack source mac }) a
          (learned-Keeps c room source mac io six k))

  receive_ipv4-Ends :
      (mac : MacAddress) (frame : List ℕ) (io : Io)
      → length mac ≡ 6
      → eth_header ≤ length frame
      → I io
      → Ends I R (receive_ipv4 mac frame io)
  unfolding receive_ipv4 Ends
  receive_ipv4-Ends mac frame io six long k =
      rw (sub-fits {E = Error} frame eth_header (length frame) (omega arith) (omega arith))
        (elim (Bool-cases (ltb (length packet) ipv4_header)) [
          | inl short ↦ rw short k
          | inr more ↦
              let enough : 20 ≤ length packet = ground arith in
              rw
                (
                  more,
                  at-lt {E = Error} packet 0 (omega arith),
                  be16_at-lt {E = Error} packet 2 (omega arith),
                  be16_at-lt {E = Error} packet 6 (omega arith),
                  sub-fits {E = Error} packet 12 16 (omega arith) (omega arith),
                  sub-fits {E = Error} packet 16 20 (omega arith) (omega arith),
                )
                (elim (Bool-cases (get_or packet 0 0 / 16 != 4)) [
                  | inl other ↦ rw other k
                  | inr v4 ↦ elim (Bool-cases (ltb hl ipv4_header || ltb (length packet) hl)) [
                    | inl odd ↦ rw (v4, odd) k
                    | inr fits ↦ elim (Bool-cases (ltb tl hl || ltb (length packet) tl)) [
                      | inl cut ↦ rw (v4, fits, cut) k
                      | inr whole ↦
                          let inside : (20 ≤ hl) × (hl ≤ tl) × (tl ≤ length packet) =
                            ground arith in
                          rw
                            (
                              v4,
                              fits,
                              whole,
                              sub-fits {E = Error} packet 0 hl (omega arith) (omega arith),
                            )
                            (elim (Bool-cases (checksum (take (hl - 0) packet) != 0)) [
                              | inl bad ↦ rw bad k
                              | inr good ↦
                                  elim (Bool-cases (bit_and (be16_of packet 6) 0x3fff != 0)) [
                                    | inl part ↦ rw (good, part) k
                                    | inr all ↦
                                        rw (good, all)
                                          (accept-Ends _ (take (16 - 12) (drop 12 packet))
                                            (take (20 - 16) (drop 16 packet)) mac frame packet hl tl
                                            io six inside.0 inside.1 inside.2 k)
                                  ]
                            ])
                    ]
                  ]
                ])
        ])
    where
      packet : List ℕ
      packet = take (length frame - eth_header) (drop eth_header frame)

      hl : ℕ
      hl = bit_and (get_or packet 0 0) 0x0f * 4

      tl : ℕ
      tl = be16_of packet 2

  receive-Ends : (frame : List ℕ) (io : Io) → I io → Ends I R (receive frame io)
  unfolding receive Ends
  receive-Ends frame io k = elim (Bool-cases (ltb (length frame) eth_header)) [
    | inl short ↦ rw short k
    | inr more ↦
        let enough : 14 ≤ length frame = ground arith in
        let six : length (take (12 - 6) (drop 6 frame)) ≡ 6 =
          omega (arith, length-take 6 (drop 6 frame), length-drop 6 frame) in
        rw
          (
            more,
            sub-fits {E = Error} frame 0 6 (omega arith) (omega arith),
            sub-fits {E = Error} frame 6 12 (omega arith) (omega arith),
            be16_at-lt {E = Error} frame 12 (omega arith),
            sub-fits {E = Error} frame eth_header (length frame) (omega arith) (omega arith),
          )
          (elim (Bool-cases (
            not (bytes_eq (take (6 - 0) frame) io.stack.config.mac)
            && not (bytes_eq (take (6 - 0) frame) mac_broadcast))) [
              | inl other ↦ rw other (k, tt)
              | inr ours ↦ elim (Bool-cases (be16_of frame 12 == ethertype_arp)) [
                | inl arp ↦ rw (ours, arp) (receive_arp-Ends c room _ _ io k)
                | inr no_arp ↦ elim (Bool-cases (be16_of frame 12 == ethertype_ipv4)) [
                  | inl ipv4 ↦ rw (ours, no_arp, ipv4) (receive_ipv4-Ends _ frame io six enough k)
                  | inr neither ↦ rw (ours, no_arp, neither) (k, tt)
                ]
              ]
            ])
  ]

-- The state, and a reply that fits.
unfolded :
    {A : Type 0} (I : Io → Type 0) (Q : A → Type 0) (r : Io × Result Error A)
    → Ends I Q r
    → (r.1 ≢ panic) × I r.0 × Safe Q r.1
unfolding Ends
unfolded I Q (io, ok a) h = (λ e. cc, h.0, h.1)
unfolded I Q (io, err e) h = (λ x. cc, h, tt)
unfolded I Q (io, panic) h = absurd h

-- A stack whose cache and configuration are well formed does not panic on any bytes that come as a
-- frame, with a response buffer of any size: the cache stays well formed, the configuration and
-- the size of the buffer stay the same, also where `receive` fails, and a reply lies in the buffer.
pub receive-ne-panic :
    (frame : List ℕ) (io : Io)
    → IsSound io.stack
    → ((receive frame io).1 ≢ panic)
      × Keeps io.stack.config (length io.response) (receive frame io).0
      × Safe (Fits (length io.response)) (receive frame io).1
receive-ne-panic frame io s = unfolded _ _ (receive frame io) (
    receive-Ends io.stack.config (length io.response) frame io
      (record { sound = s; same_config = refl; same_room = refl }))
