-- ===== src/Net/Send/Total.antt =====
-- `send_udp` on any payload and any buffer: it does not panic.
use nightrun.Prelude.{
  ℕ, ◌+◌, ◌-◌, ◌%◌, ◌^◌, ◌≤◌, ◌≡◌, refl, Bool-cases, inl, inr, List, length, drop, length-append,
  length-drop, Option, some, none, ltb, ok, ◌>>=◌, ◌>>◌, Safe, Safe-then, Safe-fail_if, fail_if,
  arith,
}
use nightrun.Prelude.Bytes.{bytes_eq}
use nightrun.Net.Types.{
  MacAddress, Ipv4Address, Stack, SendOutcome, datagram, neighbor_discovery, buffer_too_small,
  eth_header, ipv4_header, udp_header, ip_broadcast, mac_broadcast, mac_zero,
}
use nightrun.Net.Cache.Macs.{neighbor-HasMac}
use nightrun.Net.Receive.Handlers.{IsSound, write_arp-Safe}
use nightrun.Net.Wire.{write_arp_request}
use nightrun.Net.Send.{send_udp, write_datagram, destination_mac_of, next_hop_of}
use nightrun.Net.Send.Frame.{write_datagram_lem, udp_frame, length-udp_frame}

-- The length of what is to be transmitted.
abbrev pub sent_len : SendOutcome → ℕ
sent_len (datagram n) = n
sent_len (neighbor_discovery n) = n

-- The state behind a call, and what it wrote.
abbrev pub IsSent : Stack → List ℕ → SendOutcome × (Stack × List ℕ) → Type 0
IsSent s output (outcome, (s', o)) =
    IsSound s'
    × (s'.config ≡ s.config)
    × (length o ≡ length output)
    × (sent_len outcome ≤ length output)

module _ (s : Stack) (sound : IsSound s) (destination : Ipv4Address) (four : length destination ≡ 4)
    (gateway : length s.config.gateway ≡ 4) where
  next_hop_four : length (next_hop_of s.config destination) ≡ 4
  unfolding next_hop_of
  next_hop_four = ground arith

  mac_six : (mac : MacAddress) → destination_mac_of s destination ≡ some mac → length mac ≡ 6
  unfolding destination_mac_of
  mac_six mac e = elim (Bool-cases (bytes_eq destination ip_broadcast)) [
    | inl all ↦
        let e' : some mac_broadcast ≡ some mac = rw all at e in
        let m : mac_broadcast ≡ mac = cc in rw (← m) (omega arith)
    | inr one ↦ neighbor-HasMac s (next_hop_of s.config destination) mac sound.macs (rw one at e)
  ]

  -- `send_udp` to an address of four bytes, through a gateway of four: it does not panic, whatever
  -- the payload and the buffer; where it succeeds, the stack stays well formed, its configuration
  -- and the size of the buffer stay the same, and what it wrote lies in the buffer.
  pub send_udp-Safe :
      (source_port destination_port : ℕ) (payload output : List ℕ)
      → Safe (IsSent s output) (send_udp s destination source_port destination_port payload output)
  unfolding send_udp
  send_udp-Safe sp dp payload output =
      Safe-fail_if _ (ltb (0xffff - ipv4_header - udp_header) (length payload)) _ _
        λ short. go (destination_mac_of s destination) refl
    where
      sound_after : (id : ℕ) → IsSound (record s { identification = id })
      sound_after id = record {
        ready = record { in_range = sound.ready.in_range; unique = sound.ready.unique };
        config_ok = sound.config_ok;
        macs = sound.macs;
      }

      go :
          (o : Option MacAddress)
          → destination_mac_of s destination ≡ o
          → Safe (IsSent s output) (elim o [
            | none ↦ (do
              (len, bytes) ← write_arp_request s.config (next_hop_of s.config destination) output
              ok (neighbor_discovery len, (s, bytes)))
            | some mac ↦ (do
              fail_if
                  (ltb (length output) (eth_header + ipv4_header + udp_header + length payload))
                  buffer_too_small
              bytes ←
                  write_datagram s.config mac
                    ((s.identification + 1) % 2 ^ 16)
                    destination
                    sp
                    dp
                    payload
                    output
              ok (
                datagram (eth_header + ipv4_header + udp_header + length payload),
                (record s { identification = (s.identification + 1) % 2 ^ 16 }, bytes),
              ))
          ])
      go none e =
          Safe-then (IsSent s output) _
            (write_arp_request s.config (next_hop_of s.config destination) output) _
            (write_arp-Safe s.config mac_broadcast (next_hop_of s.config destination) mac_zero 1
              output sound.config_ok refl next_hop_four refl)
            λ p h. (sound, refl, h.1, h.0)
      go (some mac) e =
          Safe-fail_if _
            (ltb (length output) (eth_header + ipv4_header + udp_header + length payload)) _ _
            λ room.
              let fits : 42 + length payload ≤ length output = ground arith in
              rw
                (write_datagram_lem s.config mac ((s.identification + 1) % 2 ^ 16) destination sp dp
                  payload output sound.config_ok (mac_six mac e) four fits)
                (
                  sound_after _,
                  refl,
                  omega (
                    arith,
                    length-append
                        (udp_frame s.config mac ((s.identification + 1) % 2 ^ 16) destination sp dp
                          payload)
                        (drop (eth_header + ipv4_header + udp_header + length payload) output),
                    length-drop (eth_header + ipv4_header + udp_header + length payload) output,
                    length-udp_frame s.config mac ((s.identification + 1) % 2 ^ 16) destination sp
                        dp payload output sound.config_ok (mac_six mac e) four fits,
                  ),
                  omega arith,
                )
