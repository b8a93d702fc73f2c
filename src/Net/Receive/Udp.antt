-- ===== src/Net/Receive/Udp.antt =====
-- A frame of `send_udp` as `receive` reads it.
use nightrun.Prelude.{
  ℕ, ◌+◌, ◌-◌, ◌*◌, ◌%◌, ◌^◌, ◌<◌, bit_and, ◌≡◌, refl, sym, true, List, [], ◌∷◌, ◌++◌, length,
  take_all, le→ltb, ◌!=◌, ok, arith,
}
use nightrun.Prelude.Bytes.{IsBytes, sub-fits, be16_value, bytes_eq_iff}
use nightrun.Net.Types.{
  MacAddress, Ipv4Address, Error, UdpDatagram, udp, IsIp, ethertype_ipv4, ip_protocol_udp,
}
use nightrun.Net.Cache.Lookup.{IsReady, learned, learn_lem}
use nightrun.Net.Wire.{parse_udp}
use nightrun.Net.Wire.Writes.{by_ip, by_mac}
use nightrun.Net.Wire.Headers.{ethernet_of, ipv4_of, checksum-write_ipv4_header}
use nightrun.Net.Receive.{Io, receive, receive_ipv4}
use nightrun.Net.Send.Datagram.{udp_of, sent_sum, sent_sum-positive, transport_checksum-udp_of}

module _ (sp dp : ℕ) (payload : List ℕ) (hsp : sp < 2 ^ 16) (hdp : dp < 2 ^ 16)
    (bytes : IsBytes payload) (short : length payload + 28 < 2 ^ 16) where
  abbrev pub received : Ipv4Address → Ipv4Address → UdpDatagram
  received sa da = record {
    source = sa;
    destination = da;
    source_port = sp;
    destination_port = dp;
    payload = payload;
  }

  module _ (sa da : Ipv4Address) (hs : IsIp sa) (hd : IsIp da) where
    pub parse_udp_lem : parse_udp sa da (udp_of sa da sp dp payload) ≡ ok (received sa da)
    unfolding parse_udp
    parse_udp_lem =
        let packet = udp_of sa da sp dp payload in
        let size = (8 + length payload) % 2 ^ 16 in
        let sent = sent_sum-positive sa da sp dp payload hs hd hsp hdp bytes (omega arith) in
        let not_zero : (sent_sum sa da sp dp payload hs hd hsp hdp bytes (omega arith) != 0)
            ≡ true =
          ground (arith, sent.0) in
        rw (le→ltb (length packet) 8 (omega arith), be16_value size (omega arith))
          (rw
            (
              le→ltb size 8 (omega arith),
              le→ltb (length packet) size (omega arith),
              sub-fits {E = Error} packet 0 size (omega arith) (omega arith),
              take_all (size - 0) packet (omega arith),
              be16_value (sent_sum sa da sp dp payload hs hd hsp hdp bytes (omega arith)) sent.1,
            )
            (rw
              (
                not_zero,
                transport_checksum-udp_of sa da sp dp payload hs hd hsp hdp bytes (omega arith),
                be16_value sp hsp,
                be16_value dp hdp,
                sub-fits {E = Error} packet 8 (length packet) (omega arith) (omega arith),
                take_all (length packet - 8) payload (omega arith),
              )
              refl))

  module _ (id : ℕ) (hid : id < 2 ^ 16) where
    abbrev packet_of : Ipv4Address → Ipv4Address → List ℕ
    packet_of sa da =
        ipv4_of (20 + (8 + length payload)) id ip_protocol_udp sa da ++ udp_of sa da sp dp payload

    abbrev frame_of : MacAddress → MacAddress → Ipv4Address → Ipv4Address → List ℕ
    frame_of dm sm sa da = ethernet_of dm sm ethertype_ipv4 ++ packet_of sa da

    abbrev Ipv4Reads : MacAddress → MacAddress → Ipv4Address → Ipv4Address → Type 0
    Ipv4Reads dm sm sa da =
        (io : Io)
        → IsReady io.stack
        → io.stack.config.address ≡ da
        → IsIp sa
        → IsIp da
        → receive_ipv4 sm (frame_of dm sm sa da) io
          ≡ (record io { stack = learned io.stack sa sm }, ok (udp (received sa da)))

    ipv4_literal :
        (m0 m1 m2 m3 m4 m5 n0 n1 n2 n3 n4 n5 a0 a1 a2 a3 b0 b1 b2 b3 : ℕ)
        → Ipv4Reads
            (m0 ∷ m1 ∷ m2 ∷ m3 ∷ m4 ∷ m5 ∷ [])
            (n0 ∷ n1 ∷ n2 ∷ n3 ∷ n4 ∷ n5 ∷ [])
            (a0 ∷ a1 ∷ a2 ∷ a3 ∷ [])
            (b0 ∷ b1 ∷ b2 ∷ b3 ∷ [])
    unfolding receive_ipv4
    ipv4_literal m0 m1 m2 m3 m4 m5 n0 n1 n2 n3 n4 n5 a0 a1 a2 a3 b0 b1 b2 b3 io ready here hs hd =
        let dm = m0 ∷ m1 ∷ m2 ∷ m3 ∷ m4 ∷ m5 ∷ [] in
        let sm = n0 ∷ n1 ∷ n2 ∷ n3 ∷ n4 ∷ n5 ∷ [] in
        let sa = a0 ∷ a1 ∷ a2 ∷ a3 ∷ [] in
        let da = b0 ∷ b1 ∷ b2 ∷ b3 ∷ [] in
        let frame = frame_of dm sm sa da in
        let packet = packet_of sa da in
        let total = (20 + (8 + length payload)) % 2 ^ 16 in
        let ours = (bytes_eq_iff da io.stack.config.address).1 (sym here) in
        rw
          (
            sub-fits {E = Error} frame 14 (length frame) (omega arith) (omega arith),
            take_all (length frame - 14) packet (omega arith),
            le→ltb (length packet) 20 (omega arith),
            le→ltb (length packet) (bit_and 0x45 0x0f * 4) (omega arith),
            be16_value total (omega arith),
            le→ltb total (bit_and 0x45 0x0f * 4) (omega arith),
            le→ltb (length packet) total (omega arith),
            sub-fits {E = Error} packet 0 (bit_and 0x45 0x0f * 4) (omega arith) (omega arith),
            checksum-write_ipv4_header (20 + (8 + length payload)) id ip_protocol_udp sa da hid
                (omega arith) hs hd,
            sub-fits {E = Error} packet 12 16 (omega arith) (omega arith),
            sub-fits {E = Error} packet 16 20 (omega arith) (omega arith),
            ours,
          )
          (rw
            (
              learn_lem io.stack sa sm ready,
              sub-fits {E = Error} packet (bit_and 0x45 0x0f * 4) total (omega arith) (omega arith),
              take_all (total - bit_and 0x45 0x0f * 4) (udp_of sa da sp dp payload) (omega arith),
              parse_udp_lem sa da hs hd,
            )
            refl)

    abbrev Reads : MacAddress → MacAddress → Ipv4Address → Ipv4Address → Type 0
    Reads dm sm sa da =
        (io : Io)
        → IsReady io.stack
        → io.stack.config.address ≡ da
        → io.stack.config.mac ≡ dm
        → IsIp sa
        → IsIp da
        → receive (frame_of dm sm sa da) io
          ≡ (record io { stack = learned io.stack sa sm }, ok (udp (received sa da)))

    literal :
        (m0 m1 m2 m3 m4 m5 n0 n1 n2 n3 n4 n5 a0 a1 a2 a3 b0 b1 b2 b3 : ℕ)
        → Reads
            (m0 ∷ m1 ∷ m2 ∷ m3 ∷ m4 ∷ m5 ∷ [])
            (n0 ∷ n1 ∷ n2 ∷ n3 ∷ n4 ∷ n5 ∷ [])
            (a0 ∷ a1 ∷ a2 ∷ a3 ∷ [])
            (b0 ∷ b1 ∷ b2 ∷ b3 ∷ [])
    unfolding receive
    literal m0 m1 m2 m3 m4 m5 n0 n1 n2 n3 n4 n5 a0 a1 a2 a3 b0 b1 b2 b3 io ready here for_us hs hd =
        let dm = m0 ∷ m1 ∷ m2 ∷ m3 ∷ m4 ∷ m5 ∷ [] in
        let sm = n0 ∷ n1 ∷ n2 ∷ n3 ∷ n4 ∷ n5 ∷ [] in
        let sa = a0 ∷ a1 ∷ a2 ∷ a3 ∷ [] in
        let da = b0 ∷ b1 ∷ b2 ∷ b3 ∷ [] in
        let frame = frame_of dm sm sa da in
        let ours = (bytes_eq_iff dm io.stack.config.mac).1 (sym for_us) in
        rw
          (
            le→ltb (length frame) 14 (omega arith),
            sub-fits {E = Error} frame 0 6 (omega arith) (omega arith),
            ours,
            sub-fits {E = Error} frame 6 12 (omega arith) (omega arith),
            sub-fits {E = Error} frame 14 (length frame) (omega arith) (omega arith),
            ipv4_literal m0 m1 m2 m3 m4 m5 n0 n1 n2 n3 n4 n5 a0 a1 a2 a3 b0 b1 b2 b3 io ready here
                hs hd,
          )
          refl

    -- The same for addresses as lists.
    pub receive_lem :
        (dm sm : MacAddress) (sa da : Ipv4Address)
        → length dm ≡ 6
        → length sm ≡ 6
        → length sa ≡ 4
        → length da ≡ 4
        → Reads dm sm sa da
    receive_lem dm sm sa da h1 h2 h3 h4 =
        by_mac (λ dm. Reads dm sm sa da)
          (λ m0 m1 m2 m3 m4 m5.
            by_mac (λ sm. Reads (m0 ∷ m1 ∷ m2 ∷ m3 ∷ m4 ∷ m5 ∷ []) sm sa da)
              (λ n0 n1 n2 n3 n4 n5.
                by_ip
                  (λ sa.
                    Reads (m0 ∷ m1 ∷ m2 ∷ m3 ∷ m4 ∷ m5 ∷ []) (n0 ∷ n1 ∷ n2 ∷ n3 ∷ n4 ∷ n5 ∷ []) sa
                      da)
                  (λ a0 a1 a2 a3.
                    by_ip
                      (λ da.
                        Reads (m0 ∷ m1 ∷ m2 ∷ m3 ∷ m4 ∷ m5 ∷ []) (n0 ∷ n1 ∷ n2 ∷ n3 ∷ n4 ∷ n5 ∷ [])
                          (a0 ∷ a1 ∷ a2 ∷ a3 ∷ []) da)
                      (λ b0 b1 b2 b3.
                        literal m0 m1 m2 m3 m4 m5 n0 n1 n2 n3 n4 n5 a0 a1 a2 a3 b0 b1 b2 b3)
                      da h4)
                  sa h3)
              sm h2)
          dm h1
