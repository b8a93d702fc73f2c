-- ===== src/Net/Send/Frame.antt =====
-- `send_udp` where it knows the next hop: the whole frame.
use nightrun.Prelude.{
  ℕ, ◌+◌, ◌-◌, ◌%◌, ◌^◌, ◌≤◌, ◌<◌, ◌≡◌, refl, ap, List, ◌++◌, append_assoc, length, take, drop,
  length-drop, length-take, length-append, drop-append, le→ltb, some, ok, arith,
}
use nightrun.Prelude.Bytes.{sub-fits}
use nightrun.Net.Types.{
  MacAddress, Ipv4Address, Config, Error, Stack, datagram, IsConfig, eth_header, ipv4_header,
  udp_header, ethertype_ipv4, ip_protocol_udp,
}
use nightrun.Net.Wire.Writes.{write-behind}
use nightrun.Net.Wire.Headers.{
  ethernet_of, length-ethernet_of, write_ethernet_lem, ipv4_of, write_ipv4_header_lem,
}
use nightrun.Net.Send.{write_datagram, send_udp, destination_mac_of}
use nightrun.Net.Send.Datagram.{udp_of, fill_udp_lem}

-- The frame: Ethernet header, IPv4 header, UDP datagram.
abbrev pub ipv4_packet : Config → ℕ → Ipv4Address → ℕ → ℕ → List ℕ → List ℕ
ipv4_packet c identification destination sp dp payload =
    ipv4_of (ipv4_header + (udp_header + length payload)) identification ip_protocol_udp c.address
      destination
    ++ udp_of c.address destination sp dp payload

abbrev pub udp_frame : Config → MacAddress → ℕ → Ipv4Address → ℕ → ℕ → List ℕ → List ℕ
udp_frame c mac identification destination sp dp payload =
    ethernet_of mac c.mac ethertype_ipv4 ++ ipv4_packet c identification destination sp dp payload

module _ (c : Config) (mac : MacAddress) (id : ℕ) (destination : Ipv4Address) (sp dp : ℕ)
    (payload output : List ℕ) (hc : IsConfig c) (hm : length mac ≡ 6) (hd : length destination ≡ 4)
    (room : 42 + length payload ≤ length output) where
  abbrev eth : List ℕ
  eth = ethernet_of mac c.mac ethertype_ipv4

  abbrev header : List ℕ
  header = ipv4_of (20 + (8 + length payload)) id ip_protocol_udp c.address destination

  abbrev total : ℕ
  total = eth_header + ipv4_header + udp_header + length payload

  length-eth : length eth ≡ 14
  length-eth = length-ethernet_of mac c.mac ethertype_ipv4 hm hc.mac_ok.0

  length-header : length header ≡ 20
  length-header = omega (arith, length-append c.address destination, hc.address_ok.0)

  length-both : length (eth ++ header) ≡ 34
  length-both = omega (arith, length-append eth header, length-eth, length-header)

  pub length-udp_frame : length (udp_frame c mac id destination sp dp payload) ≡ total
  length-udp_frame = omega (
    arith,
    length-eth,
    length-header,
    length-append eth (header ++ udp_of c.address destination sp dp payload),
    length-append header (udp_of c.address destination sp dp payload),
  )

  pub write_datagram_lem :
      write_datagram c mac id destination sp dp payload output
      ≡ ok (udp_frame c mac id destination sp dp payload ++ drop total output)
  unfolding write_datagram
  write_datagram_lem =
      let first_cut : length (take 20 (drop 14 output)) ≡ 20 =
        omega (arith, length-take 20 (drop 14 output), length-drop 14 output) in
      let second_cut : length (take (total - 34) (drop 34 output)) ≡ 8 + length payload =
        omega (arith, length-take (total - 34) (drop 34 output), length-drop 34 output) in
      let datagram_len : length (udp_of c.address destination sp dp payload) ≡ 8 + length payload =
        omega arith in
      rw
        (
          write_ethernet_lem output mac c.mac ethertype_ipv4 hm hc.mac_ok.0 (omega arith),
          sub-fits {E = Error} (eth ++ drop 14 output) 14 34 (omega arith) (
              omega (arith, length-append eth (drop 14 output), length-drop 14 output, length-eth)),
          drop-append 14 eth (drop 14 output) length-eth,
          write_ipv4_header_lem (take 20 (drop 14 output)) (8 + length payload) id ip_protocol_udp
              first_cut c.address destination hc.address_ok.0 hd,
          write-behind {E = Error} output eth header 14 34 length-eth (omega (arith, length-header))
              (omega arith),
          sub-fits {E = Error} ((eth ++ header) ++ drop 34 output) 34 total (omega arith) (
              omega (
                arith,
                length-append (eth ++ header) (drop 34 output),
                length-drop 34 output,
                length-both,
              )),
          drop-append 34 (eth ++ header) (drop 34 output) length-both,
          fill_udp_lem (take (total - 34) (drop 34 output)) c.address destination sp dp payload
              second_cut,
          write-behind {E = Error} output (eth ++ header)
              (udp_of c.address destination sp dp payload) 34 total length-both
              (omega (arith, datagram_len)) (omega arith),
        )
        (ap (λ t. ok (t ++ drop total output))
          (append_assoc eth header (udp_of c.address destination sp dp payload)))

  -- Where the next hop's address is known and the output has room, `send_udp` writes the frame and
  -- nothing behind it, and counts the identification on.
  pub send_udp_lem :
      (s : Stack)
      → s.config ≡ c
      → (s.identification + 1) % 2 ^ 16 ≡ id
      → destination_mac_of s destination ≡ some mac
      → length payload + 28 < 2 ^ 16
      → send_udp s destination sp dp payload output
        ≡ ok (
          datagram total,
          (
            record s { identification = id },
            udp_frame c mac id destination sp dp payload ++ drop total output,
          ),
        )
  unfolding send_udp
  send_udp_lem s hs hid known short =
      rw
        (
          le→ltb (0xffff - ipv4_header - udp_header) (length payload) (omega arith),
          known,
          send_udp,
          le→ltb (length output) total (omega arith),
          hs,
          hid,
          write_datagram_lem,
        )
        refl
