-- ===== src/Net/Wire/Headers.antt =====
-- What `write_ethernet`, `write_ipv4_header` and `write_arp` leave in a buffer.
use nightrun.Prelude.{
  ℕ, ◌+◌, ◌%◌, ◌^◌, ◌≤◌, ◌<◌, ◌≡◌, refl, ap, ◌∙◌, List, [], ◌∷◌, ◌++◌, append_assoc, append-nil,
  length, take, drop, replicate, length-drop, length-take, All-append, length-append, drop-append,
  drop_all, drop-drop, le→ltb, ltb, true, ok, err, arith,
}
use nightrun.Prelude.Bytes.{IsByte, sub-fits, be16}
use nightrun.Net.Types.{
  MacAddress, Ipv4Address, Config, Error, IsIp, IsConfig, eth_header, ipv4_header, arp_packet,
  ethertype_ipv4, ethertype_arp, buffer_too_small,
}
use nightrun.Net.Checksum.{checksum}
use nightrun.Net.Checksum.Sums.{checksum-filled}
use nightrun.Net.Wire.{write_ethernet, fill_arp, write_arp, write_ipv4_header}
use nightrun.Net.Wire.Writes.{write-next, write-first, write-behind, by_ip}

abbrev pub ethernet_of : MacAddress → MacAddress → ℕ → List ℕ
ethernet_of destination source ethertype = (destination ++ source) ++ be16 ethertype

pub write_ethernet_lem :
    (output : List ℕ) (destination source : MacAddress) (ethertype : ℕ)
    → length destination ≡ 6
    → length source ≡ 6
    → eth_header ≤ length output
    → write_ethernet output destination source ethertype
      ≡ ok (ethernet_of destination source ethertype ++ drop eth_header output)
unfolding write_ethernet
write_ethernet_lem output d s t hd hs room =
    rw
      (
        write-first {E = Error} output d 6 hd (omega arith),
        write-next {E = Error} d (drop 6 output) s 6 6 hd hs (omega (arith, length-drop 6 output)),
        write-next {E = Error} (d ++ s) (drop 6 (drop 6 output)) (be16 t) 12 2
            (omega (arith, length-append d s)) refl
            (omega (arith, length-drop 6 output, length-drop 6 (drop 6 output))),
        drop-drop 6 6 12 output refl,
        drop-drop 2 12 14 output refl,
      )
      refl

-- The header's bytes before and behind the checksum.
abbrev pub ipv4_front : ℕ → ℕ → ℕ → List ℕ
ipv4_front total identification protocol =
    0x45
    ∷ 0
    ∷ (be16 (total % 2 ^ 16) ++ (be16 identification ++ (be16 0x4000 ++ (64 ∷ protocol ∷ []))))

abbrev pub ipv4_zeroed : ℕ → ℕ → ℕ → Ipv4Address → Ipv4Address → List ℕ
ipv4_zeroed total identification protocol source destination =
    ipv4_front total identification protocol ++ (be16 0 ++ (source ++ destination))

abbrev pub ipv4_of : ℕ → ℕ → ℕ → Ipv4Address → Ipv4Address → List ℕ
ipv4_of total identification protocol source destination =
    ipv4_front total identification protocol
    ++ (be16 (checksum (ipv4_zeroed total identification protocol source destination))
        ++ (source ++ destination))

module _ (header : List ℕ) (n id proto : ℕ) (hh : length header ≡ ipv4_header) where
  abbrev IsWritten : Ipv4Address → Ipv4Address → Type 0
  IsWritten s d =
      write_ipv4_header header n id proto s d ≡ ok (ipv4_of (ipv4_header + n) id proto s d)

  direct :
      (s0 s1 s2 s3 d0 d1 d2 d3 : ℕ) → IsWritten (s0 ∷ s1 ∷ s2 ∷ s3 ∷ []) (d0 ∷ d1 ∷ d2 ∷ d3 ∷ [])
  unfolding write_ipv4_header
  direct s0 s1 s2 s3 d0 d1 d2 d3 =
      rw
        (
          hh,
          write-first {E = Error} header (replicate 20 0) 20 refl (omega arith),
          drop_all 20 header (omega arith),
        )
        refl

  pub write_ipv4_header_lem :
      (source destination : Ipv4Address)
      → length source ≡ 4
      → length destination ≡ 4
      → IsWritten source destination
  write_ipv4_header_lem s d hs hd =
      by_ip (λ s. IsWritten s d)
        (λ s0 s1 s2 s3.
          by_ip (λ d. IsWritten (s0 ∷ s1 ∷ s2 ∷ s3 ∷ []) d)
            (λ d0 d1 d2 d3. direct s0 s1 s2 s3 d0 d1 d2 d3) d hd)
        s hs

-- The header that `write_ipv4_header` writes has the checksum that a receiver asks for.
pub checksum-write_ipv4_header :
    (total identification protocol : ℕ) (source destination : Ipv4Address)
    → identification < 2 ^ 16
    → protocol < 256
    → IsIp source
    → IsIp destination
    → checksum (ipv4_of total identification protocol source destination) ≡ 0
checksum-write_ipv4_header total id proto s d hid hp (hs, bs) (hd, bd) =
    checksum-filled (ipv4_front total id proto) (s ++ d) refl (omega arith)
      (All-append IsByte s d bs bd) (omega (arith, length-append s d))

abbrev pub arp_of : Config → Ipv4Address → MacAddress → ℕ → List ℕ
arp_of config target_ip target_mac operation =
    be16 1
    ++ (be16 ethertype_ipv4
        ++ (6
            ∷ 4
            ∷ (be16 operation ++ (config.mac ++ (config.address ++ (target_mac ++ target_ip))))))

-- The frame that `write_arp` writes.
abbrev pub arp_frame : Config → MacAddress → Ipv4Address → MacAddress → ℕ → List ℕ
arp_frame config ethernet_dst target_ip target_mac operation =
    ethernet_of ethernet_dst config.mac ethertype_arp
    ++ arp_of config target_ip target_mac operation

fill_arp_lem :
    (arp : List ℕ) (config : Config) (target_ip : Ipv4Address) (target_mac : MacAddress)
    (operation : ℕ)
    → length arp ≡ arp_packet
    → IsConfig config
    → length target_ip ≡ 4
    → length target_mac ≡ 6
    → fill_arp arp config target_ip target_mac operation
      ≡ ok (arp_of config target_ip target_mac operation)
unfolding fill_arp
fill_arp_lem arp c ip mac op ha hc hi hm =
    let l8 = (((be16 1 ++ be16 ethertype_ipv4) ++ (6 ∷ [])) ++ (4 ∷ [])) ++ be16 op in
    let len14 = length-append l8 c.mac in
    let len18 = length-append (l8 ++ c.mac) c.address in
    let len24 = length-append ((l8 ++ c.mac) ++ c.address) mac in
    rw
      (
        write-first {E = Error} arp (be16 1) 2 refl (omega arith),
        write-behind {E = Error} arp (be16 1) (be16 ethertype_ipv4) 2 4 refl refl (omega arith),
        write-behind {E = Error} arp (be16 1 ++ be16 ethertype_ipv4) (6 ∷ []) 4 5 refl refl
            (omega arith),
        write-behind {E = Error} arp ((be16 1 ++ be16 ethertype_ipv4) ++ (6 ∷ [])) (4 ∷ []) 5 6 refl
            refl (omega arith),
        write-behind {E = Error} arp (((be16 1 ++ be16 ethertype_ipv4) ++ (6 ∷ [])) ++ (4 ∷ []))
            (be16 op) 6 8 refl refl (omega arith),
        write-behind {E = Error} arp l8 c.mac 8 14 refl (omega (arith, hc.mac_ok.0)) (omega arith),
        write-behind {E = Error} arp (l8 ++ c.mac) c.address 14 18 (omega (arith, hc.mac_ok.0))
            (omega (arith, hc.address_ok.0)) (omega arith),
        write-behind {E = Error} arp ((l8 ++ c.mac) ++ c.address) mac 18 24
            (omega (arith, hc.mac_ok.0, hc.address_ok.0)) (omega arith) (omega arith),
        write-behind {E = Error} arp (((l8 ++ c.mac) ++ c.address) ++ mac) ip 24 28
            (omega (arith, hc.mac_ok.0, hc.address_ok.0)) (omega arith) (omega arith),
        drop_all 28 arp (omega arith),
      )
      (ap (λ t. ok (l8 ++ t))
        (append-nil (((c.mac ++ c.address) ++ mac) ++ ip)
          ∙ append_assoc (c.mac ++ c.address) mac ip
          ∙ append_assoc c.mac c.address (mac ++ ip)))

pub length-ethernet_of :
    (d s : MacAddress) (t : ℕ) → length d ≡ 6 → length s ≡ 6 → length (ethernet_of d s t) ≡ 14
length-ethernet_of d s t hd hs = omega (arith, length-append (d ++ s) (be16 t), length-append d s)

pub length-arp_of :
    (c : Config) (ip : Ipv4Address) (mac : MacAddress) (op : ℕ)
    → IsConfig c
    → length ip ≡ 4
    → length mac ≡ 6
    → length (arp_of c ip mac op) ≡ arp_packet
length-arp_of c ip mac op hc hi hm = omega (
  arith,
  hc.mac_ok.0,
  hc.address_ok.0,
  length-append c.mac (c.address ++ (mac ++ ip)),
  length-append c.address (mac ++ ip),
  length-append mac ip,
)

pub write_arp_lem :
    (c : Config) (ethernet_dst : MacAddress) (ip : Ipv4Address) (mac : MacAddress) (op : ℕ)
    (output : List ℕ)
    → IsConfig c
    → length ethernet_dst ≡ 6
    → length ip ≡ 4
    → length mac ≡ 6
    → eth_header + arp_packet ≤ length output
    → write_arp c ethernet_dst ip mac op output
      ≡ ok (42, arp_frame c ethernet_dst ip mac op ++ drop 42 output)
unfolding write_arp
write_arp_lem c dst ip mac op output hc hdst hi hm room =
    let eth = ethernet_of dst c.mac ethertype_arp in
    let size = length-ethernet_of dst c.mac ethertype_arp hdst hc.mac_ok.0 in
    let behind = drop-append 14 eth (drop 14 output) size in
    let arp_len : length (take 28 (drop 14 output)) ≡ 28 =
      omega (arith, length-take 28 (drop 14 output), length-drop 14 output) in
    rw
      (
        le→ltb (length output) 42 room,
        write_ethernet_lem output dst c.mac ethertype_arp hdst hc.mac_ok.0 (omega arith),
        sub-fits {E = Error} (eth ++ drop 14 output) 14 42 (omega arith)
            (omega (arith, length-append eth (drop 14 output), length-drop 14 output)),
        behind,
        fill_arp_lem (take 28 (drop 14 output)) c ip mac op arp_len hc hi hm,
        write-behind {E = Error} output eth (arp_of c ip mac op) 14 42 size
            (omega (arith, length-arp_of c ip mac op hc hi hm)) room,
      )
      refl

pub write_arp_short :
    (c : Config) (dst : MacAddress) (ip : Ipv4Address) (mac : MacAddress) (op : ℕ) (output : List ℕ)
    → ltb (length output) 42 ≡ true
    → write_arp c dst ip mac op output ≡ err buffer_too_small
unfolding write_arp
write_arp_short c dst ip mac op output h = rw h refl
