-- ===== src/Net/Send/Datagram.antt =====
-- The frame that `send_udp` writes.
use nightrun.Prelude.{
  ℕ, ◌+◌, ◌%◌, ◌^◌, ◌<◌, ◌≡◌, refl, sym, ◌∙◌, subst, List, [], ◌∷◌, ◌++◌, append-nil, length,
  drop_all, All-append, ok, arith,
}
use nightrun.Prelude.Bytes.{IsByte, IsBytes, be16}
use nightrun.Net.Types.{Ipv4Address, Error, IsIp, ip_protocol_udp}
use nightrun.Net.Checksum.{finalize_sum, transport_checksum}
use nightrun.Net.Checksum.Sums.{
  words, words-le, words_field, finalize_sum_add, finalize_sum_iff, transport_checksum_lem,
}
use nightrun.Net.Wire.Writes.{write-first, write-behind}
use nightrun.Net.Send.{udp_sum, fill_udp}

abbrev pub udp_front : ℕ → ℕ → ℕ → List ℕ
udp_front source_port destination_port size =
    be16 source_port ++ (be16 destination_port ++ be16 size)

abbrev pub udp_zeroed : ℕ → ℕ → List ℕ → List ℕ
udp_zeroed source_port destination_port payload =
    udp_front source_port destination_port ((8 + length payload) % 2 ^ 16) ++ (be16 0 ++ payload)

-- The datagram behind the IPv4 header.
abbrev pub udp_of : Ipv4Address → Ipv4Address → ℕ → ℕ → List ℕ → List ℕ
udp_of source destination source_port destination_port payload =
    udp_front source_port destination_port ((8 + length payload) % 2 ^ 16)
    ++ (be16 (
          udp_sum (
            transport_checksum source destination ip_protocol_udp
              (udp_zeroed source_port destination_port payload)))
        ++ payload)

pub fill_udp_lem :
    (bytes : List ℕ) (source destination : Ipv4Address) (sp dp : ℕ) (payload : List ℕ)
    → length bytes ≡ 8 + length payload
    → fill_udp bytes source destination sp dp payload ≡ ok (udp_of source destination sp dp payload)
unfolding fill_udp
fill_udp_lem bytes source destination sp dp payload h =
    let size = (8 + length payload) % 2 ^ 16 in
    rw
      (
        write-first {E = Error} bytes (be16 sp) 2 refl (omega arith),
        write-behind {E = Error} bytes (be16 sp) (be16 dp) 2 4 refl refl (omega arith),
        write-behind {E = Error} bytes (be16 sp ++ be16 dp) (be16 size) 4 6 refl refl (omega arith),
        write-behind {E = Error} bytes ((be16 sp ++ be16 dp) ++ be16 size) (0 ∷ 0 ∷ []) 6 8 refl
            refl (omega arith),
        write-behind {E = Error} bytes (((be16 sp ++ be16 dp) ++ be16 size) ++ (0 ∷ 0 ∷ [])) payload
            8 (8 + length payload) refl refl (omega arith),
        drop_all (8 + length payload) bytes (omega arith),
        append-nil payload,
      )
      refl

udp_sum_fits :
    (sum ck : ℕ)
    → ck < 2 ^ 16
    → 0 < sum + ck
    → (sum + ck) % 65535 ≡ 0
    → (0 < udp_sum ck)
      × (udp_sum ck < 2 ^ 16)
      × (0 < sum + udp_sum ck)
      × ((sum + udp_sum ck) % 65535 ≡ 0)
udp_sum_fits sum ck low pos div = ground arith

module _ (s d : Ipv4Address) (sp dp : ℕ) (payload : List ℕ) (hs : IsIp s) (hd : IsIp d)
    (hsp : sp < 2 ^ 16) (hdp : dp < 2 ^ 16) (bytes : IsBytes payload)
    (short : length payload + 8 < 2 ^ 16) where
  abbrev size : ℕ
  size = (8 + length payload) % 2 ^ 16

  front-IsBytes : IsBytes (udp_front sp dp size)
  front-IsBytes = omega arith

  field-IsBytes : (v : ℕ) → IsBytes (udp_front sp dp size ++ (be16 v ++ payload))
  field-IsBytes v =
      All-append IsByte (udp_front sp dp size) (be16 v ++ payload) front-IsBytes
        (omega arith, (omega arith, bytes))

  abbrev pub zeroed : List ℕ
  zeroed = udp_zeroed sp dp payload

  abbrev pub sent_sum : ℕ
  sent_sum = udp_sum (transport_checksum s d ip_protocol_udp zeroed)

  -- The sum with the field as 0.
  abbrev plain : ℕ
  plain = words s + words d + ip_protocol_udp + length zeroed + words zeroed

  plain-lt : plain + 65535 < 2 ^ 32
  plain-lt =
      omega (arith, words-le s hs.1, words-le d hd.1, words-le zeroed (field-IsBytes 0), hs.0, hd.0)

  sent :
      (0 < sent_sum)
      × (sent_sum < 2 ^ 16)
      × (0 < plain + sent_sum)
      × ((plain + sent_sum) % 65535 ≡ 0)
  sent =
      let e =
        transport_checksum_lem s d ip_protocol_udp zeroed hs hd (omega arith) (field-IsBytes 0)
          (omega arith) in
      let (low, pos, div) = finalize_sum_add plain (omega (arith, plain-lt)) in
      subst
        (λ (k : ℕ).
          (0 < udp_sum k)
          × (udp_sum k < 2 ^ 16)
          × (0 < plain + udp_sum k)
          × ((plain + udp_sum k) % 65535 ≡ 0))
        (sym e) (udp_sum_fits plain (finalize_sum plain) low pos div)

  -- A receiver computes 0 from the datagram.
  pub transport_checksum-udp_of :
      transport_checksum s d ip_protocol_udp (udp_of s d sp dp payload) ≡ 0
  transport_checksum-udp_of =
      let packet = udp_of s d sp dp payload in
      let (pos, low, some_sum, div) = sent in
      let total = words s + words d + ip_protocol_udp + length packet + words packet in
      let same : total ≡ plain + sent_sum = omega (
        arith,
        words_field (udp_front sp dp size) payload refl sent_sum low,
        words_field (udp_front sp dp size) payload refl 0 (omega arith),
      ) in
      transport_checksum_lem s d ip_protocol_udp packet hs hd (omega arith) (field-IsBytes sent_sum)
        (omega arith)
      ∙ (finalize_sum_iff total (omega (arith, plain-lt))).1 (omega arith, rw same div)

  pub sent_sum-positive : (0 < sent_sum) × (sent_sum < 2 ^ 16)
  sent_sum-positive = (sent.0, sent.1)
