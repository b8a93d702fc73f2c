-- ===== src/Net/Receive/Handlers.antt =====
-- The handlers of ARP, ICMP and UDP on any bytes: no panic, and what the stack relies on is kept.
use nightrun.Prelude.{
  ℕ, ◌+◌, ◌-◌, ◌≤◌, ◌≡◌, Bool-cases, inl, inr, refl, ◌∙◌, Bool, true, false, not, ◌&&◌, ◌||◌, List,
  length, get_or, length-append, length-drop, length-take, take, drop, All, Result, ok, Safe,
  Safe-then, Safe-fail_if, Safe-weaken, ltb, ◌!=◌, if◌then◌else◌, arith,
}
use nightrun.Prelude.Bytes.{sub, at, at-lt, be16_of, sub-fits, be16_at, be16_at-lt, bytes_eq}
use nightrun.Net.Types.{
  Config, Stack, Error, ReceiveEvent, reply, udp, no_event, neighbor_learned, MacAddress,
  Ipv4Address, IsConfig, truncated, eth_header, ipv4_header, ethertype_arp, ethertype_ipv4,
  ip_protocol_udp, udp_header,
}
use nightrun.Net.Checksum.{checksum, transport_checksum}
use nightrun.Net.Cache.Lookup.{IsReady, learned, learn_lem, learned-IsReady, config-learned}
use nightrun.Net.Cache.Macs.{HasMac, learned-HasMac}
use nightrun.Net.Wire.{write_arp_reply, write_arp, parse_udp}
use nightrun.Net.Wire.Headers.{
  write_arp_lem, write_arp_short, arp_frame, arp_of, ethernet_of, length-ethernet_of, length-arp_of,
}
use nightrun.Net.Echo.{write_icmp_reply}
use nightrun.Net.Echo.Total.{sub-Safe, write_icmp_reply-Safe}
use nightrun.Net.Receive.{Io, ◌>>=◌, pure, respond, receive_arp, receive_icmp}
use nightrun.Net.Receive.Ends.{Ends, Ends-then, pure-Ends, respond-Ends}

-- What the stack relies on; its addresses are as long as their types say.
pub record IsSound (s : Stack) : Type 0 where
  pub ready : IsReady s
  pub config_ok : IsConfig s.config
  pub macs : All HasMac s.neighbors

-- A sound stack of the configuration, and a response buffer of the length.
pub record Keeps (c : Config) (room : ℕ) (io : Io) : Type 0 where
  pub sound : IsSound io.stack
  pub same_config : io.stack.config ≡ c
  pub same_room : length io.response ≡ room

-- A reply fits the response buffer.
abbrev pub Fits : ℕ → ReceiveEvent → Type 0
Fits room no_event = Unit
Fits room (reply len) = len ≤ room
Fits room (neighbor_learned ip mac) = Unit
Fits room (udp d) = Unit

pub at-Safe : (xs : List ℕ) (i : ℕ) → i + 1 ≤ length xs → Safe {E = Error} (λ _. Unit {0}) (at xs i)
at-Safe xs i h = rw (at-lt {E = Error} xs i (omega arith)) tt

pub be16-Safe :
    (xs : List ℕ) (i : ℕ) → i + 2 ≤ length xs → Safe {E = Error} (λ _. Unit {0}) (be16_at xs i)
be16-Safe xs i h = rw (be16_at-lt {E = Error} xs i h) tt

-- The writer of ARP packets refuses a buffer that is too short.
pub write_arp-Safe :
    (c : Config) (dst : MacAddress) (ip : Ipv4Address) (mac : MacAddress) (op : ℕ) (output : List ℕ)
    → IsConfig c
    → length dst ≡ 6
    → length ip ≡ 4
    → length mac ≡ 6
    → Safe
        (λ p. (p.0 ≤ length output) × (length p.1 ≡ length output))
        (write_arp c dst ip mac op output)
write_arp-Safe c dst ip mac op output well six' four six =
    elim (Bool-cases (ltb (length output) 42)) [
      | inl short ↦ rw (write_arp_short c dst ip mac op output short) tt
      | inr more ↦
          let enough : 42 ≤ length output = ground arith in
          rw (write_arp_lem c dst ip mac op output well six' four six enough) (
            enough,
            omega (
              arith,
              length-append (arp_frame c dst ip mac op) (drop 42 output),
              length-drop 42 output,
              length-ethernet_of dst c.mac ethertype_arp six' well.mac_ok.0,
              length-append (ethernet_of dst c.mac ethertype_arp) (arp_of c ip mac op),
              length-arp_of c ip mac op well four six,
            ),
          )
    ]

module _ (c : Config) (room : ℕ) where
  abbrev I : Io → Type 0
  I = Keeps c room

  abbrev R : ReceiveEvent → Type 0
  R = Fits room

  pub learned-Keeps :
      (ip : Ipv4Address) (mac : MacAddress) (io : Io)
      → length mac ≡ 6
      → I io
      → I (record io { stack = learned io.stack ip mac })
  learned-Keeps ip mac io six k = record {
    sound = record {
      ready = learned-IsReady io.stack ip mac k.sound.ready;
      config_ok = rw (config-learned io.stack ip mac k.sound.ready) k.sound.config_ok;
      macs = learned-HasMac ip mac six io.stack k.sound.macs;
    };
    same_config = config-learned io.stack ip mac k.sound.ready ∙ k.same_config;
    same_room = k.same_room;
  }

  -- A handler that ends with a reply.
  reply-Ends :
      (f : List ℕ → Result Error (ℕ × List ℕ)) (io : Io)
      → I io
      → Safe (λ p. (p.0 ≤ length io.response) × (length p.1 ≡ length io.response)) (f io.response)
      → Ends I R ((respond f >>= λ len. pure (reply len)) io)
  reply-Ends f io k s =
      Ends-then I (λ (len : ℕ). len ≤ room) R (respond f) (λ len. pure (reply len)) io
        (respond-Ends I (λ (len : ℕ). len ≤ room) f io
          (Safe-weaken _ _ (f io.response)
            (λ p h. (
              omega (arith, k.same_room),
              record {
                sound = k.sound;
                same_config = k.same_config;
                same_room = omega (arith, k.same_room);
              },
            ))
            s)
          k)
        λ len io' le k'. pure-Ends I R (reply len) io' k' le

  answer_arp-Ends :
      (asked told : Bool) (c' : Config) (ip : Ipv4Address) (mac : MacAddress) (io : Io)
      → IsConfig c'
      → I io
      → length ip ≡ 4
      → length mac ≡ 6
      → Ends I R (
          (if asked
              then (respond (write_arp_reply c' ip mac) >>= λ len. pure (reply len))
              else if told
              then pure (neighbor_learned ip mac)
              else pure no_event)
            io)
  answer_arp-Ends true told c' ip mac io well k four six =
      reply-Ends (write_arp_reply c' ip mac) io k
        (write_arp-Safe c' mac ip mac 2 io.response well six four six)
  answer_arp-Ends false true c' ip mac io well k four six =
      pure-Ends I R (neighbor_learned ip mac) io k tt
  answer_arp-Ends false false c' ip mac io well k four six = pure-Ends I R no_event io k tt

  abbrev odd : List ℕ → Bool
  odd packet =
      be16_of packet 0 != 1
      || be16_of packet 2 != ethertype_ipv4
      || get_or packet 4 0 != 6
      || get_or packet 5 0 != 4

  abbrev mac_of : List ℕ → MacAddress
  mac_of packet = take (14 - 8) (drop 8 packet)

  abbrev ip_of : List ℕ → Ipv4Address
  ip_of packet = take (18 - 14) (drop 14 packet)

  pub receive_arp-Ends :
      (source : MacAddress) (packet : List ℕ) (io : Io)
      → Keeps c room io
      → Ends (Keeps c room) (Fits room) (receive_arp source packet io)
  unfolding receive_arp Ends
  receive_arp-Ends source packet io k = elim (Bool-cases (ltb (length packet) 28)) [
    | inl short ↦ rw short k
    | inr long ↦
        let enough : 28 ≤ length packet = ground arith in
        rw
          (
            long,
            be16_at-lt {E = Error} packet 0 (omega arith),
            be16_at-lt {E = Error} packet 2 (omega arith),
            at-lt {E = Error} packet 4 (omega arith),
            at-lt {E = Error} packet 5 (omega arith),
            be16_at-lt {E = Error} packet 6 (omega arith),
            sub-fits {E = Error} packet 8 14 (omega arith) (omega arith),
            sub-fits {E = Error} packet 14 18 (omega arith) (omega arith),
            sub-fits {E = Error} packet 24 28 (omega arith) (omega arith),
          )
          (elim (Bool-cases (odd packet)) [
            | inl other ↦ rw other k
            | inr usual ↦ elim (Bool-cases (not (bytes_eq (mac_of packet) source))) [
              | inl forged ↦ rw (usual, forged) k
              | inr honest ↦
                  let six : length (mac_of packet) ≡ 6 =
                    omega (arith, length-take 6 (drop 8 packet), length-drop 8 packet) in
                  let k' = learned-Keeps (ip_of packet) (mac_of packet) io six k in
                  rw
                    (usual, honest, learn_lem io.stack (ip_of packet) (mac_of packet) k.sound.ready)
                    (answer_arp-Ends _ _ _ (ip_of packet) (mac_of packet) _ k'.sound.config_ok k'
                      (omega (arith, length-take 4 (drop 14 packet), length-drop 14 packet)) six)
            ]
          ])
  ]

  pub receive_icmp-Ends :
      (frame : List ℕ) (header_len total_len : ℕ) (io : Io)
      → ipv4_header ≤ header_len
      → Keeps c room io
      → Ends (Keeps c room) (Fits room) (receive_icmp frame header_len total_len io)
  unfolding receive_icmp Ends
  receive_icmp-Ends frame header_len total_len io h k =
      elim (Bool-cases (ltb (length frame) end || ltb total_len (header_len + 8))) [
        | inl short ↦ rw short k
        | inr fits ↦
            let inside : (end ≤ length frame) × (header_len + 8 ≤ total_len) = ground arith in
            let long : length icmp ≡ total_len - header_len = omega (
              arith,
              length-take (end - (eth_header + header_len)) (drop (eth_header + header_len) frame),
              length-drop (eth_header + header_len) frame,
            ) in
            rw
              (
                fits,
                sub-fits {E = Error} frame (eth_header + header_len) end (omega arith) inside.0,
                at-lt {E = Error} icmp 0 (omega arith),
                at-lt {E = Error} icmp 1 (omega arith),
              )
              (elim (Bool-cases (checksum icmp != 0)) [
                | inl bad ↦ rw bad k
                | inr good ↦ elim (Bool-cases (get_or icmp 0 0 != 8 || get_or icmp 1 0 != 0)) [
                  | inl other ↦ rw (good, other) (k, tt)
                  | inr echo ↦
                      rw (good, echo)
                        (reply-Ends
                          (write_icmp_reply io.stack.config frame (eth_header + header_len) end) io
                          k
                          (write_icmp_reply-Safe io.stack.config k.sound.config_ok frame
                            (eth_header + header_len) end io.response (omega arith) (omega arith)
                            inside.0))
                ]
              ])
      ]
    where
      end : ℕ
      end = eth_header + total_len

      icmp : List ℕ
      icmp = take (end - (eth_header + header_len)) (drop (eth_header + header_len) frame)

  pub parse_udp-Safe :
      (source destination : Ipv4Address) (bytes : List ℕ)
      → Safe (λ _. Unit {0}) (parse_udp source destination bytes)
  unfolding parse_udp
  parse_udp-Safe source destination bytes =
      Safe-fail_if _ (ltb (length bytes) udp_header) truncated _ λ long.
        let enough : udp_header ≤ length bytes = ground arith in
        Safe-then _ (λ len. be16_at {E = Error} bytes 4 ≡ ok len) (be16_at bytes 4) _
          (rw (be16_at-lt {E = Error} bytes 4 (omega arith)) refl)
          λ len _.
            Safe-fail_if _ (ltb len udp_header || ltb (length bytes) len) truncated _ λ sized.
              let inside : (udp_header ≤ len) × (len ≤ length bytes) = ground arith in
              Safe-then _ _ (sub bytes 0 len) _ (sub-Safe bytes 0 len (omega arith) inside.1)
                λ packet size.
                  Safe-then _ _ (be16_at packet 6) _ (be16-Safe packet 6 (omega arith)) λ sum _.
                    Safe-fail_if _
                      (sum != 0
                        && transport_checksum source destination ip_protocol_udp packet != 0)
                      _ _
                      λ _.
                        Safe-then _ _ (be16_at packet 0) _ (be16-Safe packet 0 (omega arith))
                          λ sp _.
                            Safe-then _ _ (be16_at packet 2) _ (be16-Safe packet 2 (omega arith))
                              λ dp _.
                                Safe-then _ _ (sub packet udp_header (length packet)) _
                                  (sub-Safe packet udp_header (length packet) (omega arith)
                                    (omega arith))
                                  λ payload _. tt
