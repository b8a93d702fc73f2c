-- ===== src/Examples/Frames.antt =====
-- The network stack at concrete inputs: the hosts 10.0.2.15 and 10.0.2.2.
use nightrun.Prelude.{
  ℕ, ◌%◌, ◌<◌, ◌≡◌, ◌≢◌, ◌⊎◌, ◌↔◌, refl, true, List, [], ◌∷◌, ◌++◌, length, take, drop, replicate,
  none, some, ok, arith,
}
use nightrun.Prelude.Bytes.{be16}
use nightrun.Net.Types.{
  MacAddress, Ipv4Address, Config, Stack, datagram, udp, IsMac, IsIp, IsConfig,
}
use nightrun.Net.Checksum.{checksum}
use nightrun.Net.Checksum.Sums.{words, checksum_iff, checksum-filled}
use nightrun.Net.Cache.{new, neighbor, learn, find}
use nightrun.Prelude.{panic, Safe}
use nightrun.Net.Receive.Handlers.{IsSound, Keeps, Fits}
use nightrun.Net.Receive.Total.{receive-ne-panic}
use nightrun.Net.Cache.Lookup.{IsReady, learned, neighbor-learn, new-IsReady}
use nightrun.Net.Receive.{Io, receive}
use nightrun.Net.Send.{send_udp, destination_mac_of, next_hop_of}
use nightrun.Net.Wire.{same_subnet}
use nightrun.Net.RoundTrip.{receive-send_udp}

abbrev local_mac : MacAddress
local_mac = 2 ∷ 0 ∷ 0 ∷ 0 ∷ 0 ∷ 2 ∷ []

abbrev peer_mac : MacAddress
peer_mac = 2 ∷ 0 ∷ 0 ∷ 0 ∷ 0 ∷ 9 ∷ []

abbrev local_ip : Ipv4Address
local_ip = 10 ∷ 0 ∷ 2 ∷ 15 ∷ []

abbrev peer_ip : Ipv4Address
peer_ip = 10 ∷ 0 ∷ 2 ∷ 2 ∷ []

abbrev config_of : MacAddress → Ipv4Address → Config
config_of mac address = record {
  mac = mac;
  address = address;
  subnet_mask = 255 ∷ 255 ∷ 255 ∷ 0 ∷ [];
  gateway = peer_ip;
}

config_of-IsConfig :
    (mac : MacAddress) (address : Ipv4Address)
    → IsMac mac
    → IsIp address
    → IsConfig (config_of mac address)
config_of-IsConfig mac address m a = record { mac_ok = m; address_ok = a }

new_slots : length (new 4 (config_of local_mac local_ip)).neighbors ≢ 0
unfolding new
new_slots e = absurd (omega arith)

neighbor-learn_example :
    (s' : Stack) × (learn (new 4 (config_of local_mac local_ip)) peer_ip peer_mac ≡ some s')
    × IsReady s'
    × (neighbor s' peer_ip ≡ some peer_mac)
    × ((other : Ipv4Address)
        → other ≢ peer_ip
        → (neighbor s' other ≡ neighbor (new 4 (config_of local_mac local_ip)) other)
          ⊎ (neighbor s' other ≡ none))
neighbor-learn_example =
    neighbor-learn (new 4 (config_of local_mac local_ip)) peer_ip peer_mac
      (new-IsReady 4 (config_of local_mac local_ip)) refl new_slots

abbrev after_peer : Stack
after_peer = learned (new 4 (config_of local_mac local_ip)) peer_ip peer_mac

abbrev rfc_1071 : List ℕ
rfc_1071 = 0x00 ∷ 0x01 ∷ 0xf2 ∷ 0x03 ∷ 0xf4 ∷ 0xf5 ∷ 0xf6 ∷ 0xf7 ∷ []

checksum_iff_example : (checksum (rfc_1071 ++ (0x22 ∷ 0x0d ∷ [])) ≡ 0) ↔ (
    (0 < words (rfc_1071 ++ (0x22 ∷ 0x0d ∷ [])))
    × (words (rfc_1071 ++ (0x22 ∷ 0x0d ∷ [])) % 65535 ≡ 0))
checksum_iff_example = checksum_iff (rfc_1071 ++ (0x22 ∷ 0x0d ∷ [])) (omega arith) (omega arith)

checksum-filled_example :
    checksum (rfc_1071 ++ (be16 (checksum (rfc_1071 ++ (be16 0 ++ (7 ∷ [])))) ++ (7 ∷ []))) ≡ 0
checksum-filled_example =
    checksum-filled rfc_1071 (7 ∷ []) refl (omega arith) (omega arith) (omega arith)

-- The sender knows the peer, the peer knows nobody.
abbrev sender : Stack
sender = record {
  config = config_of local_mac local_ip;
  neighbors = record { ip = peer_ip; mac = peer_mac; valid = true } ∷ [];
  next_neighbor = 0;
  identification = 65535;
}

abbrev receiver : Io
receiver = record { stack = new 4 (config_of peer_mac peer_ip); response = replicate 64 0 }

sender_resolves :
    destination_mac_of sender receiver.stack.config.address ≡ some receiver.stack.config.mac
unfolding destination_mac_of next_hop_of same_subnet neighbor find new
sender_resolves = refl

receiver_config : IsConfig receiver.stack.config
receiver_config =
    unfold new in config_of-IsConfig peer_mac peer_ip (refl, omega arith) (refl, omega arith)

-- "night"
abbrev night : List ℕ
night = 110 ∷ 105 ∷ 103 ∷ 104 ∷ 116 ∷ []

receive-send_udp_example :
    (out : List ℕ) × (send_udp sender receiver.stack.config.address 49152 9000 night
        (replicate 64 0)
      ≡ ok (datagram 47, (record sender { identification = 0 }, out)))
    × (receive (take 47 out) receiver ≡ (
      record receiver { stack = learned receiver.stack local_ip local_mac },
      ok (
          udp (record {
            source = local_ip;
            destination = receiver.stack.config.address;
            source_port = 49152;
            destination_port = 9000;
            payload = night;
          })),
    ))
    × (drop 47 out ≡ drop 47 (replicate 64 0))
receive-send_udp_example =
    receive-send_udp sender receiver 49152 9000 night (replicate 64 0)
      (config_of-IsConfig local_mac local_ip (refl, omega arith) (refl, omega arith))
      receiver_config (new-IsReady 4 (config_of peer_mac peer_ip)) sender_resolves (omega arith)
      (omega arith) (omega arith) (omega arith) (omega arith)

receiver-IsSound : IsSound receiver.stack
receiver-IsSound = record {
  ready = new-IsReady 4 (config_of peer_mac peer_ip);
  config_ok = receiver_config;
  macs = unfold new in (refl, (refl, (refl, (refl, tt))));
}

receive-ne-panic_example :
    ((receive (1 ∷ 2 ∷ 3 ∷ []) receiver).1 ≢ panic)
    × Keeps receiver.stack.config (length receiver.response) (receive (1 ∷ 2 ∷ 3 ∷ []) receiver).0
    × Safe (Fits (length receiver.response)) (receive (1 ∷ 2 ∷ 3 ∷ []) receiver).1
receive-ne-panic_example = receive-ne-panic (1 ∷ 2 ∷ 3 ∷ []) receiver receiver-IsSound
