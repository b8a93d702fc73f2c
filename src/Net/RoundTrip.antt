-- ===== src/Net/RoundTrip.antt =====
-- Frames of one stack as another stack reads them: `send_udp` and ARP against `receive`.
use nightrun.Prelude.{
  ℕ, ◌+◌, ◌%◌, ◌^◌, ◌≤◌, ◌<◌, ◌≡◌, refl, List, ◌++◌, length, take, drop, take-append, drop-append,
  some, ok, arith,
}
use nightrun.Prelude.Bytes.{IsBytes}
use native.Mathlib.Nat.{mod-lt}
use nightrun.Net.Types.{Stack, datagram, udp, IsConfig, eth_header, ipv4_header, udp_header}
use nightrun.Net.Cache.Lookup.{IsReady, learned}
use nightrun.Net.Receive.{Io, receive}
use nightrun.Net.Receive.Udp.{receive_lem}
use nightrun.Net.Send.{send_udp, destination_mac_of}
use nightrun.Net.Send.Frame.{udp_frame, send_udp_lem, length-udp_frame}

module _ (s : Stack) (io : Io) (sp dp : ℕ) (payload output : List ℕ) (sender_ok : IsConfig s.config)
    (receiver_ok : IsConfig io.stack.config) (ready : IsReady io.stack)
    (resolved : destination_mac_of s io.stack.config.address ≡ some io.stack.config.mac)
    (sp_ok : sp < 2 ^ 16) (dp_ok : dp < 2 ^ 16) (bytes : IsBytes payload)
    (short : length payload + 28 < 2 ^ 16) (room : 42 + length payload ≤ length output) where
  abbrev pub total : ℕ
  total = eth_header + ipv4_header + udp_header + length payload

  abbrev pub next_id : ℕ
  next_id = (s.identification + 1) % 2 ^ 16

  abbrev sent : List ℕ
  sent = udp_frame s.config io.stack.config.mac next_id io.stack.config.address sp dp payload

  length-sent : length sent ≡ total
  length-sent =
      length-udp_frame s.config io.stack.config.mac next_id io.stack.config.address sp dp payload
        output sender_ok receiver_ok.mac_ok.0 receiver_ok.address_ok.0 room

  -- Where two stacks have well-formed configurations, the sender knows the receiver's MAC address
  -- for its IP address, the ports are 16-bit numbers, and the payload is of bytes, fits an IPv4
  -- packet and the output: `send_udp` returns the frame's length, counts the identification on and
  -- writes nothing behind the frame, and `receive` of the frame returns the datagram with the
  -- sender's address, both ports and the payload, and learns the sender.
  pub receive-send_udp :
      (out : List ℕ) × (send_udp s io.stack.config.address sp dp payload output
        ≡ ok (datagram total, (record s { identification = next_id }, out)))
      × (receive (take total out) io ≡ (
        record io { stack = learned io.stack s.config.address s.config.mac },
        ok (
            udp (record {
              source = s.config.address;
              destination = io.stack.config.address;
              source_port = sp;
              destination_port = dp;
              payload = payload;
            })),
      ))
      × (drop total out ≡ drop total output)
  receive-send_udp =
      let id_ok : next_id < 2 ^ 16 = mod-lt (s.identification + 1) {m = 2 ^ 16} (omega arith) in
      (
        sent ++ drop total output,
        send_udp_lem s.config io.stack.config.mac next_id io.stack.config.address sp dp payload
            output sender_ok receiver_ok.mac_ok.0 receiver_ok.address_ok.0 room s refl refl resolved
            short,
        rw (take-append total sent (drop total output) length-sent) (
            receive_lem sp dp payload sp_ok dp_ok bytes short next_id id_ok io.stack.config.mac
              s.config.mac s.config.address io.stack.config.address receiver_ok.mac_ok.0
              sender_ok.mac_ok.0 sender_ok.address_ok.0 receiver_ok.address_ok.0 io ready refl refl
              sender_ok.address_ok receiver_ok.address_ok),
        drop-append total sent (drop total output) length-sent,
      )
