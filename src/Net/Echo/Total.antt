-- ===== src/Net/Echo/Total.antt =====
-- The writer of echo replies stays inside its buffers.
use nightrun.Prelude.{
  ℕ, ◌+◌, ◌-◌, ◌≤◌, ◌≡◌, List, [], ◌∷◌, length, length-take, length-drop, length-append, drop, Safe,
  Safe-then, Safe-fail_if, Safe-weaken, ltb, arith,
}
use nightrun.Prelude.Bytes.{sub, sub-fits, write, write-fits, be16, length-overwritten}
use nightrun.Net.Types.{Config, Ipv4Address, Error, IsConfig, eth_header, ethertype_ipv4}
use nightrun.Net.Checksum.{checksum}
use nightrun.Net.Wire.{write_ethernet}
use nightrun.Net.Wire.Headers.{write_ethernet_lem, ethernet_of, length-ethernet_of}
use nightrun.Net.Echo.{turn_header, turn_icmp, write_icmp_reply}

-- Reads and writes in range, by the lengths alone.
pub sub-Safe :
    (xs : List ℕ) (a b : ℕ)
    → a ≤ b
    → b ≤ length xs
    → Safe {E = Error} (λ ys. length ys ≡ b - a) (sub xs a b)
sub-Safe xs a b h k =
    rw (sub-fits {E = Error} xs a b h k)
      (omega (arith, length-take (b - a) (drop a xs), length-drop a xs))

pub write-Safe :
    (xs : List ℕ) (off : ℕ) (ys : List ℕ)
    → off + length ys ≤ length xs
    → Safe {E = Error} (λ zs. length zs ≡ length xs) (write xs off ys)
write-Safe xs off ys h = rw (write-fits {E = Error} xs off ys h) (length-overwritten xs off ys h)

module _ (config : Config) (well : IsConfig config) where
  turn_header-Safe :
      (header : List ℕ) (sender : Ipv4Address)
      → 20 ≤ length header
      → length sender ≡ 4
      → Safe (λ h. length h ≡ length header) (turn_header header config.address sender)
  unfolding turn_header
  turn_header-Safe header sender room four =
      Safe-then _ _ (write header 12 config.address) _
        (write-Safe header 12 config.address (omega (arith, well.address_ok.0)))
        λ h eh. Safe-then _ _ (write h 16 sender) _ (write-Safe h 16 sender (omega arith)) λ k ek.
          Safe-then _ _ (write k 10 (0 ∷ 0 ∷ [])) _ (write-Safe k 10 (0 ∷ 0 ∷ []) (omega arith))
            λ l el.
              Safe-weaken _ _ (write l 10 (be16 (checksum l))) (λ m em. omega arith)
                (write-Safe l 10 (be16 (checksum l)) (omega arith))

  turn_icmp-Safe :
      (icmp : List ℕ) → 8 ≤ length icmp → Safe (λ r. length r ≡ length icmp) (turn_icmp icmp)
  unfolding turn_icmp
  turn_icmp-Safe icmp room =
      Safe-then _ _ (write icmp 0 (0 ∷ [])) _ (write-Safe icmp 0 (0 ∷ []) (omega arith)) λ h eh.
        Safe-then _ _ (write h 2 (0 ∷ 0 ∷ [])) _ (write-Safe h 2 (0 ∷ 0 ∷ []) (omega arith)) λ l el.
          Safe-weaken _ _ (write l 2 (be16 (checksum l))) (λ m em. omega arith)
            (write-Safe l 2 (be16 (checksum l)) (omega arith))

  write_ethernet-Safe :
      (output destination : List ℕ) (ethertype : ℕ)
      → length destination ≡ 6
      → eth_header ≤ length output
      → Safe
          (λ o. length o ≡ length output)
          (write_ethernet output destination config.mac ethertype)
  write_ethernet-Safe output d t six room =
      rw (write_ethernet_lem output d config.mac t six well.mac_ok.0 room) (
        omega (
          arith,
          length-append (ethernet_of d config.mac t) (drop eth_header output),
          length-ethernet_of d config.mac t six well.mac_ok.0,
          length-drop eth_header output,
        ))

  -- With an IPv4 header of 20 bytes or more and an ICMP header inside the frame.
  pub write_icmp_reply-Safe :
      (frame : List ℕ) (icmp_start end : ℕ) (response : List ℕ)
      → eth_header + 20 ≤ icmp_start
      → icmp_start + 8 ≤ end
      → end ≤ length frame
      → Safe
          (λ p. (p.0 ≤ length response) × (length p.1 ≡ length response))
          (write_icmp_reply config frame icmp_start end response)
  unfolding write_icmp_reply
  write_icmp_reply-Safe frame icmp_start end response lo mid hi =
      Safe-fail_if _ (ltb (length response) end) _ _ λ room.
        let fits : end ≤ length response = ground arith in
        Safe-then _ _ (sub frame 0 end) _ (sub-Safe frame 0 end (omega arith) hi) λ request er.
          Safe-then _ _ (write response 0 request) _ (write-Safe response 0 request (omega arith))
            λ o eo.
              Safe-then _ _ (sub frame 6 12) _ (sub-Safe frame 6 12 (omega arith) (omega arith))
                λ source es.
                  Safe-then _ _ (write_ethernet o source config.mac ethertype_ipv4) _
                    (write_ethernet-Safe o source ethertype_ipv4 es (omega arith))
                    λ o2 eo2.
                      Safe-then _ _ (sub o2 eth_header icmp_start) _
                        (sub-Safe o2 eth_header icmp_start (omega arith) (omega arith))
                        λ header eh.
                          Safe-then _ _ (sub frame (eth_header + 12) (eth_header + 16)) _
                            (sub-Safe frame (eth_header + 12) (eth_header + 16) (omega arith)
                              (omega arith))
                            λ sender e4.
                              Safe-then _ _ (turn_header header config.address sender) _
                                (turn_header-Safe header sender (omega arith) e4)
                                λ h eh2.
                                  Safe-then _ _ (write o2 eth_header h) _
                                    (write-Safe o2 eth_header h (omega arith))
                                    λ o3 eo3.
                                      Safe-then _ _ (sub o3 icmp_start end) _
                                        (sub-Safe o3 icmp_start end (omega arith) (omega arith))
                                        λ icmp ei.
                                          Safe-then _ _ (turn_icmp icmp) _
                                            (turn_icmp-Safe icmp (omega arith))
                                            λ r er2.
                                              Safe-then _ _ (write o3 icmp_start r) _
                                                (write-Safe o3 icmp_start r (omega arith))
                                                λ o4 eo4. (fits, omega arith)
