-- ===== src/Net/Cache/Macs.antt =====
-- The addresses in the ARP cache are as long as the type of the source says.
use nightrun.Prelude.{
  ℕ, zero, suc, ◌≡◌, inl, inr, Bool-cases, List, [], ◌∷◌, length, ◌!=◌, All, some,
}
use nightrun.Net.Types.{Ipv4Address, MacAddress, Neighbor, Stack}
use nightrun.Net.Cache.{find, neighbor, is_for}
use nightrun.Net.Cache.Entries.{known, updated, over}
use nightrun.Net.Cache.Lookup.{ignored, learned}

abbrev pub HasMac : Neighbor → Type 0
HasMac n = length n.mac ≡ 6

same : {mac : MacAddress} (m : MacAddress) → some m ≡ some mac → length m ≡ 6 → length mac ≡ 6
same {mac = mac} m e h = let e' : m ≡ mac = cc in rw (← e') h

find-HasMac :
    (ip : Ipv4Address) (ns : List Neighbor) (mac : MacAddress)
    → All HasMac ns
    → find ip ns ≡ some mac
    → length mac ≡ 6
unfolding find
find-HasMac ip [] mac h e = absurd (cc)
find-HasMac ip (n ∷ ns) mac h e = elim (Bool-cases (is_for ip n)) [
  | inl hit ↦ same n.mac (rw hit at e) h.0
  | inr miss ↦ find-HasMac ip ns mac h.1 (rw miss at e)
]

pub neighbor-HasMac :
    (s : Stack) (ip : Ipv4Address) (mac : MacAddress)
    → All HasMac s.neighbors
    → neighbor s ip ≡ some mac
    → length mac ≡ 6
unfolding neighbor
neighbor-HasMac s ip mac h e = find-HasMac ip s.neighbors mac h e

module _ (ip : Ipv4Address) (mac : MacAddress) (six : length mac ≡ 6) where
  updated-HasMac : (ns : List Neighbor) → All HasMac ns → All HasMac (updated ip mac ns)
  unfolding updated
  updated-HasMac [] h = tt
  updated-HasMac (n ∷ ns) h = elim (Bool-cases (is_for ip n)) [
    | inl hit ↦ rw hit (six, h.1)
    | inr miss ↦ rw miss (h.0, updated-HasMac ns h.1)
  ]

  over-HasMac :
      (ns : List Neighbor) (i : ℕ) (n : Neighbor)
      → All HasMac ns
      → HasMac n
      → All HasMac (over ns i n)
  over-HasMac [] i n h k = tt
  over-HasMac (x ∷ ns) zero n h k = (k, h.1)
  over-HasMac (x ∷ ns) (suc i) n h k = (h.0, over-HasMac ns i n h.1 k)

  pub learned-HasMac :
      (s : Stack) → All HasMac s.neighbors → All HasMac (learned s ip mac).neighbors
  unfolding learned
  learned-HasMac s h = elim (Bool-cases (ignored ip mac)) [
    | inl skip ↦ rw skip h
    | inr use_it ↦ elim (Bool-cases (known ip s.neighbors)) [
      | inl hit ↦ rw (use_it, hit) (updated-HasMac s.neighbors h)
      | inr miss ↦ elim (Bool-cases (length s.neighbors != 0)) [
        | inl slots ↦ rw (use_it, miss, slots) (over-HasMac s.neighbors s.next_neighbor _ h six)
        | inr none_left ↦ rw (use_it, miss, none_left) h
      ]
    ]
  ]
