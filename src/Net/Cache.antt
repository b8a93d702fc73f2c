-- ===== src/Net/Cache.antt =====
-- crates/nr-net/src/lib.rs: `Stack` and its ARP cache.
pub mod Entries
pub mod Lookup
pub mod Macs
use nightrun.Prelude.{
  ℕ, ◌+◌, ◌%◌, Bool, true, false, ◌&&◌, ◌||◌, List, [], ◌∷◌, length, map, replicate, Option, none,
  some, ◌!=◌, if◌then◌else◌,
}
use nightrun.Prelude.Bytes.{bytes_eq, overwrite?}
use nightrun.Net.Types.{
  Ipv4Address, MacAddress, Config, Neighbor, Stack, ip_unspecified, mac_zero, mac_broadcast,
}

-- `Neighbor::default()`
abbrev pub empty : Neighbor
empty = record { ip = ip_unspecified; mac = mac_zero; valid = false }

unfoldable pub new : ℕ → Config → Stack
new n config = record {
  config = config;
  neighbors = replicate n empty;
  next_neighbor = 0;
  identification = 1;
}

pub set_config : Stack → Config → Stack
set_config s config = record s {
  config = config;
  neighbors = replicate (length s.neighbors) empty;
  next_neighbor = 0;
}

abbrev pub is_for : Ipv4Address → Neighbor → Bool
is_for ip n = n.valid && bytes_eq n.ip ip

unfoldable pub find : Ipv4Address → List Neighbor → Option MacAddress
find ip [] = none
find ip (n ∷ rest) = if is_for ip n then some n.mac else find ip rest

unfoldable pub neighbor : Stack → Ipv4Address → Option MacAddress
neighbor s ip = find ip s.neighbors

-- The search for an entry to update; none if there is no entry.
abbrev keep : Neighbor → Option (List Neighbor) → Option (List Neighbor)
keep n none = none
keep n (some rest) = some (n ∷ rest)

pub refresh : Ipv4Address → MacAddress → List Neighbor → Option (List Neighbor)
refresh ip mac [] = none
refresh ip mac (n ∷ rest) =
    let later = refresh ip mac rest in
    if is_for ip n then some (record n { mac = mac } ∷ rest) else keep n later

-- `self.neighbors[self.next_neighbor] = ...`, which `learn`'s invariant keeps in range.
pub insert : Stack → Neighbor → Option Stack
insert s n = elim (overwrite? s.neighbors s.next_neighbor (n ∷ [])) [
  | none ↦ none
  | some ns ↦
      some (record s { neighbors = ns; next_neighbor = (s.next_neighbor + 1) % length s.neighbors })
]

-- None is a panic.
pub learn : Stack → Ipv4Address → MacAddress → Option Stack
learn s ip mac =
    if bytes_eq ip ip_unspecified || bytes_eq mac mac_zero || bytes_eq mac mac_broadcast
    then some s
    else elim (refresh ip mac s.neighbors) [
      | some ns ↦ some (record s { neighbors = ns })
      | none ↦
          if length s.neighbors != 0
          then insert s (record { ip = ip; mac = mac; valid = true })
          else some s
    ]
