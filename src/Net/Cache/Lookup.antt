-- ===== src/Net/Cache/Lookup.antt =====
-- `learn` and `neighbor`: what the ARP cache answers after an address was learned.
use nightrun.Prelude.{
  ℕ, zero, suc, ◌+◌, ◌%◌, ◌<◌, ◌≡◌, ◌≢◌, ◌⊎◌, inl, inr, refl, sym, ◌∙◌, Bool, true, false, ◌||◌,
  Bool-cases, ◌!=◌, length, replicate, none, some, if◌then◌else◌, arith,
}
use native.Mathlib.Nat.{mod-lt}
use nightrun.Prelude.Bytes.{bytes_eq, bytes_eq_iff}
use nightrun.Net.Types.{
  Ipv4Address, MacAddress, Config, Neighbor, Stack, ip_unspecified, mac_zero, mac_broadcast,
}
use nightrun.Net.Cache.{empty, new, set_config, find, neighbor, insert, learn}
use nightrun.Net.Cache.Entries.{
  Unique, known, updated, refresh_lem, length-updated, find_unknown, find-updated,
  find-updated_other, updated-Unique, over, overwrite?-over, length-over, find-over,
  find-over_other, over-Unique, is_for_self, empties-Unique,
}

-- The next slot is one of the array, and no address has two entries.
pub record IsReady (s : Stack) : Type 0 where
  pub in_range : length s.neighbors ≢ 0 → s.next_neighbor < length s.neighbors
  pub unique : Unique s.neighbors

-- The pairs that `learn` does not ignore.
abbrev pub ignored : Ipv4Address → MacAddress → Bool
ignored ip mac = bytes_eq ip ip_unspecified || bytes_eq mac mac_zero || bytes_eq mac mac_broadcast

-- The state that `learn` leaves.
unfoldable pub learned : Stack → Ipv4Address → MacAddress → Stack
learned s ip mac =
    if ignored ip mac
    then s
    else if known ip s.neighbors
    then record s { neighbors = updated ip mac s.neighbors }
    else if length s.neighbors != 0
    then record s {
      neighbors = over s.neighbors s.next_neighbor (record { ip = ip; mac = mac; valid = true });
      next_neighbor = (s.next_neighbor + 1) % length s.neighbors;
    }
    else s

module _ (s : Stack) (ip : Ipv4Address) (mac : MacAddress) (ready : IsReady s) where
  pub learn_lem : learn s ip mac ≡ some (learned s ip mac)
  unfolding learn learned insert
  learn_lem = elim (Bool-cases (ignored ip mac)) [
    | inl skip ↦ rw skip refl
    | inr use_it ↦ elim (Bool-cases (known ip s.neighbors)) [
      | inl hit ↦ rw (use_it, refresh_lem ip mac s.neighbors, hit) refl
      | inr miss ↦ elim (Bool-cases (length s.neighbors != 0)) [
        | inl some_slots ↦
            rw
              (
                use_it,
                refresh_lem ip mac s.neighbors,
                miss,
                some_slots,
                overwrite?-over s.neighbors s.next_neighbor
                    (record { ip = ip; mac = mac; valid = true }) (ready.in_range (ground arith)),
                insert,
              )
              refl
        | inr no_slots ↦ rw (use_it, refresh_lem ip mac s.neighbors, miss, no_slots) refl
      ]
    ]
  ]

  abbrev entry : Neighbor
  entry = record { ip = ip; mac = mac; valid = true }

  ne_length : length (updated ip mac s.neighbors) ≢ 0 → length s.neighbors ≢ 0
  ne_length h e = h (length-updated ip mac s.neighbors ∙ e)

  pub learned-IsReady : IsReady (learned s ip mac)
  unfolding learned
  learned-IsReady = elim (Bool-cases (ignored ip mac)) [
    | inl skip ↦ rw skip ready
    | inr use_it ↦ elim (Bool-cases (known ip s.neighbors)) [
      | inl hit ↦
          rw (use_it, hit)
            (record {
              in_range = λ (some_slots : length (updated ip mac s.neighbors) ≢ 0).
                  omega (
                    arith,
                    length-updated ip mac s.neighbors,
                    ready.in_range (ne_length some_slots),
                  );
              unique = updated-Unique ip mac s.neighbors ready.unique;
            })
      | inr miss ↦ elim (Bool-cases (length s.neighbors != 0)) [
        | inl some_slots ↦
            rw (use_it, miss, some_slots)
              (record {
                in_range = λ (_ : length (over s.neighbors s.next_neighbor entry) ≢ 0). omega (
                  arith,
                  length-over s.neighbors s.next_neighbor entry,
                  mod-lt (s.next_neighbor + 1) {m = length s.neighbors} (ground arith),
                );
                unique =
                    over-Unique s.neighbors s.next_neighbor entry ready.unique
                      (find_unknown ip s.neighbors miss);
              })
        | inr no_slots ↦ rw (use_it, miss, no_slots) ready
      ]
    ]
  ]

  pub length-learned : length (learned s ip mac).neighbors ≡ length s.neighbors
  unfolding learned
  length-learned =
      ground
        (arith, length-updated ip mac s.neighbors, length-over s.neighbors s.next_neighbor entry)

  pub config-learned : (learned s ip mac).config ≡ s.config
  unfolding learned
  config-learned = ground arith

  neighbor-learned :
      ignored ip mac ≡ false → length s.neighbors ≢ 0 → neighbor (learned s ip mac) ip ≡ some mac
  unfolding neighbor learned
  neighbor-learned use_it some_slots = elim (Bool-cases (known ip s.neighbors)) [
    | inl hit ↦ rw (use_it, hit) (find-updated ip mac s.neighbors hit)
    | inr miss ↦
        let slots : (length s.neighbors != 0) ≡ true = ground arith in
        rw (use_it, miss, slots)
          (find-over ip s.neighbors s.next_neighbor (record { ip = ip; mac = mac; valid = true })
            (ready.in_range some_slots) miss (is_for_self ip mac))
  ]

  neighbor-learned_other :
      (other : Ipv4Address)
      → other ≢ ip
      → (neighbor (learned s ip mac) other ≡ neighbor s other)
        ⊎ (neighbor (learned s ip mac) other ≡ none)
  unfolding neighbor learned
  neighbor-learned_other other ne = elim (Bool-cases (ignored ip mac)) [
    | inl skip ↦ rw skip (inl refl)
    | inr use_it ↦ elim (Bool-cases (known ip s.neighbors)) [
      | inl hit ↦ rw (use_it, hit) (inl (find-updated_other ip other mac s.neighbors ne))
      | inr miss ↦ elim (Bool-cases (length s.neighbors != 0)) [
        | inl some_slots ↦
            rw (use_it, miss, some_slots)
              (find-over_other other s.neighbors s.next_neighbor
                (record { ip = ip; mac = mac; valid = true }) ready.unique
                (ground (arith, bytes_eq_iff ip other, λ (e : ip ≡ other). ne (sym e))))
        | inr no_slots ↦ rw (use_it, miss, no_slots) (inl refl)
      ]
    ]
  ]

  -- Where the cache is in order, has a slot, and `learn` does not ignore the pair: `learn` does not
  -- panic, leaves the cache in order, and `neighbor` answers with the pair afterwards; of every
  -- other address it says what it said before, or that it does not know it.
  pub neighbor-learn :
      ignored ip mac ≡ false
      → length s.neighbors ≢ 0
      → (s' : Stack) × (learn s ip mac ≡ some s')
        × IsReady s'
        × (neighbor s' ip ≡ some mac)
        × ((other : Ipv4Address)
            → other ≢ ip
            → (neighbor s' other ≡ neighbor s other) ⊎ (neighbor s' other ≡ none))
  neighbor-learn use_it some_slots = (
    learned s ip mac,
    learn_lem,
    learned-IsReady,
    neighbor-learned use_it some_slots,
    neighbor-learned_other,
  )

not_zero : (n : ℕ) → n ≢ 0 → 0 < n
not_zero n h = omega (arith, h)

pub find-empty : (n : ℕ) (ip : Ipv4Address) → find ip (replicate n empty) ≡ none
unfolding find
find-empty zero ip = refl
find-empty (suc n) ip = find-empty n ip

pub new-IsReady : (n : ℕ) (config : Config) → IsReady (new n config)
unfolding new
new-IsReady n config = record {
  in_range = λ (some_slots : length (replicate n empty) ≢ 0). not_zero _ some_slots;
  unique = empties-Unique n;
}

-- After `set_config` the cache knows no address, and its slots are in range again.
pub neighbor-set_config :
    (s : Stack) (config : Config)
    → IsReady (set_config s config)
      × ((ip : Ipv4Address) → neighbor (set_config s config) ip ≡ none)
unfolding set_config neighbor
neighbor-set_config s config = (
  record {
    in_range =
        λ (some_slots : length (replicate (length s.neighbors) empty) ≢ 0). not_zero _ some_slots;
    unique = empties-Unique (length s.neighbors);
  },
  find-empty (length s.neighbors),
)
