-- ===== src/Net/Cache/Entries.antt =====
-- The list of neighbors behind a change of one entry.
use nightrun.Prelude.{
  ℕ, zero, suc, ◌<◌, ◌≡◌, ◌≢◌, ◌⊎◌, inl, inr, refl, sym, ap, ◌∙◌, Bool, true, false, ◌||◌,
  Bool-cases, List, [], ◌∷◌, length, none, some, if◌then◌else◌, replicate, arith,
}
use nightrun.Prelude.Bytes.{bytes_eq_iff, overwrite?}
use nightrun.Net.Types.{Ipv4Address, MacAddress, Neighbor}
use nightrun.Net.Cache.{is_for, find, refresh, empty}

-- No two valid entries are for one address.
pub Unique : List Neighbor → Type 0
Unique [] = Unit
Unique (n ∷ rest) = (n.valid ≡ true → find n.ip rest ≡ none) × Unique rest

find_first :
    (ip : Ipv4Address) (n : Neighbor) (rest : List Neighbor)
    → is_for ip n ≡ true
    → find ip (n ∷ rest) ≡ some n.mac
unfolding find
find_first ip n rest h = rw h refl

find_later :
    (ip : Ipv4Address) (n : Neighbor) (rest : List Neighbor)
    → is_for ip n ≡ false
    → find ip (n ∷ rest) ≡ find ip rest
unfolding find
find_later ip n rest h = rw h refl

pub is_for_iff :
    (ip : Ipv4Address) (n : Neighbor) → is_for ip n ≡ true → (n.valid ≡ true) × (n.ip ≡ ip)
is_for_iff ip n h = ground (arith, bytes_eq_iff n.ip ip)

pub is_for_self :
    (ip : Ipv4Address) (mac : MacAddress)
    → is_for ip (record { ip = ip; mac = mac; valid = true }) ≡ true
is_for_self ip mac = (bytes_eq_iff ip ip).1 refl

abbrev pub known : Ipv4Address → List Neighbor → Bool
known ip [] = false
known ip (n ∷ rest) = is_for ip n || known ip rest

-- The list that `refresh` returns where it finds an entry.
unfoldable pub updated : Ipv4Address → MacAddress → List Neighbor → List Neighbor
updated ip mac [] = []
updated ip mac (n ∷ rest) =
    let later = updated ip mac rest in
    if is_for ip n then record n { mac = mac } ∷ rest else n ∷ later

pub refresh_lem :
    (ip : Ipv4Address) (mac : MacAddress) (ns : List Neighbor)
    → refresh ip mac ns ≡ (if known ip ns then some (updated ip mac ns) else none)
unfolding refresh updated
refresh_lem ip mac [] = refl
refresh_lem ip mac (n ∷ rest) = elim (Bool-cases (is_for ip n)) [
  | inl hit ↦ rw hit refl
  | inr miss ↦ elim (Bool-cases (known ip rest)) [
    | inl later ↦ rw (miss, refresh_lem ip mac rest, later) refl
    | inr none_left ↦ rw (miss, refresh_lem ip mac rest, none_left) refl
  ]
]

pub length-updated :
    (ip : Ipv4Address) (mac : MacAddress) (ns : List Neighbor)
    → length (updated ip mac ns) ≡ length ns
unfolding updated
length-updated ip mac [] = refl
length-updated ip mac (n ∷ rest) = ground (arith, length-updated ip mac rest)

pub find_unknown : (ip : Ipv4Address) (ns : List Neighbor) → known ip ns ≡ false → find ip ns ≡ none
unfolding find
find_unknown ip [] h = refl
find_unknown ip (n ∷ rest) h = ground (arith, find_unknown ip rest)

pub find-updated :
    (ip : Ipv4Address) (mac : MacAddress) (ns : List Neighbor)
    → known ip ns ≡ true
    → find ip (updated ip mac ns) ≡ some mac
unfolding find updated
find-updated ip mac [] h = absurd cc
find-updated ip mac (n ∷ rest) h = elim (Bool-cases (is_for ip n)) [
  | inl hit ↦ rw hit (find_first ip (record n { mac = mac }) rest hit)
  | inr miss ↦ rw (miss, miss) (find-updated ip mac rest (ground arith))
]

apart :
    (ip other : Ipv4Address) (n : Neighbor)
    → other ≢ ip
    → is_for ip n ≡ true
    → is_for other n ≡ false
apart ip other n ne h = ground (arith, is_for_iff ip n h, is_for_iff other n)

pub find-updated_other :
    (ip other : Ipv4Address) (mac : MacAddress) (ns : List Neighbor)
    → other ≢ ip
    → find other (updated ip mac ns) ≡ find other ns
unfolding find updated
find-updated_other ip other mac [] ne = refl
find-updated_other ip other mac (n ∷ rest) ne = elim (Bool-cases (is_for ip n)) [
  | inl hit ↦ let miss = apart ip other n ne hit in rw (hit, miss) refl
  | inr miss ↦ rw (miss, find-updated_other ip other mac rest ne) refl
]

pub updated-Unique :
    (ip : Ipv4Address) (mac : MacAddress) (ns : List Neighbor)
    → Unique ns
    → Unique (updated ip mac ns)
unfolding Unique updated
updated-Unique ip mac [] u = tt
updated-Unique ip mac (n ∷ rest) u = elim (Bool-cases (is_for ip n)) [
  | inl hit ↦ rw hit u
  | inr miss ↦ rw miss (
    (λ on.
        find-updated_other ip n.ip mac rest
          (λ same. absurd (ground (arith, same, on, bytes_eq_iff n.ip ip)))
        ∙ u.0 on),
    updated-Unique ip mac rest u.1,
  )
]

-- A write of one entry over entry `k`.
abbrev pub over : List Neighbor → ℕ → Neighbor → List Neighbor
over [] k n = []
over (x ∷ xs) zero n = n ∷ xs
over (x ∷ xs) (suc k) n = x ∷ over xs k n

pub overwrite?-over :
    (ns : List Neighbor) (k : ℕ) (n : Neighbor)
    → k < length ns
    → overwrite? ns k (n ∷ []) ≡ some (over ns k n)
overwrite?-over [] k n h = absurd (omega arith)
overwrite?-over (x ∷ []) zero n h = refl
overwrite?-over (x ∷ y ∷ xs) zero n h = refl
overwrite?-over (x ∷ xs) (suc k) n h = rw (overwrite?-over xs k n (omega arith)) refl

pub length-over : (ns : List Neighbor) (k : ℕ) (n : Neighbor) → length (over ns k n) ≡ length ns
length-over [] k n = refl
length-over (x ∷ xs) zero n = refl
length-over (x ∷ xs) (suc k) n = omega (arith, length-over xs k n)

pub find-over :
    (ip : Ipv4Address) (ns : List Neighbor) (k : ℕ) (n : Neighbor)
    → k < length ns
    → known ip ns ≡ false
    → is_for ip n ≡ true
    → find ip (over ns k n) ≡ some n.mac
unfolding find
find-over ip [] k n h g f = absurd (omega arith)
find-over ip (x ∷ xs) zero n h g f = rw f refl
find-over ip (x ∷ xs) (suc k) n h g f =
    let miss : is_for ip x ≡ false = ground arith in
    rw miss (find-over ip xs k n (omega arith) (ground arith) f)

-- What a write over an entry leaves of the other addresses: at most the one written over is lost.
pub find-over_other :
    (other : Ipv4Address) (ns : List Neighbor) (k : ℕ) (n : Neighbor)
    → Unique ns
    → is_for other n ≡ false
    → (find other (over ns k n) ≡ find other ns) ⊎ (find other (over ns k n) ≡ none)
unfolding find Unique
find-over_other other [] k n u f = inl refl
find-over_other other (x ∷ xs) zero n u f = elim (Bool-cases (is_for other x)) [
  | inl hit ↦
      let (on, same) = is_for_iff other x hit in
      inr (find_later other n xs f ∙ ap (λ a. find a xs) (sym same) ∙ u.0 on)
  | inr miss ↦ inl (find_later other n xs f ∙ sym (find_later other x xs miss))
]
find-over_other other (x ∷ xs) (suc k) n u f = elim (Bool-cases (is_for other x)) [
  | inl hit ↦ inl (find_first other x (over xs k n) hit ∙ sym (find_first other x xs hit))
  | inr miss ↦ elim (find-over_other other xs k n u.1 f) [
    | inl same ↦
        inl (find_later other x (over xs k n) miss ∙ same ∙ sym (find_later other x xs miss))
    | inr lost ↦ inr (find_later other x (over xs k n) miss ∙ lost)
  ]
]

missed :
    (ip : Ipv4Address) (x : Neighbor) (xs : List Neighbor)
    → find ip (x ∷ xs) ≡ none
    → (is_for ip x ≡ false) × (find ip xs ≡ none)
unfolding find
missed ip x xs h = ground arith

pub over-Unique :
    (ns : List Neighbor) (k : ℕ) (n : Neighbor)
    → Unique ns
    → find n.ip ns ≡ none
    → Unique (over ns k n)
unfolding Unique
over-Unique [] k n u f = tt
over-Unique (x ∷ xs) zero n u f = ((λ _. (missed n.ip x xs f).1), u.1)
over-Unique (x ∷ xs) (suc k) n u f =
    let (miss, later) = missed n.ip x xs f in
    (
      (λ on.
          elim (find-over_other x.ip xs k n u.1
            (ground (arith, bytes_eq_iff n.ip x.ip, bytes_eq_iff x.ip n.ip))) [
              | inl same ↦ same ∙ u.0 on
              | inr lost ↦ lost
            ]),
      over-Unique xs k n u.1 later,
    )

pub empties-Unique : (n : ℕ) → Unique (replicate n empty)
unfolding Unique
empties-Unique zero = tt
empties-Unique (suc n) = ((λ (on : false ≡ true). absurd cc), empties-Unique n)
