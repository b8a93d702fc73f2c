-- ===== src/Crc32.antt =====
-- crates/nr-model/src/crc32.rs: CRC-32 (IEEE, reflected), slicing by 8.
-- A `u32` is a number, a byte slice a list of numbers. `chunks_exact(8)` is the match on eight
-- bytes; what is left over goes through the loop over the remainder.
pub mod Linear
pub mod Classic
use nightrun.Prelude.{
  ℕ, zero, suc, ◌+◌, ◌*◌, ◌/◌, ◌^◌, bit_and, bit_xor, List, [], ◌∷◌, get_or, ◌!=◌, if◌then◌else◌,
}

abbrev pub poly : ℕ
poly = 0xEDB8_8320

-- One round of the loop over `k`.
unfoldable pub bit_step : ℕ → ℕ
bit_step c = if bit_and c 1 != 0 then bit_xor poly (c / 2) else c / 2

unfoldable pub bit_steps : ℕ → ℕ → ℕ
bit_steps zero c = c
bit_steps (suc k) c = bit_steps k (bit_step c)

-- `n` entries from index `i` on, as the loops over `i` fill them.
unfoldable pub fill : ℕ → ℕ → (ℕ → ℕ) → List ℕ
fill zero i f = []
fill (suc n) i f = f i ∷ fill n (i + 1) f

unfoldable pub first_row : List ℕ
first_row = fill 256 0 (bit_steps 8)

unfoldable pub next_row : List ℕ → List ℕ → List ℕ
next_row t0 prev =
    fill 256 0 (λ i. bit_xor (get_or t0 (bit_and (get_or prev i 0) 0xff) 0) (get_or prev i 0 / 256))

-- The rows that the loop over `s` adds.
unfoldable pub next_rows : ℕ → List ℕ → List ℕ → List (List ℕ)
next_rows zero t0 prev = []
next_rows (suc n) t0 prev = next_row t0 prev ∷ next_rows n t0 (next_row t0 prev)

unfoldable pub make_tables : List (List ℕ)
make_tables = first_row ∷ next_rows 7 first_row first_row

-- `TABLES[s][i]`
unfoldable pub table : ℕ → ℕ → ℕ
table s i = get_or (get_or make_tables s []) i 0

abbrev pub Crc32 : Type 0
Crc32 = ℕ

abbrev pub new : Crc32
new = 0xffff_ffff

-- The loop over the remainder.
unfoldable pub update_bytes : Crc32 → List ℕ → Crc32
update_bytes c [] = c
update_bytes c (b ∷ rest) =
    update_bytes (bit_xor (table 0 (bit_and (bit_xor c b) 0xff)) (c / 256)) rest

-- `u32::from_le_bytes`
abbrev pub le32 : ℕ → ℕ → ℕ → ℕ → ℕ
le32 w0 w1 w2 w3 = w0 + 256 * (w1 + 256 * (w2 + 256 * w3))

unfoldable pub lookups : ℕ → ℕ → ℕ → ℕ → ℕ → ℕ
lookups lo w4 w5 w6 w7 =
    bit_xor
      (bit_xor
        (bit_xor
          (bit_xor
            (bit_xor
              (bit_xor (bit_xor (table 7 (bit_and lo 0xff)) (table 6 (bit_and (lo / 2 ^ 8) 0xff)))
                (table 5 (bit_and (lo / 2 ^ 16) 0xff)))
              (table 4 (lo / 2 ^ 24)))
            (table 3 w4))
          (table 2 w5))
        (table 1 w6))
      (table 0 w7)

unfoldable pub update : Crc32 → List ℕ → Crc32
update c (w0 ∷ w1 ∷ w2 ∷ w3 ∷ w4 ∷ w5 ∷ w6 ∷ w7 ∷ rest) =
    update (lookups (bit_xor (le32 w0 w1 w2 w3) c) w4 w5 w6 w7) rest
update c rest = update_bytes c rest

unfoldable pub finish : Crc32 → ℕ
finish c = bit_xor c 0xffff_ffff

unfoldable pub checksum : List ℕ → ℕ
checksum bytes = finish (update new bytes)
