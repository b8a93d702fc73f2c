-- ===== src/Mcp/Checksum.antt =====
-- The two CRC-32 routines of the program, `crc32` of nr-mcp and `checksum` of nr-model.
use nightrun.Prelude.{
  ℕ, zero, suc, ◌-◌, ◌/◌, ◌%◌, ◌^◌, ◌+◌, bit_and, bit_xor, ◌≡◌, refl, sym, ap, ◌∙◌, inl, inr, List,
  [], ◌∷◌, arith,
}
use nightrun.Prelude.Bytes.{IsBytes}
use nightrun.Prelude.Bits.{bit_and_mask, xor_comm, xor-zero, xor_ones}
use nightrun.Crc32
use nightrun.Crc32.{bit_step, bit_steps, poly}
use nightrun.Crc32.Linear.{bit_step_even, bit_step_odd, parity}
use nightrun.Crc32.Classic.{classic, classic-lt, checksum-classic}
use nightrun.Mcp.{crc_round, crc_rounds, crc_loop, crc32}

crc_round-bit_step : (c : ℕ) → crc_round c ≡ bit_step c
unfolding crc_round
crc_round-bit_step c = elim (parity c) [
  | inl e ↦
      let mask : (0 + 2 ^ 32 - bit_and c 1) % 2 ^ 32 ≡ 0 = omega (arith, bit_and_mask 1 c) in
      ap (λ (m : ℕ). bit_xor (c / 2) (bit_and poly m)) mask
      ∙ xor-zero (c / 2)
      ∙ sym (bit_step_even c e)
  | inr o ↦
      let mask : (0 + 2 ^ 32 - bit_and c 1) % 2 ^ 32 ≡ 0xffff_ffff =
        omega (arith, bit_and_mask 1 c) in
      ap (λ (m : ℕ). bit_xor (c / 2) (bit_and poly m)) mask
      ∙ xor_comm (c / 2) poly
      ∙ sym (bit_step_odd c o)
]

crc_rounds-bit_steps : (k c : ℕ) → crc_rounds k c ≡ bit_steps k c
unfolding crc_rounds bit_steps
crc_rounds-bit_steps zero c = refl
crc_rounds-bit_steps (suc k) c =
    ap (crc_rounds k) (crc_round-bit_step c) ∙ crc_rounds-bit_steps k (bit_step c)

pub crc_loop-classic : (c : ℕ) (bytes : List ℕ) → crc_loop c bytes ≡ classic c bytes
unfolding crc_loop classic
crc_loop-classic c [] = refl
crc_loop-classic c (b ∷ rest) =
    ap (λ (t : ℕ). crc_loop t rest) (crc_rounds-bit_steps 8 (bit_xor c b))
    ∙ crc_loop-classic (bit_steps 8 (bit_xor c b)) rest

-- Both routines return the same checksum of every byte string.
pub crc32-checksum : (bytes : List ℕ) → IsBytes bytes → crc32 bytes ≡ Crc32.checksum bytes
unfolding crc32
crc32-checksum bytes h =
    ap (λ (c : ℕ). 0xffff_ffff - c) (crc_loop-classic 0xffff_ffff bytes)
    ∙ sym (
        checksum-classic bytes h
        ∙ xor_ones 32 (classic 0xffff_ffff bytes) (classic-lt 0xffff_ffff bytes (omega arith) h))
