-- ===== src/Net/Checksum.antt =====
-- crates/nr-net/src/lib.rs: the Internet checksum.
-- The sums of `u32` are written as the release build computes them, with their wrap-around.
pub mod Sums
use nightrun.Prelude.{
  ℕ, zero, suc, ◌+◌, ◌-◌, ◌*◌, ◌/◌, ◌%◌, ◌^◌, List, [], ◌∷◌, length, ◌!=◌, if◌then◌else◌,
}
use nightrun.Net.Types.{Ipv4Address}

pub partial_sum : ℕ → List ℕ → ℕ
partial_sum sum [] = sum
partial_sum sum (last ∷ []) = (sum + last * 256) % 2 ^ 32
partial_sum sum (a ∷ b ∷ rest) = partial_sum ((sum + (a * 256 + b)) % 2 ^ 32) rest

-- The loop of `finalize_sum`. A `u32` is folded in 2 rounds.
pub fold_sum : ℕ → ℕ → ℕ
fold_sum zero sum = sum
fold_sum (suc fuel) sum =
    let next = fold_sum fuel (sum % 2 ^ 16 + sum / 2 ^ 16) in
    if sum / 2 ^ 16 != 0 then next else sum

pub finalize_sum : ℕ → ℕ
finalize_sum sum = 0xffff - fold_sum 2 sum % 2 ^ 16

pub checksum : List ℕ → ℕ
checksum bytes = finalize_sum (partial_sum 0 bytes)

pub transport_checksum : Ipv4Address → Ipv4Address → ℕ → List ℕ → ℕ
transport_checksum source destination protocol packet =
    let pseudo = partial_sum (partial_sum 0 source) destination in
    let sum = ((pseudo + protocol) % 2 ^ 32 + length packet % 2 ^ 32) % 2 ^ 32 in
    finalize_sum (partial_sum sum packet)
