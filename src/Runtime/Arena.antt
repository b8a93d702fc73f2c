-- ===== src/Runtime/Arena.antt =====
-- crates/nr-runtime/src/arena.rs: `Arena`. A block is its start, counted from the arena's base.
-- `usize` has 64 bits.
pub mod Blocks
use nightrun.Prelude.{
  ℕ, ◌+◌, ◌-◌, ◌*◌, ◌%◌, ◌^◌, max, bit_and, Bool, List, [], ◌∷◌, Option, none, some, ltb,
  if◌then◌else◌,
}

pub record Arena : Type 0 where
  pub size : ℕ
  pub offset : ℕ

pub new : ℕ → Arena
new size = record { size = size; offset = 0 }

abbrev pub capacity : Arena → ℕ
capacity a = a.size

abbrev pub used : Arena → ℕ
used a = a.offset

abbrev checked_add : ℕ → ℕ → Option ℕ
checked_add a b = if ltb (a + b) (2 ^ 64) then some (a + b) else none

-- `!(align - 1)`
abbrev pub align_mask : ℕ → ℕ
align_mask align = 2 ^ 64 - 1 - (align - 1)

-- The part of `alloc_bytes` behind `start`.
abbrev place : Arena → ℕ → Option ℕ → Option (ℕ × Arena)
place a start none = none
place a start (some end) = if ltb a.size end then none else some (start, record a { offset = end })

abbrev round_up : Arena → ℕ → ℕ → Option ℕ → Option (ℕ × Arena)
round_up a len align none = none
round_up a len align (some top) =
    let start = bit_and top (align_mask align) in place a start (checked_add start len)

-- The block's start, and the arena behind it; `align` is a power of two.
unfoldable pub alloc_bytes : Arena → ℕ → ℕ → Option (ℕ × Arena)
alloc_bytes a len align = round_up a len align (checked_add a.offset (align - 1))

-- `n` elements of `size_of` bytes each; the product wraps as in the release build.
pub alloc_zeroed : Arena → ℕ → ℕ → ℕ → Option (ℕ × Arena)
alloc_zeroed a n size_of align_of = alloc_bytes a (n * size_of % 2 ^ 64) (max align_of 64)
