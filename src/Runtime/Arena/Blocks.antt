-- ===== src/Runtime/Arena/Blocks.antt =====
-- The blocks of an arena: aligned, inside it, and apart from one another.
use nightrun.Prelude.{
  ℕ, zero, suc, ◌+◌, ◌-◌, ◌*◌, ◌/◌, ◌%◌, ◌^◌, ◌≤◌, ◌<◌, bit_and, ◌≡◌, refl, sym, ap, ap₂, subst,
  ◌∙◌, List, [], ◌∷◌, All, Option, none, some, arith,
}
use nightrun.Prelude.Bits.{bit_and_high, bit_and_mask}
use native.Mathlib.Nat.{
  one-le-pow, pow-suc, div-add-mod', mod-lt, mod-eq_of_lt, mul-mod_left, div-lt_iff_lt-mul,
}
use nightrun.Runtime.Arena.{Arena, align_mask, alloc_bytes}

pow_split : (j k : ℕ) → 2 ^ (j + k) ≡ 2 ^ j * 2 ^ k
pow_split zero k = let same : 0 + k ≡ k = omega arith in ap (λ (n : ℕ). 2 ^ n) same ∙ omega arith
pow_split (suc j) k =
    let step : 2 ^ suc (j + k) ≡ 2 ^ (j + k) * 2 = omega (arith, pow-suc 2 (j + k)) in
    let left : 2 ^ suc j ≡ 2 ^ j * 2 = omega (arith, pow-suc 2 j) in
    let shift : suc j + k ≡ suc (j + k) = omega arith in
    ap (λ (n : ℕ). 2 ^ n) shift
    ∙ step
    ∙ omega (arith, pow_split j k, ap (λ (n : ℕ). n * 2 ^ k) left)

pred_mul : (m n : ℕ) → (m - 1) * n ≡ m * n - n
pred_mul zero n = omega arith
pred_mul (suc m) n = let e : suc m - 1 ≡ m = omega arith in omega (arith, ap (λ (t : ℕ). t * n) e)

-- `top & !(2 ^ k - 1)` is the multiple of `2 ^ k` at or below `top`.
module _ (k top : ℕ) (narrow : k ≤ 64) (word : top < 2 ^ 64) where
  whole : 2 ^ 64 ≡ 2 ^ (64 - k) * 2 ^ k
  whole =
      let width : 64 ≡ 64 - k + k = omega arith in
      ap (λ (n : ℕ). 2 ^ n) width ∙ pow_split (64 - k) k

  mask_lem : align_mask (2 ^ k) ≡ (2 ^ (64 - k) - 1) * 2 ^ k
  mask_lem = omega (
    arith,
    whole,
    one-le-pow k 2 (omega arith),
    one-le-pow (64 - k) 2 (omega arith),
    pred_mul (2 ^ (64 - k)) (2 ^ k),
  )

  quotient-lt : top / 2 ^ k < 2 ^ (64 - k)
  quotient-lt =
      (div-lt_iff_lt-mul {k = 2 ^ k} {x = top} {y = 2 ^ (64 - k)} (one-le-pow k 2 (omega arith))).1
        (omega (arith, whole))

  cleared : bit_and top (align_mask (2 ^ k)) ≡ top / 2 ^ k * 2 ^ k
  cleared =
      ap₂ bit_and (sym (div-add-mod' top (2 ^ k))) mask_lem
      ∙ bit_and_high k (top / 2 ^ k) (top % 2 ^ k) (2 ^ (64 - k) - 1)
          (mod-lt top {m = 2 ^ k} (one-le-pow k 2 (omega arith)))
      ∙ ap (λ (n : ℕ). n * 2 ^ k) (bit_and_mask (64 - k) (top / 2 ^ k) ∙ mod-eq_of_lt quotient-lt)

-- What `alloc_bytes` with the alignment `2 ^ k` returns: the block starts at the first multiple of the
-- alignment at or behind the offset, and the new offset is its end, inside the arena.
abbrev pub IsBlock : Arena → ℕ → ℕ → ℕ × Arena → Type 0
IsBlock a len k (start, a') =
    (a.offset ≤ start)
    × (start < a.offset + 2 ^ k)
    × (start % 2 ^ k ≡ 0)
    × (a'.offset ≡ start + len)
    × (a'.offset ≤ a.size)
    × (a'.size ≡ a.size)

-- The steps of `alloc_bytes` where it returns.
steps :
    (a : Arena) (len align start : ℕ) (a' : Arena)
    → alloc_bytes a len align ≡ some (start, a')
    → (a.offset + (align - 1) < 2 ^ 64)
      × (start ≡ bit_and (a.offset + (align - 1)) (align_mask align))
      × (start + len ≤ a.size)
      × (a'.offset ≡ start + len)
      × (a'.size ≡ a.size)
unfolding alloc_bytes
steps a len align start a' h = ground arith

-- Where `alloc_bytes` with the alignment `2 ^ k` returns a block: the block starts at the first
-- multiple of the alignment at or behind the offset, and its end is the new offset, inside the arena.
pub alloc_bytes-IsBlock :
    (a : Arena) (len k : ℕ) (r : ℕ × Arena)
    → k ≤ 64
    → alloc_bytes a len (2 ^ k) ≡ some r
    → IsBlock a len k r
alloc_bytes-IsBlock a len k (start, a') narrow h =
    let (word, start_eq, fits, end_eq, size_eq) = steps a len (2 ^ k) start a' h in
    let top = a.offset + (2 ^ k - 1) in
    let low = one-le-pow k 2 (omega arith) in
    let whole_part = start_eq ∙ cleared k top narrow word in
    let split = div-add-mod' top (2 ^ k) in
    let rest = mod-lt top {m = 2 ^ k} low in
    (
      omega arith,
      omega arith,
      ap (λ (n : ℕ). n % 2 ^ k) whole_part ∙ mul-mod_left (top / 2 ^ k) (2 ^ k),
      end_eq,
      omega arith,
      size_eq,
    )

-- The blocks that the requests of a list get, one after the other, with their lengths; none from
-- the first that does not fit.
pub blocks : Arena → List (ℕ × ℕ) → List (ℕ × ℕ)
blocks a [] = []
blocks a ((len, k) ∷ rest) = elim (alloc_bytes a len (2 ^ k)) [
  | none ↦ []
  | some (start, a') ↦ (start, len) ∷ blocks a' rest
]

-- Each block starts at `from` or behind it, where the one before ends, and ends by `size`.
pub InOrder : ℕ → ℕ → List (ℕ × ℕ) → Type 0
InOrder from size [] = Unit
InOrder from size ((start, len) ∷ rest) =
    (from ≤ start) × (start + len ≤ size) × InOrder (start + len) size rest

-- Whatever the lengths and the alignments up to 2 ^ 64, the blocks that an arena hands out lie
-- behind one another and inside the arena, so no two of them share a byte.
pub blocks-InOrder :
    (a : Arena) (requests : List (ℕ × ℕ))
    → All (λ r. r.1 ≤ 64) requests
    → InOrder a.offset a.size (blocks a requests)
unfolding blocks InOrder
blocks-InOrder a [] h = tt
blocks-InOrder a ((len, k) ∷ rest) h =
    by_result (alloc_bytes a len (2 ^ k)) refl (λ a'. blocks-InOrder a' rest h.1)
  where
    by_result :
        (r : Option (ℕ × Arena))
        → alloc_bytes a len (2 ^ k) ≡ r
        → ((a' : Arena) → InOrder a'.offset a'.size (blocks a' rest))
        → InOrder a.offset a.size
            (elim r [ none ↦ [] | some (start, a') ↦ (start, len) ∷ blocks a' rest ])
    by_result none e again = tt
    by_result (some (start, a')) e again =
        let (behind, near, aligned, end_eq, inside, size_eq) =
          alloc_bytes-IsBlock a len k (start, a') h.0 e in
        (
          behind,
          omega arith,
          subst (λ (n : ℕ). InOrder n a.size (blocks a' rest)) end_eq
              (subst (λ (n : ℕ). InOrder a'.offset n (blocks a' rest)) size_eq (again a')),
        )
