-- ===== src/Prelude/Masks.antt =====
-- A word as a set of bit positions.
use nightrun.Prelude.Bits.{bit_or_step}
use Prim.Native.Nat.{ℕ, zero, suc, ◌+◌, ◌-◌, ◌*◌, ◌/◌, ◌%◌, ◌^◌, ◌≤◌, ◌<◌, max, bit_or}
use mathlib.Core.Path.{◌≡◌, refl, ap, ◌∙◌}
use mathlib.Core.Logic.{◌≢◌}
use native.Mathlib.Nat.{pow-suc, one-le-pow}
use native.Mathlib.Omega.{arith}

-- Bit `i` of `x`, as 0 or 1.
abbrev pub bit : ℕ → ℕ → ℕ
bit zero x = x % 2
bit (suc i) x = bit i (x / 2)

pub bit-zero : (i : ℕ) → bit i 0 ≡ 0
bit-zero zero = refl
bit-zero (suc i) = bit-zero i

pub bit-bit_or : (i a b : ℕ) → bit i (bit_or a b) ≡ max (bit i a) (bit i b)
bit-bit_or zero a b = omega (arith, bit_or_step a b)
bit-bit_or (suc i) a b =
    let half : bit_or a b / 2 ≡ bit_or (a / 2) (b / 2) = omega (arith, bit_or_step a b) in
    ap (bit i) half ∙ bit-bit_or i (a / 2) (b / 2)

halve : (j : ℕ) → 2 ^ suc j / 2 ≡ 2 ^ j
halve j = omega (arith, pow-suc 2 j)

pub bit-pow_self : (i : ℕ) → bit i (2 ^ i) ≡ 1
bit-pow_self zero = refl
bit-pow_self (suc i) = ap (bit i) (halve i) ∙ bit-pow_self i

pub bit-pow_ne : (i j : ℕ) → i ≢ j → bit i (2 ^ j) ≡ 0
bit-pow_ne zero zero h = absurd (h refl)
bit-pow_ne zero (suc j) h = omega (arith, pow-suc 2 j)
bit-pow_ne (suc i) zero h = bit-zero i
bit-pow_ne (suc i) (suc j) h = ap (bit i) (halve j) ∙ bit-pow_ne i j (λ e. h (ap suc e))

pub bit_or-lt : (k a b : ℕ) → a < 2 ^ k → b < 2 ^ k → bit_or a b < 2 ^ k
bit_or-lt zero a b ha hb =
    let ea : a ≡ 0 = omega arith in
    let eb : b ≡ 0 = omega arith in omega (arith, ap (λ (t : ℕ). bit_or t b) ea, ap (bit_or 0) eb)
bit_or-lt (suc k) a b ha hb = omega (
  arith,
  bit_or_step a b,
  pow-suc 2 k,
  bit_or-lt k (a / 2) (b / 2) (omega (arith, pow-suc 2 k)) (omega (arith, pow-suc 2 k)),
)

pub bit_or_zero : (k a : ℕ) → a < 2 ^ k → bit_or a 0 ≡ a
bit_or_zero zero a h = let ea : a ≡ 0 = omega arith in omega (arith, ap (λ (t : ℕ). bit_or t 0) ea)
bit_or_zero (suc k) a h =
    omega (arith, bit_or_step a 0, bit_or_zero k (a / 2) (omega (arith, pow-suc 2 k)))

-- `a << k`
abbrev pub shifted : ℕ → ℕ → ℕ
shifted zero a = a
shifted (suc k) a = 2 * shifted k a

-- Below a word that is shifted there is room for another.
pub bit_or-shifted :
    (w k a b : ℕ) → a < 2 ^ w → b < 2 ^ k → bit_or (shifted k a) b ≡ shifted k a + b
bit_or-shifted w zero a b ha hb =
    let eb : b ≡ 0 = omega arith in omega (arith, ap (λ (t : ℕ). bit_or a t) eb, bit_or_zero w a ha)
bit_or-shifted w (suc k) a b ha hb =
    let half : 2 * shifted k a / 2 ≡ shifted k a = omega arith in
    omega (
      arith,
      bit_or_step (2 * shifted k a) b,
      ap (λ (t : ℕ). bit_or t (b / 2)) half,
      bit_or-shifted w k a (b / 2) ha (omega (arith, pow-suc 2 k)),
    )

-- A word of `k` bits that has them all.
pub all_ones : (k x : ℕ) → x < 2 ^ k → ((i : ℕ) → i < k → bit i x ≡ 1) → x ≡ 2 ^ k - 1
all_ones zero x h ones = omega arith
all_ones (suc k) x h ones = omega (
  arith,
  ones 0 (omega arith),
  pow-suc 2 k,
  one-le-pow k 2,
  all_ones k (x / 2) (omega (arith, pow-suc 2 k)) (λ i hi. ones (suc i) (omega arith)),
)

pub bit-ones : (k i : ℕ) → i < k → bit i (2 ^ k - 1) ≡ 1
bit-ones zero i h = absurd (omega arith)
bit-ones (suc k) zero h = omega (arith, pow-suc 2 k, one-le-pow k 2)
bit-ones (suc k) (suc i) h =
    let half : (2 ^ suc k - 1) / 2 ≡ 2 ^ k - 1 = omega (arith, pow-suc 2 k, one-le-pow k 2) in
    ap (bit i) half ∙ bit-ones k i (omega arith)

pub bit-le_one : (i x : ℕ) → bit i x ≤ 1
bit-le_one zero x = omega arith
bit-le_one (suc i) x = bit-le_one i (x / 2)
