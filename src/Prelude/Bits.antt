-- ===== src/Prelude/Bits.antt =====
-- The laws of `bit_xor` and of `bit_and` with a low mask at every width, from the recursion on
-- binary digits that the native operations stand for.
use Prim.Native.Nat.{ℕ, zero, suc, ◌+◌, ◌-◌, ◌*◌, ◌/◌, ◌%◌, ◌^◌, ◌≤◌, ◌<◌, min, max}
use Prim.Native.Nat.{bit_and, bit_or, bit_xor, digits, bitwise, differ}
use Prim.Native.Nat.{bit_and-bitwise, bit_or-bitwise, bit_xor-bitwise}
use mathlib.Core.Path.{◌≡◌, refl, sym, ap, ap₂, ◌∙◌}
use mathlib.Core.WellFounded.{Acc, WellFounded}
use native.Mathlib.Nat.{pow-suc, one-le-pow, div-add-mod'}
use native.Mathlib.Omega.{arith}

Acc-below : (k n : ℕ) → n < k → Acc ◌<◌ n
Acc-below zero n h = absurd (omega arith)
Acc-below (suc k) n h = Acc.intro n (λ m hm. Acc-below k m (omega arith))

pub lt_wf : WellFounded ◌<◌
lt_wf = record { apply = λ n. Acc-below (suc n) n (omega arith) }

module _ (z : ℕ → ℕ) (f : ℕ → ℕ → ℕ) where
  -- Any two amounts of fuel that reach `a` give the same digits.
  digits_enough :
      (a : ℕ) → (n : ℕ) → a ≤ n → (m : ℕ) → a ≤ m → (b : ℕ) → digits z f n a b ≡ digits z f m a b
  digits_enough zero zero h zero k b = refl
  digits_enough zero (suc n) h zero k b = refl
  digits_enough zero zero h (suc m) k b = refl
  digits_enough zero (suc n) h (suc m) k b = refl
  digits_enough (suc a) zero h m k b = absurd (omega arith)
  digits_enough (suc a) (suc n) h zero k b = absurd (omega arith)
  digits_enough (suc a) (suc n) h (suc m) k b =
      ap (λ (t : ℕ). t * 2 + f (suc a % 2) (b % 2))
        (digits_enough (suc a / 2) n (omega arith) m (omega arith) (b / 2))

  digits_step :
      (a b : ℕ)
      → bitwise z f (suc a) b ≡ bitwise z f (suc a / 2) (b / 2) * 2 + f (suc a % 2) (b % 2)
  digits_step a b =
      omega (arith, digits_enough (suc a / 2) a (omega arith) (suc a / 2) (omega arith) (b / 2))

differ_bits : (x y : ℕ) → x < 2 → y < 2 → differ x y ≡ (x + y) % 2
differ_bits zero y p q = omega arith
differ_bits (suc zero) zero p q = refl
differ_bits (suc zero) (suc zero) p q = refl
differ_bits (suc zero) (suc (suc y)) p q = absurd (omega arith)
differ_bits (suc (suc x)) y p q = absurd (omega arith)

pub bit_xor_step : (a b : ℕ) → bit_xor a b ≡ bit_xor (a / 2) (b / 2) * 2 + (a % 2 + b % 2) % 2
bit_xor_step zero b = simp bit_xor-bitwise (omega arith)
bit_xor_step (suc a) b = simp bit_xor-bitwise (
    digits_step (λ y. y) differ a b
    ∙ ap (λ (t : ℕ). bitwise (λ y. y) differ (suc a / 2) (b / 2) * 2 + t)
        (differ_bits (suc a % 2) (b % 2) (omega arith) (omega arith)))

-- The lowest digits of a conjunction and of a disjunction, and what is left.
pub bit_and_step : (x y : ℕ) → bit_and x y ≡ min (x % 2) (y % 2) + 2 * bit_and (x / 2) (y / 2)
bit_and_step zero y = simp bit_and-bitwise (omega arith)
bit_and_step (suc x) y =
    let lowest = digits_step (λ _. 0) min x y in simp bit_and-bitwise (omega (arith, lowest))

pub bit_or_step : (x y : ℕ) → bit_or x y ≡ max (x % 2) (y % 2) + 2 * bit_or (x / 2) (y / 2)
bit_or_step zero y = simp bit_or-bitwise (omega arith)
bit_or_step (suc x) y =
    let lowest = digits_step (λ y. y) max x y in simp bit_or-bitwise (omega (arith, lowest))

-- Each law below goes from the halves to the numbers: an induction on a bound for their sum.
xor_comm_below : (n a b : ℕ) → a + b ≤ n → bit_xor a b ≡ bit_xor b a
xor_comm_below n zero zero h = refl
xor_comm_below zero zero (suc b) h = absurd (omega arith)
xor_comm_below zero (suc a) b h = absurd (omega arith)
xor_comm_below (suc n) zero (suc b) h = omega (
  arith,
  bit_xor_step 0 (suc b),
  bit_xor_step (suc b) 0,
  xor_comm_below n 0 (suc b / 2) (omega arith),
)
xor_comm_below (suc n) (suc a) b h = omega (
  arith,
  bit_xor_step (suc a) b,
  bit_xor_step b (suc a),
  xor_comm_below n (suc a / 2) (b / 2) (omega arith),
)

pub xor_comm : (a b : ℕ) → bit_xor a b ≡ bit_xor b a
xor_comm a b = xor_comm_below (a + b) a b (omega arith)

pub zero-xor : (a : ℕ) → bit_xor 0 a ≡ a
zero-xor a = simp bit_xor-bitwise

pub xor-zero : (a : ℕ) → bit_xor a 0 ≡ a
xor-zero a = xor_comm a 0 ∙ zero-xor a

xor_self_below : (n a : ℕ) → a ≤ n → bit_xor a a ≡ 0
xor_self_below n zero h = refl
xor_self_below zero (suc a) h = absurd (omega arith)
xor_self_below (suc n) (suc a) h =
    omega (arith, bit_xor_step (suc a) (suc a), xor_self_below n (suc a / 2) (omega arith))

pub xor_self : (a : ℕ) → bit_xor a a ≡ 0
xor_self a = xor_self_below a a (omega arith)

xor_halves :
    (a b : ℕ)
    → (bit_xor a b / 2 ≡ bit_xor (a / 2) (b / 2)) × (bit_xor a b % 2 ≡ (a % 2 + b % 2) % 2)
xor_halves a b = omega (arith, bit_xor_step a b)

xor_assoc_below : (n a b c : ℕ) → a + b + c ≤ n → bit_xor (bit_xor a b) c ≡ bit_xor a (bit_xor b c)
xor_assoc_below zero a b c h =
    let p : a ≡ 0 = omega arith in
    let q : b ≡ 0 = omega arith in let r : c ≡ 0 = omega arith in rw (p, q, r)
xor_assoc_below (suc n) a b c h = omega (
  arith,
  bit_xor_step (bit_xor a b) c,
  bit_xor_step a (bit_xor b c),
  xor_halves a b,
  xor_halves b c,
  ap (λ (t : ℕ). bit_xor t (c / 2)) (xor_halves a b).0,
  ap (λ (t : ℕ). bit_xor (a / 2) t) (xor_halves b c).0,
  xor_assoc_below n (a / 2) (b / 2) (c / 2) (omega arith),
)

pub xor_assoc : (a b c : ℕ) → bit_xor (bit_xor a b) c ≡ bit_xor a (bit_xor b c)
xor_assoc a b c = xor_assoc_below (a + b + c) a b c (omega arith)

double_pow : (k m : ℕ) → 2 * (m * 2 ^ k) ≡ m * 2 ^ suc k
double_pow k m = omega (arith, ap (λ (power : ℕ). m * power) (pow-suc 2 k))

times_one : (q : ℕ) → q * 2 ^ 0 + 0 ≡ q
times_one q = omega arith

-- A number is split at bit `k`: the parts are combined on their own.
pub xor_fields :
    (k p q r s : ℕ)
    → r < 2 ^ k
    → s < 2 ^ k
    → bit_xor (p * 2 ^ k + r) (q * 2 ^ k + s) ≡ bit_xor p q * 2 ^ k + bit_xor r s
xor_fields zero p q r s hr hs =
    let er : r ≡ 0 = omega arith in
    let es : s ≡ 0 = omega arith in
    rw (er, es) (ap₂ bit_xor (times_one p) (times_one q) ∙ omega (arith, xor-zero 0))
xor_fields (suc k) p q r s hr hs = ground (
  arith,
  bit_xor_step (p * 2 ^ suc k + r) (q * 2 ^ suc k + s),
  bit_xor_step r s,
  double_pow k p,
  double_pow k q,
  double_pow k (bit_xor p q),
  pow-suc 2 k,
  xor_fields k p q (r / 2) (s / 2) (omega arith) (omega arith),
)

pub xor-lt : (k a b : ℕ) → a < 2 ^ k → b < 2 ^ k → bit_xor a b < 2 ^ k
xor-lt zero a b ha hb =
    let ea : a ≡ 0 = omega arith in
    let eb : b ≡ 0 = omega arith in rw (ea, eb) (omega (arith, xor-zero 0))
xor-lt (suc k) a b ha hb = omega (
  arith,
  bit_xor_step a b,
  pow-suc 2 k,
  xor-lt k (a / 2) (b / 2) (omega (arith, pow-suc 2 k)) (omega (arith, pow-suc 2 k)),
)

bit_and-zero_below : (n a : ℕ) → a ≤ n → bit_and a 0 ≡ 0
bit_and-zero_below n zero h = refl
bit_and-zero_below zero (suc a) h = absurd (omega arith)
bit_and-zero_below (suc n) (suc a) h =
    omega (arith, bit_and_step (suc a) 0, bit_and-zero_below n (suc a / 2) (omega arith))

pub bit_and-zero : (a : ℕ) → bit_and a 0 ≡ 0
bit_and-zero a = bit_and-zero_below a a (omega arith)

bit_and_low : (k high low : ℕ) → low < 2 ^ k → bit_and (high * 2 ^ k + low) (2 ^ k - 1) ≡ low
bit_and_low zero high low fits =
    let none : low ≡ 0 = omega arith in rw none (bit_and-zero (high * 2 ^ 0 + 0))
bit_and_low (suc k) high low fits =
    let below = bit_and_low k high (low / 2) (omega (arith, pow-suc 2 k)) in
    ground (
      arith,
      below,
      double_pow k high,
      bit_and_step (high * 2 ^ suc k + low) (2 ^ suc k - 1),
      pow-suc 2 k,
    )

-- A mask of `k` low bits is the remainder by `2 ^ k`.
pub bit_and_mask : (k a : ℕ) → bit_and a (2 ^ k - 1) ≡ a % 2 ^ k
bit_and_mask k a =
    let some_values : 0 < 2 ^ k = one-le-pow k 2 (omega arith) in
    ground (arith, bit_and_low k (a / 2 ^ k) (a % 2 ^ k))

-- A mask with its `k` low bits clear drops these bits.
pub bit_and_high :
    (k h l m : ℕ) → l < 2 ^ k → bit_and (h * 2 ^ k + l) (m * 2 ^ k) ≡ bit_and h m * 2 ^ k
bit_and_high zero h l m fits =
    let left : h * 2 ^ 0 + l ≡ h = omega arith in
    let right : m * 2 ^ 0 ≡ m = omega arith in ap₂ bit_and left right ∙ omega arith
bit_and_high (suc k) h l m fits =
    let below = bit_and_high k h (l / 2) m (omega (arith, pow-suc 2 k)) in
    let left : (h * 2 ^ suc k + l) / 2 ≡ h * 2 ^ k + l / 2 = omega (arith, double_pow k h) in
    let right : m * 2 ^ suc k / 2 ≡ m * 2 ^ k = omega (arith, double_pow k m) in
    omega (
      arith,
      below,
      bit_and_step (h * 2 ^ suc k + l) (m * 2 ^ suc k),
      ap₂ bit_and left right,
      double_pow k m,
      double_pow k (bit_and h m),
    )

pub xor_split :
    (k a b : ℕ)
    → bit_xor a b ≡ bit_xor (a / 2 ^ k) (b / 2 ^ k) * 2 ^ k + bit_xor (a % 2 ^ k) (b % 2 ^ k)
xor_split k a b =
    let low : 0 < 2 ^ k = one-le-pow k 2 (omega arith) in
    sym (ap₂ bit_xor (div-add-mod' a (2 ^ k)) (div-add-mod' b (2 ^ k)))
    ∙ xor_fields k (a / 2 ^ k) (b / 2 ^ k) (a % 2 ^ k) (b % 2 ^ k) (omega arith) (omega arith)

-- The low byte and the rest.
pub xor_byte :
    (a b : ℕ)
    → (bit_xor a b % 256 ≡ bit_xor (a % 256) (b % 256))
      × (bit_xor a b / 256 ≡ bit_xor (a / 256) (b / 256))
      × (bit_xor (a % 256) (b % 256) < 256)
xor_byte a b =
    let low : bit_xor (a % 256) (b % 256) < 256 = xor-lt 8 _ _ (omega arith) (omega arith) in
    omega (arith, xor_split 8 a b)

pub xor_cancel : (p a b : ℕ) → bit_xor (bit_xor p a) (bit_xor p b) ≡ bit_xor a b
xor_cancel p a b =
    ap (λ t. bit_xor t (bit_xor p b)) (xor_comm p a)
    ∙ xor_assoc a p (bit_xor p b)
    ∙ ap (bit_xor a) (sym (xor_assoc p p b) ∙ ap (λ t. bit_xor t b) (xor_self p) ∙ zero-xor b)

-- `!x` of a word of `k` bits.
pub xor_ones : (k x : ℕ) → x < 2 ^ k → bit_xor x (2 ^ k - 1) ≡ 2 ^ k - 1 - x
xor_ones zero x h = let e : x ≡ 0 = omega arith in rw e (xor-zero 0)
xor_ones (suc k) x h =
    let half : (2 ^ suc k - 1) / 2 ≡ 2 ^ k - 1 = omega (arith, pow-suc 2 k) in
    omega (
      arith,
      bit_xor_step x (2 ^ suc k - 1),
      pow-suc 2 k,
      one-le-pow k 2,
      ap (bit_xor (x / 2)) half,
      xor_ones k (x / 2) (omega (arith, pow-suc 2 k)),
    )
