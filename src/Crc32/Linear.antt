-- ===== src/Crc32/Linear.antt =====
-- The bit step is linear over exclusive or, and eight steps split off the low byte.
use nightrun.Prelude.{
  ℕ, zero, suc, ◌+◌, ◌*◌, ◌/◌, ◌%◌, ◌<◌, ◌^◌, bit_xor, ◌≡◌, refl, sym, ap, ap₂, ◌∙◌, ◌⊎◌, inl, inr,
  arith,
}
use nightrun.Prelude.Bits.{
  bit_xor_step, bit_and_mask, xor_comm, xor_assoc, xor_cancel, xor-zero, zero-xor, xor_fields,
  xor-lt,
}
use native.Mathlib.Nat.{pow-suc}
use nightrun.Crc32.{poly, bit_step, bit_steps}

-- One step as arithmetic.
pub bit_step_even : (c : ℕ) → c % 2 ≡ 0 → bit_step c ≡ c / 2
unfolding bit_step
bit_step_even c h = ground (arith, bit_and_mask 1 c)

pub bit_step_odd : (c : ℕ) → c % 2 ≡ 1 → bit_step c ≡ bit_xor poly (c / 2)
unfolding bit_step
bit_step_odd c h = ground (arith, bit_and_mask 1 c)

halves : (a b : ℕ) → bit_xor a b / 2 ≡ bit_xor (a / 2) (b / 2)
halves a b = omega (arith, bit_xor_step a b)

pub parity : (n : ℕ) → (n % 2 ≡ 0) ⊎ (n % 2 ≡ 1)
parity n = grind arith

pub bit_step-xor : (a b : ℕ) → bit_step (bit_xor a b) ≡ bit_xor (bit_step a) (bit_step b)
bit_step-xor a b = elim (parity a) [
  | inl ha ↦ elim (parity b) [
    | inl hb ↦
        rw
          (
            bit_step_even (bit_xor a b) (omega (arith, bit_xor_step a b)),
            bit_step_even a ha,
            bit_step_even b hb,
          )
          (halves a b)
    | inr hb ↦
        rw
          (
            bit_step_odd (bit_xor a b) (omega (arith, bit_xor_step a b)),
            bit_step_even a ha,
            bit_step_odd b hb,
            halves a b,
          )
          (left_comm poly (a / 2) (b / 2))
  ]
  | inr ha ↦ elim (parity b) [
    | inl hb ↦
        rw
          (
            bit_step_odd (bit_xor a b) (omega (arith, bit_xor_step a b)),
            bit_step_odd a ha,
            bit_step_even b hb,
            halves a b,
          )
          (sym (xor_assoc poly (a / 2) (b / 2)))
    | inr hb ↦
        rw
          (
            bit_step_even (bit_xor a b) (omega (arith, bit_xor_step a b)),
            bit_step_odd a ha,
            bit_step_odd b hb,
            halves a b,
          )
          (sym (xor_cancel poly (a / 2) (b / 2)))
  ]
]
  where
    left_comm : (p x y : ℕ) → bit_xor p (bit_xor x y) ≡ bit_xor x (bit_xor p y)
    left_comm p x y = sym (xor_assoc p x y) ∙ ap (λ t. bit_xor t y) (xor_comm p x) ∙ xor_assoc x p y

bit_steps-xor : (k a b : ℕ) → bit_steps k (bit_xor a b) ≡ bit_xor (bit_steps k a) (bit_steps k b)
unfolding bit_steps
bit_steps-xor zero a b = refl
bit_steps-xor (suc k) a b =
    ap (bit_steps k) (bit_step-xor a b) ∙ bit_steps-xor k (bit_step a) (bit_step b)

-- `k` steps shift `k` zero bits out.
pub bit_steps_shift : (k q : ℕ) → bit_steps k (q * 2 ^ k) ≡ q
unfolding bit_steps
bit_steps_shift zero q = omega arith
bit_steps_shift (suc k) q =
    ap (bit_steps k) (bit_step_even (q * 2 ^ suc k) (omega (arith, double)) ∙ omega (arith, double))
    ∙ bit_steps_shift k q
  where
    double : q * 2 ^ suc k ≡ 2 * (q * 2 ^ k)
    double = omega (arith, ap (λ (t : ℕ). q * t) (pow-suc 2 k))

-- The eight steps for one byte.
abbrev pub byte_step : ℕ → ℕ
byte_step = bit_steps 8

pub byte_step-xor : (a b : ℕ) → byte_step (bit_xor a b) ≡ bit_xor (byte_step a) (byte_step b)
byte_step-xor = bit_steps-xor 8

pub byte_step_split : (c : ℕ) → byte_step c ≡ bit_xor (byte_step (c % 256)) (c / 256)
byte_step_split c =
    ap byte_step parts
    ∙ byte_step-xor (c % 256) (c / 256 * 2 ^ 8)
    ∙ ap (bit_xor (byte_step (c % 256))) (bit_steps_shift 8 (c / 256))
  where
    parts : c ≡ bit_xor (c % 256) (c / 256 * 2 ^ 8)
    parts =
        let low : c % 256 ≡ 0 * 2 ^ 8 + c % 256 = omega arith in
        let high : c / 256 * 2 ^ 8 ≡ c / 256 * 2 ^ 8 + 0 = omega arith in
        omega (
          arith,
          ap₂ bit_xor low high,
          xor_fields 8 0 (c / 256) (c % 256) 0 (omega arith) (omega arith),
          xor-zero (c % 256),
          zero-xor (c / 256),
        )

bit_step-lt : (c : ℕ) → c < 2 ^ 32 → bit_step c < 2 ^ 32
bit_step-lt c h = elim (parity c) [
  | inl e ↦ rw (bit_step_even c e) (omega arith)
  | inr o ↦ rw (bit_step_odd c o) (xor-lt 32 poly (c / 2) (omega arith) (omega arith))
]

pub bit_steps-lt : (k c : ℕ) → c < 2 ^ 32 → bit_steps k c < 2 ^ 32
unfolding bit_steps
bit_steps-lt zero c h = h
bit_steps-lt (suc k) c h = bit_steps-lt k (bit_step c) (bit_step-lt c h)
