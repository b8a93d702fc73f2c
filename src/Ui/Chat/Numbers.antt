-- ===== src/Ui/Chat/Numbers.antt =====
-- crates/nr-ui/src/chat.rs: the decimal digits that `fmt_u32` writes.
use nightrun.Prelude.{
  ℕ, zero, suc, ◌+◌, ◌-◌, ◌*◌, ◌/◌, ◌%◌, ◌^◌, ◌≤◌, ◌<◌, ◌≡◌, refl, ap, ◌∙◌, inl, inr, List, [], ◌∷◌,
  All, some, true, Bool-cases, ◌==◌, ==_iff, arith,
}
use native.Mathlib.Nat.{pow-suc}
use nightrun.Ui.Chat.{fmt_loop, fmt_u32}

-- The number that decimal digits stand for, behind a number that was read before.
abbrev pub number : ℕ → List ℕ → ℕ
number n [] = n
number n (d ∷ ds) = number (n * 10 + (d - 48)) ds

abbrev pub IsDigit : ℕ → Type 0
IsDigit d = (48 ≤ d) × (d ≤ 57)

digit : (v : ℕ) → IsDigit (48 + v % 10)
digit v = (omega arith, omega arith)

fmt_loop_lem :
    (i v : ℕ) (digits : List ℕ)
    → v < 10 ^ suc i
    → All IsDigit digits
    → (out : List ℕ) × (fmt_loop (suc i) v digits ≡ some out)
      × All IsDigit out
      × (number 0 out ≡ number v digits)
unfolding fmt_loop
fmt_loop_lem zero v digits h ds =
    let e : (v / 10 == 0) ≡ true = ground arith in
    (
      (48 + v % 10) ∷ digits,
      rw e refl,
      (digit v, ds),
      ap (λ (n : ℕ). number n digits) (omega arith),
    )
fmt_loop_lem (suc i) v digits h ds = elim (Bool-cases (v / 10 == 0)) [
  | inl e ↦ (
    (48 + v % 10) ∷ digits,
    rw e refl,
    (digit v, ds),
    ap (λ (n : ℕ). number n digits) (omega (arith, (==_iff (v / 10) 0).0 e)),
  )
  | inr e ↦
      let rest =
        fmt_loop_lem i (v / 10) ((48 + v % 10) ∷ digits) (omega (arith, pow-suc 10 (suc i)))
          (digit v, ds) in
      (
        rest.0,
        rw e rest.1,
        rest.2,
        rest.3
            ∙ ap (λ (n : ℕ). number n digits) {x = v / 10 * 10 + (48 + v % 10 - 48)} {y = v}
                (omega arith),
      )
]

-- For every `u32`, `fmt_u32` stays inside its buffer of ten bytes and writes the decimal digits that
-- read back as the number.
pub number-fmt_u32 :
    (v : ℕ)
    → v < 2 ^ 32
    → (out : List ℕ) × (fmt_u32 v ≡ some out) × All IsDigit out × (number 0 out ≡ v)
unfolding fmt_u32
number-fmt_u32 v h = fmt_loop_lem 9 v [] (omega arith) tt
