-- ===== src/Prelude/Bytes.antt =====
-- Byte slices: reads, subslices and writes that panic out of range, and the byte orders.
use nightrun.Prelude.Tests.{leb, ◌==◌, if◌then◌else◌, le→leb}
use nightrun.Prelude.Lists.{
  length, get_elem?, get_or, take, drop, All, get_elem?-get_or, get_or-append_left, length-take,
  length-drop, length-append,
}
use nightrun.Prelude.Fallible.{Result, ok, panic, ◌>>=◌, unwrap}
use Prim.Native.Nat.{ℕ, zero, suc, ◌+◌, ◌-◌, ◌*◌, ◌/◌, ◌%◌, ◌^◌, ◌≤◌, ◌<◌}
use mathlib.Core.Path.{◌≡◌, refl, ap, ◌∙◌}
use mathlib.Core.Logic.{◌↔◌}
use mathlib.Core.Bool.{Bool, true, false, ◌&&◌}
use mathlib.Core.Option.{Option, none, some}
use mathlib.Core.List.{List, [], ◌∷◌, ◌++◌}
use native.Mathlib.Omega.{arith}

abbrev pub IsByte : ℕ → Type 0
IsByte b = b < 256

abbrev pub IsBytes : List ℕ → Type 0
IsBytes = All IsByte

-- `a == b` on slices.
abbrev pub bytes_eq : List ℕ → List ℕ → Bool
bytes_eq [] [] = true
bytes_eq [] (y ∷ ys) = false
bytes_eq (x ∷ xs) [] = false
bytes_eq (x ∷ xs) (y ∷ ys) = (x == y) && bytes_eq xs ys

-- A write of `ys` over `xs` from `off` on; none if it does not fit.
abbrev onto {ℓ} : {A : Type ℓ} → A → Option (List A) → Option (List A)
onto x none = none
onto x (some t) = some (x ∷ t)

abbrev pub overwrite? {ℓ} : {A : Type ℓ} → List A → ℕ → List A → Option (List A)
overwrite? xs zero [] = some xs
overwrite? [] zero (y ∷ ys) = none
overwrite? (x ∷ xs) zero (y ∷ ys) = onto y (overwrite? xs zero ys)
overwrite? [] (suc off) ys = none
overwrite? (x ∷ xs) (suc off) ys = onto x (overwrite? xs off ys)

-- What a write that fits leaves.
abbrev pub overwritten {ℓ} : {A : Type ℓ} → List A → ℕ → List A → List A
overwritten xs off ys = take off xs ++ (ys ++ drop (off + length ys) xs)

module _ {E : Type 0} where
  -- `xs[i]`
  abbrev pub at : List ℕ → ℕ → Result E ℕ
  at xs i = unwrap (get_elem? xs i)

  -- `&xs[a..b]`
  abbrev pub sub : List ℕ → ℕ → ℕ → Result E (List ℕ)
  sub xs a b = if leb a b && leb b (length xs) then ok (take (b - a) (drop a xs)) else panic

  -- `xs[off..off + ys.len()].copy_from_slice(ys)`
  abbrev pub write : List ℕ → ℕ → List ℕ → Result E (List ℕ)
  write xs off ys = unwrap (overwrite? xs off ys)

  abbrev pub be16_at : List ℕ → ℕ → Result E ℕ
  be16_at xs off = do a ← at xs off; b ← at xs (off + 1); ok (a * 256 + b)

  abbrev pub be32_at : List ℕ → ℕ → Result E ℕ
  be32_at xs off = do a ← be16_at xs off; b ← be16_at xs (off + 2); ok (a * 65536 + b)

  abbrev pub le16_at : List ℕ → ℕ → Result E ℕ
  le16_at xs off = do a ← at xs off; b ← at xs (off + 1); ok (a + 256 * b)

  abbrev pub le32_at : List ℕ → ℕ → Result E ℕ
  le32_at xs off = do a ← le16_at xs off; b ← le16_at xs (off + 2); ok (a + 65536 * b)

  abbrev pub le64_at : List ℕ → ℕ → Result E ℕ
  le64_at xs off = do a ← le32_at xs off; b ← le32_at xs (off + 4); ok (a + 2 ^ 32 * b)

-- `value.to_be_bytes()`
abbrev pub be16 : ℕ → List ℕ
be16 v = v / 256 % 256 ∷ v % 256 ∷ []

abbrev pub be32 : ℕ → List ℕ
be32 v = v / 2 ^ 24 % 256 ∷ v / 2 ^ 16 % 256 ∷ v / 256 % 256 ∷ v % 256 ∷ []

-- The bytes of a big-endian integer read back as the integer.
pub be16_value : (v : ℕ) → v < 2 ^ 16 → v / 256 % 256 * 256 + v % 256 ≡ v
be16_value v h = omega arith

pub be32_value :
    (v : ℕ)
    → v < 2 ^ 32
    → (v / 2 ^ 24 % 256 * 256 + v / 2 ^ 16 % 256) * 65536 + (v / 256 % 256 * 256 + v % 256) ≡ v
be32_value v h = omega arith

pub overwrite?-fits {ℓ} :
    {A : Type ℓ} (xs : List A) (off : ℕ) (ys : List A)
    → off + length ys ≤ length xs
    → overwrite? xs off ys ≡ some (overwritten xs off ys)
overwrite?-fits xs zero [] h = refl
overwrite?-fits [] zero (y ∷ ys) h = absurd (omega arith)
overwrite?-fits (x ∷ xs) zero (y ∷ ys) h =
    ap (onto y) (overwrite?-fits xs zero ys (omega arith))
    ∙ ap (λ (k : ℕ). some (y ∷ (ys ++ drop k (x ∷ xs)))) next
  where
    next : suc (0 + length ys) ≡ 0 + suc (length ys)
    next = omega arith
overwrite?-fits [] (suc off) ys h = absurd (omega arith)
overwrite?-fits (x ∷ xs) (suc off) ys h =
    ap (onto x) (overwrite?-fits xs off ys (omega arith))
    ∙ ap (λ (k : ℕ). some (x ∷ (take off xs ++ (ys ++ drop k (x ∷ xs))))) next
  where
    next : suc (off + length ys) ≡ suc off + length ys
    next = omega arith

pub length-overwritten {ℓ} :
    {A : Type ℓ} (xs : List A) (off : ℕ) (ys : List A)
    → off + length ys ≤ length xs
    → length (overwritten xs off ys) ≡ length xs
length-overwritten xs off ys h =
    rw (length-append, length-append, length-take, length-drop) (omega arith)

pub bytes_eq_iff : (xs ys : List ℕ) → (bytes_eq xs ys ≡ true) ↔ (xs ≡ ys)
bytes_eq_iff [] [] = ((λ h. refl), (λ h. refl))
bytes_eq_iff [] (y ∷ ys) = ground arith
bytes_eq_iff (x ∷ xs) [] = ground arith
bytes_eq_iff (x ∷ xs) (y ∷ ys) = ground (arith, bytes_eq_iff xs ys)

-- The values that reads in range return.
module _ (xs : List ℕ) where
  abbrev pub be16_of : ℕ → ℕ
  be16_of i = get_or xs i 0 * 256 + get_or xs (i + 1) 0

  abbrev pub be32_of : ℕ → ℕ
  be32_of i = be16_of i * 65536 + be16_of (i + 2)

  abbrev pub le16_of : ℕ → ℕ
  le16_of i = get_or xs i 0 + 256 * get_or xs (i + 1) 0

  abbrev pub le32_of : ℕ → ℕ
  le32_of i = le16_of i + 65536 * le16_of (i + 2)

  abbrev pub le64_of : ℕ → ℕ
  le64_of i = le32_of i + 2 ^ 32 * le32_of (i + 4)

module _ {E : Type 0} (xs : List ℕ) where
  pub at-lt : (i : ℕ) → i < length xs → at {E = E} xs i ≡ ok (get_or xs i 0)
  at-lt i h = ap unwrap (get_elem?-get_or xs i 0 h)

  pub sub-fits :
      (a b : ℕ) → a ≤ b → b ≤ length xs → sub {E = E} xs a b ≡ ok (take (b - a) (drop a xs))
  sub-fits a b h k = rw (le→leb a b h, le→leb b (length xs) k)

  pub write-fits :
      (off : ℕ) (ys : List ℕ)
      → off + length ys ≤ length xs
      → write {E = E} xs off ys ≡ ok (overwritten xs off ys)
  write-fits off ys h = ap unwrap (overwrite?-fits xs off ys h)

  pub be16_at-lt : (i : ℕ) → i + 2 ≤ length xs → be16_at {E = E} xs i ≡ ok (be16_of xs i)
  be16_at-lt i h = rw (at-lt i (omega arith), at-lt (i + 1) (omega arith))

  pub be32_at-lt : (i : ℕ) → i + 4 ≤ length xs → be32_at {E = E} xs i ≡ ok (be32_of xs i)
  be32_at-lt i h = rw (be16_at-lt i (omega arith), be16_at-lt (i + 2) (omega arith))

  pub le16_at-lt : (i : ℕ) → i + 2 ≤ length xs → le16_at {E = E} xs i ≡ ok (le16_of xs i)
  le16_at-lt i h = rw (at-lt i (omega arith), at-lt (i + 1) (omega arith))

  pub le32_at-lt : (i : ℕ) → i + 4 ≤ length xs → le32_at {E = E} xs i ≡ ok (le32_of xs i)
  le32_at-lt i h = rw (le16_at-lt i (omega arith), le16_at-lt (i + 2) (omega arith))

  pub le64_at-lt : (i : ℕ) → i + 8 ≤ length xs → le64_at {E = E} xs i ≡ ok (le64_of xs i)
  le64_at-lt i h = rw (le32_at-lt i (omega arith), le32_at-lt (i + 4) (omega arith))

-- Reads in range do not see what stands behind.
module _ {E : Type 0} (xs ys : List ℕ) where
  at-append : (i : ℕ) → i < length xs → at {E = E} (xs ++ ys) i ≡ at xs i
  at-append i h =
      rw
        (
          at-lt {E = E} (xs ++ ys) i (omega (arith, length-append xs ys)),
          at-lt {E = E} xs i h,
          get_or-append_left xs ys i 0 h,
        )
        refl

  le16_at-append : (i : ℕ) → i + 2 ≤ length xs → le16_at {E = E} (xs ++ ys) i ≡ le16_at xs i
  le16_at-append i h = rw (at-append i (omega arith), at-append (i + 1) (omega arith)) refl

  pub le32_at-append : (i : ℕ) → i + 4 ≤ length xs → le32_at {E = E} (xs ++ ys) i ≡ le32_at xs i
  le32_at-append i h =
      rw (le16_at-append i (omega arith), le16_at-append (i + 2) (omega arith)) refl

  pub le64_at-append : (i : ℕ) → i + 8 ≤ length xs → le64_at {E = E} (xs ++ ys) i ≡ le64_at xs i
  le64_at-append i h =
      rw (le32_at-append i (omega arith), le32_at-append (i + 4) (omega arith)) refl
