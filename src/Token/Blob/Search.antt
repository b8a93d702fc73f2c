-- ===== src/Token/Blob/Search.antt =====
-- `merge`: the binary search in the merge table ends, and finds what the table holds.
use nightrun.Prelude.{
  ℕ, zero, suc, ◌+◌, ◌-◌, ◌*◌, ◌/◌, ◌^◌, ◌≤◌, ◌<◌, ◌≡◌, ◌≢◌, refl, ap, inl, inr, Bool-cases, ltb,
  ltb→lt, List, Option, some, none, Safe, Safe-weaken, Returns, All-get_or, All-get_or, arith,
}
use nightrun.Prelude.Bytes.{IsByte, IsBytes, le32_of, le32_at-lt}
use nightrun.Token.Blob.{Tokenizer, Error, pair_key, merge_loop, merge}
use nightrun.Token.Blob.Sections.{IsValid}

-- The rows of the merge table.
abbrev pub key_at : Tokenizer → ℕ → ℕ
key_at t i = pair_key (le32_of t.merges (i * 16)) (le32_of t.merges (i * 16 + 4))

abbrev pub result_at : Tokenizer → ℕ → ℕ
result_at t i = le32_of t.merges (i * 16 + 8)

abbrev pub rank_at : Tokenizer → ℕ → ℕ
rank_at t i = le32_of t.merges (i * 16 + 12)

-- The converter sorts the table by its keys.
abbrev pub IsSorted : Tokenizer → Type 0
IsSorted t = (i j : ℕ) → i < j → j < t.merge_count → key_at t i < key_at t j

-- The answer for a key among the rows from `lo` to `hi`.
abbrev pub Answer : Tokenizer → ℕ → ℕ → ℕ → Option (ℕ × ℕ) → Type 0
Answer t key lo hi none = (i : ℕ) → lo ≤ i → i < hi → key_at t i ≢ key
Answer t key lo hi (some (result, rank)) =
    (i : ℕ) × (lo ≤ i)
    × (i < hi)
    × (key_at t i ≡ key)
    × (result ≡ result_at t i)
    × (rank ≡ rank_at t i)

module _ (t : Tokenizer) (valid : IsValid t) (sorted : IsSorted t) (key : ℕ) where
  -- Fewer rows leave the answer, where the others have other keys.
  widen :
      (lo hi lo' hi' : ℕ)
      → lo' ≤ lo
      → hi ≤ hi'
      → ((i : ℕ) → lo' ≤ i → i < lo → key_at t i ≢ key)
      → ((i : ℕ) → hi ≤ i → i < hi' → key_at t i ≢ key)
      → (o : Option (ℕ × ℕ)) → Answer t key lo hi o
      → Answer t key lo' hi' o
  widen lo hi lo' hi' hl hh below above none none_here = λ i h k. elim (Bool-cases (ltb i lo)) [
    | inl left ↦ below i h (ltb→lt i lo left)
    | inr not_left ↦ elim (Bool-cases (ltb i hi)) [
      | inl mid ↦ none_here i (ground arith) (ltb→lt i hi mid)
      | inr right ↦ above i (ground arith) k
    ]
  ]
  widen lo hi lo' hi' hl hh below above (some (result, rank)) (i, h, k, e, r, q) =
      (i, omega arith, omega arith, e, r, q)

  module _ (lo hi mid : ℕ) (bound : hi ≤ t.merge_count) (inside : lo ≤ mid)
      (before : mid < hi) where
    drop_low :
        key_at t mid < key
        → (o : Option (ℕ × ℕ)) → Answer t key (mid + 1) hi o
        → Answer t key lo hi o
    drop_low small =
        widen (mid + 1) hi lo hi (omega arith) (omega arith)
          (λ i h k e. elim (Bool-cases (ltb i mid)) [
            | inl less ↦
                let order = sorted i mid (ltb→lt i mid less) (omega arith) in absurd (omega arith)
            | inr same ↦
                let at_mid : i ≡ mid = ground arith in
                let key_same : key_at t i ≡ key_at t mid = ap (key_at t) at_mid in
                absurd (omega arith)
          ])
          (λ i h k. absurd (omega arith))

    drop_high :
        key < key_at t mid → (o : Option (ℕ × ℕ)) → Answer t key lo mid o → Answer t key lo hi o
    drop_high large =
        widen lo mid lo hi (omega arith) (omega arith) (λ i h k. absurd (omega arith))
          (λ i h k e. elim (Bool-cases (ltb mid i)) [
            | inl more ↦
                let order = sorted mid i (ltb→lt mid i more) (omega arith) in absurd (omega arith)
            | inr same ↦
                let at_mid : i ≡ mid = ground arith in
                let key_same : key_at t i ≡ key_at t mid = ap (key_at t) at_mid in
                absurd (omega arith)
          ])

  merge_loop-Answer :
      (fuel lo hi : ℕ)
      → hi ≤ t.merge_count
      → hi - lo < fuel
      → Safe (Answer t key lo hi) (merge_loop fuel t key lo hi)
  unfolding merge_loop
  merge_loop-Answer zero lo hi bound enough = absurd (omega arith)
  merge_loop-Answer (suc fuel) lo hi bound enough = elim (Bool-cases (ltb lo hi)) [
    | inr empty ↦ rw empty (λ i h k e. absurd (ground arith))
    | inl open_range ↦
        let some_rows : lo < hi = ltb→lt lo hi open_range in
        let mid = (lo + hi) / 2 in
        rw
          (
            open_range,
            le32_at-lt {E = Error} t.merges (mid * 16) (omega (arith, valid.merges_sized)),
            le32_at-lt {E = Error} t.merges (mid * 16 + 4) (omega (arith, valid.merges_sized)),
          )
          (elim (Bool-cases (ltb (key_at t mid) key)) [
            | inl small ↦ rw small (
                Safe-weaken (Answer t key lo hi) (Answer t key (mid + 1) hi)
                  (merge_loop fuel t key (mid + 1) hi)
                  (drop_low lo hi mid bound (omega arith) (omega arith)
                    (ltb→lt (key_at t mid) key small))
                  (merge_loop-Answer fuel (mid + 1) hi bound (omega arith)))
            | inr not_small ↦ elim (Bool-cases (ltb key (key_at t mid))) [
              | inl large ↦
                  rw (not_small, large)
                    (Safe-weaken (Answer t key lo hi) (Answer t key lo mid)
                      (merge_loop fuel t key lo mid)
                      (drop_high lo hi mid bound (omega arith) (omega arith)
                        (ltb→lt key (key_at t mid) large))
                      (merge_loop-Answer fuel lo mid (omega arith) (omega arith)))
              | inr not_large ↦
                  let same : key_at t mid ≡ key = ground arith in
                  rw
                    (
                      not_small,
                      not_large,
                      le32_at-lt {E = Error} t.merges (mid * 16 + 8)
                          (omega (arith, valid.merges_sized)),
                      le32_at-lt {E = Error} t.merges (mid * 16 + 12)
                          (omega (arith, valid.merges_sized)),
                    )
                    (mid, omega arith, omega arith, same, refl, refl)
            ]
          ])
  ]

-- In a valid tokenizer whose merge table is sorted, the binary search of `merge` ends without a
-- panic: it returns result and rank of the row with the key of the pair, or nothing if there is none.
pub merge-Answer :
    (t : Tokenizer)
    → IsValid t
    → IsSorted t
    → (left right : ℕ) → Safe (Answer t (pair_key left right) 0 t.merge_count) (merge t left right)
unfolding merge
merge-Answer t valid sorted left right =
    merge_loop-Answer t valid sorted (pair_key left right) (t.merge_count + 1) 0 t.merge_count
      (omega arith) (omega arith)

-- The ids of the table are 32-bit numbers.
abbrev pub SmallResult : Option (ℕ × ℕ) → Type 0
SmallResult none = Unit
SmallResult (some (result, rank)) = result < 2 ^ 32

pub le32_of-lt : (xs : List ℕ) (i : ℕ) → IsBytes xs → le32_of xs i < 2 ^ 32
le32_of-lt xs i h = omega (
  arith,
  All-get_or IsByte xs i 0 h (omega arith),
  All-get_or IsByte xs (i + 1) 0 h (omega arith),
  All-get_or IsByte xs (i + 2) 0 h (omega arith),
  All-get_or IsByte xs (i + 2 + 1) 0 h (omega arith),
)

module _ (t : Tokenizer) (valid : IsValid t) (bytes : IsBytes t.merges) (key : ℕ) where
  merge_loop-Returns :
      (fuel lo hi : ℕ)
      → hi ≤ t.merge_count
      → hi - lo < fuel
      → Returns SmallResult (merge_loop fuel t key lo hi)
  unfolding merge_loop
  merge_loop-Returns zero lo hi bound enough = absurd (omega arith)
  merge_loop-Returns (suc fuel) lo hi bound enough = elim (Bool-cases (ltb lo hi)) [
    | inr empty ↦ rw empty tt
    | inl open_range ↦
        let some_rows : lo < hi = ltb→lt lo hi open_range in
        let mid = (lo + hi) / 2 in
        rw
          (
            open_range,
            le32_at-lt {E = Error} t.merges (mid * 16) (omega (arith, valid.merges_sized)),
            le32_at-lt {E = Error} t.merges (mid * 16 + 4) (omega (arith, valid.merges_sized)),
          )
          (elim (Bool-cases (ltb (key_at t mid) key)) [
            | inl small ↦ rw small (merge_loop-Returns fuel (mid + 1) hi bound (omega arith))
            | inr not_small ↦ elim (Bool-cases (ltb key (key_at t mid))) [
              | inl large ↦
                  rw (not_small, large) (merge_loop-Returns fuel lo mid (omega arith) (omega arith))
              | inr not_large ↦
                  rw
                    (
                      not_small,
                      not_large,
                      le32_at-lt {E = Error} t.merges (mid * 16 + 8)
                          (omega (arith, valid.merges_sized)),
                      le32_at-lt {E = Error} t.merges (mid * 16 + 12)
                          (omega (arith, valid.merges_sized)),
                    )
                    (le32_of-lt t.merges (mid * 16 + 8) bytes)
            ]
          ])
  ]

-- Sorted or not, the search ends and returns.
pub merge-Returns :
    (t : Tokenizer)
    → IsValid t
    → IsBytes t.merges
    → (left right : ℕ) → Returns SmallResult (merge t left right)
unfolding merge
merge-Returns t valid bytes left right =
    merge_loop-Returns t valid bytes (pair_key left right) (t.merge_count + 1) 0 t.merge_count
      (omega arith) (omega arith)
