-- ===== src/Examples/Checks.antt =====
-- Checks by evaluation of what the examples assume.
use nightrun.Prelude.{ℕ, zero, suc, ◌≤◌, ◌<◌, ◌≡◌, Bool, true, ◌&&◌, List, [], ◌∷◌, ltb, arith}
use nightrun.Prelude.Bytes.{IsBytes}

unfoldable pub all_bytes : List ℕ → Bool
all_bytes [] = true
all_bytes (x ∷ xs) = ltb x 256 && all_bytes xs

pub all_bytes-IsBytes : (xs : List ℕ) → all_bytes xs ≡ true → IsBytes xs
unfolding all_bytes
all_bytes-IsBytes [] h = tt
all_bytes-IsBytes (x ∷ xs) h = (ground arith, all_bytes-IsBytes xs (ground arith))

unfoldable pub all_below : ℕ → (ℕ → Bool) → Bool
all_below zero p = true
all_below (suc n) p = p n && all_below n p

pub all_below_lem : (n : ℕ) (p : ℕ → Bool) (x : ℕ) → all_below n p ≡ true → x < n → p x ≡ true
unfolding all_below
all_below_lem zero p x h lt = absurd (omega arith)
all_below_lem (suc n) p x h lt = ground (arith, all_below_lem n p x)

pub at_most_256 : (x : ℕ) → ltb x 257 ≡ true → x ≤ 256
at_most_256 x h = ground arith
