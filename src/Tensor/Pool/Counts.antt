-- ===== src/Tensor/Pool/Counts.antt =====
-- Sums and predicates over the list of the pool's threads, of which one is replaced.
use nightrun.Prelude.{
  ℕ, zero, suc, ◌+◌, ◌≡◌, List, [], ◌∷◌, ◌++◌, replicate, get_elem?, set, some, All, arith, refl,
}

module _ {ℓ} {A : Type ℓ} where
  abbrev pub sum_of : (A → ℕ) → List A → ℕ
  sum_of f [] = 0
  sum_of f (x ∷ xs) = f x + sum_of f xs

  pub sum_of-set :
      (f : A → ℕ) (xs : List A) (i : ℕ) (x y : A)
      → get_elem? xs i ≡ some x
      → sum_of f (set xs i y) + f x ≡ sum_of f xs + f y
  sum_of-set f [] i x y h = absurd (cc)
  sum_of-set f (z ∷ xs) zero x y h = let e : z ≡ x = cc in rw e (omega arith)
  sum_of-set f (z ∷ xs) (suc i) x y h = omega (arith, sum_of-set f xs i x y h)

  pub sum_of-append : (f : A → ℕ) (xs ys : List A) → sum_of f (xs ++ ys) ≡ sum_of f xs + sum_of f ys
  sum_of-append f [] ys = omega arith
  sum_of-append f (x ∷ xs) ys = omega (arith, sum_of-append f xs ys)

  pub set_self : (xs : List A) (i : ℕ) (x : A) → get_elem? xs i ≡ some x → set xs i x ≡ xs
  set_self [] i x h = refl
  set_self (z ∷ xs) zero x h = cc
  set_self (z ∷ xs) (suc i) x h = rw (set_self xs i x h) refl

  module _ {κ} (P : A → Type κ) where
    pub All-get_elem? : (xs : List A) (i : ℕ) (x : A) → All P xs → get_elem? xs i ≡ some x → P x
    All-get_elem? [] i x h e = absurd (cc)
    All-get_elem? (z ∷ xs) zero x h e = let e' : z ≡ x = cc in rw (← e') h.0
    All-get_elem? (z ∷ xs) (suc i) x h e = All-get_elem? xs i x h.1 e

    pub All-set : (xs : List A) (i : ℕ) (x : A) → All P xs → P x → All P (set xs i x)
    All-set [] i x h p = tt
    All-set (z ∷ xs) zero x h p = (p, h.1)
    All-set (z ∷ xs) (suc i) x h p = (h.0, All-set xs i x h.1 p)

    pub All-replicate : (n : ℕ) (x : A) → P x → All P (replicate n x)
    All-replicate zero x p = tt
    All-replicate (suc n) x p = (p, All-replicate n x p)
