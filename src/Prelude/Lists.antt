-- ===== src/Prelude/Lists.antt =====
-- Lists measured and indexed by native numbers, under the library's names.
use Prim.Native.Nat.{ℕ, zero, suc, ◌+◌, ◌-◌, ◌<◌, ◌≤◌, min}
use mathlib.Core.Path.{◌≡◌, refl, sym, ap, ◌∙◌}
use mathlib.Core.List.{List, [], ◌∷◌, ◌++◌}
use mathlib.Core.Option.{Option, none, some}
use native.Mathlib.Omega.{arith}

module _ {ℓ} {A : Type ℓ} where
  abbrev pub length : List A → ℕ
  length [] = 0
  length (x ∷ xs) = suc (length xs)

  abbrev pub get_elem? : List A → ℕ → Option A
  get_elem? [] i = none
  get_elem? (x ∷ xs) zero = some x
  get_elem? (x ∷ xs) (suc i) = get_elem? xs i

  abbrev pub get_or : List A → ℕ → A → A
  get_or [] i d = d
  get_or (x ∷ xs) zero d = x
  get_or (x ∷ xs) (suc i) d = get_or xs i d

  -- A write out of bounds changes nothing.
  abbrev pub set : List A → ℕ → A → List A
  set [] i v = []
  set (x ∷ xs) zero v = v ∷ xs
  set (x ∷ xs) (suc i) v = x ∷ set xs i v

  abbrev pub take : ℕ → List A → List A
  take zero xs = []
  take (suc n) [] = []
  take (suc n) (x ∷ xs) = x ∷ take n xs

  abbrev pub drop : ℕ → List A → List A
  drop zero xs = xs
  drop (suc n) [] = []
  drop (suc n) (x ∷ xs) = drop n xs

  abbrev pub replicate : ℕ → A → List A
  replicate zero a = []
  replicate (suc n) a = a ∷ replicate n a

  abbrev pub All {κ} : (A → Type κ) → List A → Type κ
  All P [] = Unit {κ}
  All P (x ∷ xs) = P x × All P xs

module _ {ℓ} {A : Type ℓ} where
  pub length-append : (xs ys : List A) → length (xs ++ ys) ≡ length xs + length ys
  length-append [] ys = omega arith
  length-append (x ∷ xs) ys = omega (arith, length-append xs ys)

  pub length-set : (xs : List A) (i : ℕ) (v : A) → length (set xs i v) ≡ length xs
  length-set [] i v = refl
  length-set (x ∷ xs) zero v = refl
  length-set (x ∷ xs) (suc i) v = ap suc (length-set xs i v)

  pub length-take : (n : ℕ) (xs : List A) → length (take n xs) ≡ min n (length xs)
  length-take zero xs = omega arith
  length-take (suc n) [] = omega arith
  length-take (suc n) (x ∷ xs) = omega (arith, length-take n xs)

  pub length-drop : (n : ℕ) (xs : List A) → length (drop n xs) ≡ length xs - n
  length-drop zero xs = omega arith
  length-drop (suc n) [] = omega arith
  length-drop (suc n) (x ∷ xs) = omega (arith, length-drop n xs)

  pub length-replicate : (n : ℕ) (a : A) → length (replicate n a) ≡ n
  length-replicate zero a = refl
  length-replicate (suc n) a = ap suc (length-replicate n a)

  pub replicate-add : (m n : ℕ) (a : A) → replicate (m + n) a ≡ replicate m a ++ replicate n a
  replicate-add zero n a = ap (λ (k : ℕ). replicate k a) (omega arith)
  replicate-add (suc m) n a =
      ap (λ (k : ℕ). replicate k a) next ∙ ap (λ t. a ∷ t) (replicate-add m n a)
    where
      next : suc m + n ≡ suc (m + n)
      next = omega arith

  pub take-append-drop : (n : ℕ) (xs : List A) → take n xs ++ drop n xs ≡ xs
  take-append-drop zero xs = refl
  take-append-drop (suc n) [] = refl
  take-append-drop (suc n) (x ∷ xs) = ap (λ t. x ∷ t) (take-append-drop n xs)

  pub take_all : (n : ℕ) (xs : List A) → length xs ≤ n → take n xs ≡ xs
  take_all zero [] h = refl
  take_all zero (x ∷ xs) h = absurd (omega arith)
  take_all (suc n) [] h = refl
  take_all (suc n) (x ∷ xs) h = ap (λ t. x ∷ t) (take_all n xs (omega arith))

  pub drop_all : (n : ℕ) (xs : List A) → length xs ≤ n → drop n xs ≡ []
  drop_all zero [] h = refl
  drop_all zero (x ∷ xs) h = absurd (omega arith)
  drop_all (suc n) [] h = refl
  drop_all (suc n) (x ∷ xs) h = drop_all n xs (omega arith)

  pub take-append : (n : ℕ) (xs ys : List A) → length xs ≡ n → take n (xs ++ ys) ≡ xs
  take-append zero [] ys h = refl
  take-append zero (x ∷ xs) ys h = absurd (omega arith)
  take-append (suc n) [] ys h = absurd (omega arith)
  take-append (suc n) (x ∷ xs) ys h = ap (λ t. x ∷ t) (take-append n xs ys (omega arith))

  pub drop-append : (n : ℕ) (xs ys : List A) → length xs ≡ n → drop n (xs ++ ys) ≡ ys
  drop-append zero [] ys h = refl
  drop-append zero (x ∷ xs) ys h = absurd (omega arith)
  drop-append (suc n) [] ys h = absurd (omega arith)
  drop-append (suc n) (x ∷ xs) ys h = drop-append n xs ys (omega arith)

  pub drop-drop : (m n k : ℕ) (xs : List A) → n + m ≡ k → drop m (drop n xs) ≡ drop k xs
  drop-drop m zero k xs h = ap (λ (j : ℕ). drop j xs) (omega arith)
  drop-drop zero (suc n) k [] h = sym (drop_all k [] (omega arith))
  drop-drop (suc m) (suc n) k [] h = sym (drop_all k [] (omega arith))
  drop-drop m (suc n) zero (x ∷ xs) h = absurd (omega arith)
  drop-drop m (suc n) (suc k) (x ∷ xs) h = drop-drop m n k xs (omega arith)

  pub get_or-append_left :
      (xs ys : List A) (i : ℕ) (d : A) → i < length xs → get_or (xs ++ ys) i d ≡ get_or xs i d
  get_or-append_left [] ys i d h = absurd (omega arith)
  get_or-append_left (x ∷ xs) ys zero d h = refl
  get_or-append_left (x ∷ xs) ys (suc i) d h = get_or-append_left xs ys i d (omega arith)

  pub get_elem?-get_or :
      (xs : List A) (i : ℕ) (d : A) → i < length xs → get_elem? xs i ≡ some (get_or xs i d)
  get_elem?-get_or [] i d h = absurd (omega arith)
  get_elem?-get_or (x ∷ xs) zero d h = refl
  get_elem?-get_or (x ∷ xs) (suc i) d h = get_elem?-get_or xs i d (omega arith)

  pub All-append {κ} : (P : A → Type κ) (xs ys : List A) → All P xs → All P ys → All P (xs ++ ys)
  All-append P [] ys h k = k
  All-append P (x ∷ xs) ys h k = (h.0, All-append P xs ys h.1 k)

  pub All-get_or {κ} :
      (P : A → Type κ) (xs : List A) (i : ℕ) (d : A) → All P xs → P d → P (get_or xs i d)
  All-get_or P [] i d h k = k
  All-get_or P (x ∷ xs) zero d h k = h.0
  All-get_or P (x ∷ xs) (suc i) d h k = All-get_or P xs i d h.1 k

  pub All-take {κ} : (P : A → Type κ) (n : ℕ) (xs : List A) → All P xs → All P (take n xs)
  All-take P zero xs h = tt
  All-take P (suc n) [] h = tt
  All-take P (suc n) (x ∷ xs) h = (h.0, All-take P n xs h.1)

  pub All-drop {κ} : (P : A → Type κ) (n : ℕ) (xs : List A) → All P xs → All P (drop n xs)
  All-drop P zero xs h = h
  All-drop P (suc n) [] h = tt
  All-drop P (suc n) (x ∷ xs) h = All-drop P n xs h.1

-- Prefixes and suffixes of a list in two parts.
module _ {ℓ} {A : Type ℓ} where
  pub take-append_split :
      (n k : ℕ) (xs ys : List A) → n - length xs ≡ k → take n (xs ++ ys) ≡ take n xs ++ take k ys
  take-append_split zero k [] ys h = ap (λ (j : ℕ). take j ys) {x = zero} (omega arith)
  take-append_split (suc n) k [] ys h = ap (λ (j : ℕ). take j ys) {x = suc n} (omega arith)
  take-append_split zero zero (x ∷ xs) ys h = refl
  take-append_split zero (suc k) (x ∷ xs) ys h = absurd (omega arith)
  take-append_split (suc n) k (x ∷ xs) ys h =
      ap (λ t. x ∷ t) (take-append_split n k xs ys (omega arith))

  pub drop-append_split :
      (n k : ℕ) (xs ys : List A) → n - length xs ≡ k → drop n (xs ++ ys) ≡ drop n xs ++ drop k ys
  drop-append_split zero k [] ys h = ap (λ (j : ℕ). drop j ys) {x = zero} (omega arith)
  drop-append_split (suc n) k [] ys h = ap (λ (j : ℕ). drop j ys) {x = suc n} (omega arith)
  drop-append_split zero zero (x ∷ xs) ys h = refl
  drop-append_split zero (suc k) (x ∷ xs) ys h = absurd (omega arith)
  drop-append_split (suc n) k (x ∷ xs) ys h = drop-append_split n k xs ys (omega arith)

  pub take-take : (m n k : ℕ) (xs : List A) → min m n ≡ k → take m (take n xs) ≡ take k xs
  take-take zero n zero xs h = refl
  take-take zero n (suc k) xs h = absurd (omega arith)
  take-take (suc m) zero zero xs h = refl
  take-take (suc m) zero (suc k) xs h = absurd (omega arith)
  take-take (suc m) (suc n) zero xs h = absurd (omega arith)
  take-take (suc m) (suc n) (suc k) [] h = refl
  take-take (suc m) (suc n) (suc k) (x ∷ xs) h = ap (λ t. x ∷ t) (take-take m n k xs (omega arith))

  -- A bound beyond the end may be cut down to the length.
  pub take-min :
      (n k : ℕ) (xs : List A) → min n (length xs) ≡ min k (length xs) → take n xs ≡ take k xs
  take-min zero zero xs h = refl
  take-min zero (suc k) [] h = refl
  take-min zero (suc k) (x ∷ xs) h = absurd (omega arith)
  take-min (suc n) zero [] h = refl
  take-min (suc n) zero (x ∷ xs) h = absurd (omega arith)
  take-min (suc n) (suc k) [] h = refl
  take-min (suc n) (suc k) (x ∷ xs) h = ap (λ t. x ∷ t) (take-min n k xs (omega arith))

  pub take-replicate : (n m : ℕ) (a : A) → n ≤ m → take n (replicate m a) ≡ replicate n a
  take-replicate zero m a h = refl
  take-replicate (suc n) zero a h = absurd (omega arith)
  take-replicate (suc n) (suc m) a h = ap (λ t. a ∷ t) (take-replicate n m a (omega arith))

  pub eq-nil_of_length : (xs : List A) → length xs ≡ 0 → xs ≡ []
  eq-nil_of_length [] h = refl
  eq-nil_of_length (x ∷ xs) h = absurd (omega arith)

  pub drop-take : (a b k : ℕ) (xs : List A) → b - a ≡ k → drop a (take b xs) ≡ take k (drop a xs)
  drop-take zero b k xs h = ap (λ (j : ℕ). take j xs) (omega arith)
  drop-take (suc a) zero k xs h = ap (λ (j : ℕ). take j (drop (suc a) xs)) {x = zero} (omega arith)
  drop-take (suc a) (suc b) k [] h = sym (take_all k [] (omega arith))
  drop-take (suc a) (suc b) k (x ∷ xs) h = drop-take a b k xs (omega arith)
