-- ===== src/Prelude/Index.antt =====
-- Lists read position by position.
use Prim.Native.Nat.{ℕ, zero, suc, ◌+◌, ◌-◌, ◌<◌, ◌≤◌}
use mathlib.Core.Path.{◌≡◌, refl, ap, ap₂, ◌∙◌}
use mathlib.Core.List.{List, [], ◌∷◌, ◌++◌}
use mathlib.Core.Option.{some}
use native.Mathlib.Omega.{arith}
use nightrun.Prelude.Lists.{length, get_elem?, take, drop, length-take}
use nightrun.Prelude.Bytes.{overwritten}

some_inj {ℓ} : {A : Type ℓ} {x y : A} → some x ≡ some y → x ≡ y
some_inj h = cc

module _ {ℓ} {A : Type ℓ} where
  pub get_elem?-take : (n i : ℕ) (xs : List A) → i < n → get_elem? (take n xs) i ≡ get_elem? xs i
  get_elem?-take zero i xs h = absurd (omega arith)
  get_elem?-take (suc n) i [] h = refl
  get_elem?-take (suc n) zero (x ∷ xs) h = refl
  get_elem?-take (suc n) (suc i) (x ∷ xs) h = get_elem?-take n i xs (omega arith)

  pub get_elem?-drop :
      (n i k : ℕ) (xs : List A) → n + i ≡ k → get_elem? (drop n xs) i ≡ get_elem? xs k
  get_elem?-drop zero i k xs h = ap (get_elem? xs) (omega arith)
  get_elem?-drop (suc n) i k [] h = refl
  get_elem?-drop (suc n) i zero (x ∷ xs) h = absurd (omega arith)
  get_elem?-drop (suc n) i (suc k) (x ∷ xs) h = get_elem?-drop n i k xs (omega arith)

  pub get_elem?-append_left :
      (xs ys : List A) (i : ℕ) → i < length xs → get_elem? (xs ++ ys) i ≡ get_elem? xs i
  get_elem?-append_left [] ys i h = absurd (omega arith)
  get_elem?-append_left (x ∷ xs) ys zero h = refl
  get_elem?-append_left (x ∷ xs) ys (suc i) h = get_elem?-append_left xs ys i (omega arith)

  pub get_elem?-append_right :
      (xs ys : List A) (i j : ℕ) → length xs + j ≡ i → get_elem? (xs ++ ys) i ≡ get_elem? ys j
  get_elem?-append_right [] ys i j h = ap (get_elem? ys) (omega arith)
  get_elem?-append_right (x ∷ xs) ys zero j h = absurd (omega arith)
  get_elem?-append_right (x ∷ xs) ys (suc i) j h = get_elem?-append_right xs ys i j (omega arith)

  pub get_elem?_ext :
      (xs ys : List A)
      → length xs ≡ length ys
      → ((i : ℕ) → i < length xs → get_elem? xs i ≡ get_elem? ys i)
      → xs ≡ ys
  get_elem?_ext [] [] e h = refl
  get_elem?_ext [] (y ∷ ys) e h = absurd (omega arith)
  get_elem?_ext (x ∷ xs) [] e h = absurd (omega arith)
  get_elem?_ext (x ∷ xs) (y ∷ ys) e h =
      ap₂ ◌∷◌ (some_inj (h 0 (omega arith)))
        (get_elem?_ext xs ys (omega arith) (λ i p. h (suc i) (omega arith)))

  module _ (xs ys : List A) (off : ℕ) (fits : off + length ys ≤ length xs) where
    front : length (take off xs) ≡ off
    front = omega (arith, length-take off xs)

    pub get_elem?-overwritten_before :
        (i : ℕ) → i < off → get_elem? (overwritten xs off ys) i ≡ get_elem? xs i
    get_elem?-overwritten_before i h =
        get_elem?-append_left (take off xs) _ i (omega (arith, front)) ∙ get_elem?-take off i xs h

    pub get_elem?-overwritten_inside :
        (i j : ℕ)
        → off + j ≡ i
        → j < length ys
        → get_elem? (overwritten xs off ys) i ≡ get_elem? ys j
    get_elem?-overwritten_inside i j e h =
        get_elem?-append_right (take off xs) _ i j (omega (arith, front))
        ∙ get_elem?-append_left ys _ j h

    pub get_elem?-overwritten_after :
        (i : ℕ) → off + length ys ≤ i → get_elem? (overwritten xs off ys) i ≡ get_elem? xs i
    get_elem?-overwritten_after i h =
        get_elem?-append_right (take off xs) _ i (i - off) (omega (arith, front))
        ∙ get_elem?-append_right ys _ (i - off) (i - off - length ys) (omega arith)
        ∙ get_elem?-drop (off + length ys) (i - off - length ys) i xs (omega arith)
