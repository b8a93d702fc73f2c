-- ===== src/Prelude/Fallible.antt =====
-- What a call of the program can come to: a value, an error value, or a panic (a slice or an
-- index out of range, an overflowing sum in code that does not check it).
use mathlib.Core.Path.{◌≡◌, refl, subst}
use mathlib.Core.Option.{Option, none, some}
use mathlib.Core.Bool.{Bool, true, false}
use mathlib.Core.Logic.{◌≢◌}

pub data Result {ℓ κ} (E : Type ℓ) (A : Type κ) : Type (ℓ ⊔ κ) where
  ok : A → Result E A
  err : E → Result E A
  panic : Result E A

infixl 5 ◌>>=◌ ◌>>◌
abbrev pub ◌>>=◌ {ℓ κ μ} :
    {E : Type ℓ} {A : Type κ} {B : Type μ} → Result E A → (A → Result E B) → Result E B
ok a >>= f = f a
err e >>= f = err e
panic >>= f = panic

abbrev pub ◌>>◌ {ℓ κ μ} :
    {E : Type ℓ} {A : Type κ} {B : Type μ} → Result E A → Result E B → Result E B
m >> k = m >>= λ _. k

module _ {ℓ κ} {E : Type ℓ} {A : Type κ} where
  -- `opt.ok_or(e)?`
  abbrev pub ok_or : Option A → E → Result E A
  ok_or (some a) e = ok a
  ok_or none e = err e

  -- `opt.unwrap()`, and an index that is checked by the language.
  abbrev pub unwrap : Option A → Result E A
  unwrap (some a) = ok a
  unwrap none = panic

-- `if test { return Err(e) }`
abbrev pub fail_if {ℓ} : {E : Type ℓ} → Bool → E → Result E (Unit {0})
fail_if true e = err e
fail_if false e = ok tt

-- `r` does not panic, and where it returns a value, `P` holds of it.
abbrev pub Safe {ℓ κ} : {E : Type ℓ} {A : Type κ} → (A → Type 0) → Result E A → Type 0
Safe P (ok a) = P a
Safe P (err e) = Unit
Safe P panic = ⊥

module _ {ℓ κ} {E : Type ℓ} {A : Type κ} (P : A → Type 0) where
  pub Safe-bind {ν} :
      {B : Type ν} (m : Result E B) (f : B → Result E A)
      → ((b : B) → m ≡ ok b → Safe P (f b))
      → m ≢ panic
      → Safe P (m >>= f)
  Safe-bind (ok b) f h n = h b refl
  Safe-bind (err e) f h n = tt
  Safe-bind panic f h n = absurd (n refl)

  -- A bind from what is known of its first part.
  pub Safe-then {ν} :
      {B : Type ν} (Q : B → Type 0) (m : Result E B) (f : B → Result E A)
      → Safe Q m
      → ((b : B) → Q b → Safe P (f b))
      → Safe P (m >>= f)
  Safe-then Q (ok b) f s h = h b s
  Safe-then Q (err e) f s h = tt
  Safe-then Q panic f s h = absurd s

  pub Safe-fail_if :
      (b : Bool) (e : E) (k : Result E A) → (b ≡ false → Safe P k) → Safe P (fail_if b e >> k)
  Safe-fail_if true e k h = tt
  Safe-fail_if false e k h = h refl

  pub Safe-weaken : (Q : A → Type 0) (r : Result E A) → ((a : A) → Q a → P a) → Safe Q r → Safe P r
  Safe-weaken Q (ok a) h s = h a s
  Safe-weaken Q (err e) h s = tt
  Safe-weaken Q panic h s = absurd s

  pub Safe-ok_or {ν} :
      {B : Type ν} (o : Option B) (e : E) (f : B → Result E A)
      → ((b : B) → o ≡ some b → Safe P (f b))
      → Safe P (ok_or o e >>= f)
  Safe-ok_or (some b) e f h = h b refl
  Safe-ok_or none e f h = tt

  pub Safe-ok : (r : Result E A) (a : A) → Safe P r → r ≡ ok a → P a
  Safe-ok r a h e = subst (Safe P) e h

  pub Safe-ne-panic : (r : Result E A) → Safe P r → r ≢ panic
  Safe-ne-panic (ok a) h e = cc
  Safe-ne-panic (err x) h e = cc
  Safe-ne-panic panic h e = absurd h

-- `r` returns a value, and `P` holds of it.
abbrev pub Returns {ℓ κ} : {E : Type ℓ} {A : Type κ} → (A → Type 0) → Result E A → Type 0
Returns P (ok a) = P a
Returns P (err e) = ⊥
Returns P panic = ⊥

pub Returns-then {ℓ κ ν} :
    {E : Type ℓ} {A : Type κ} {B : Type ν} (P : A → Type 0) (Q : B → Type 0) (m : Result E B)
    (f : B → Result E A)
    → Returns Q m
    → ((b : B) → m ≡ ok b → Q b → Returns P (f b))
    → Returns P (m >>= f)
Returns-then P Q (ok b) f s h = h b refl s
Returns-then P Q (err e) f s h = absurd s
Returns-then P Q panic f s h = absurd s

pub Returns-weaken {ℓ κ} :
    {E : Type ℓ} {A : Type κ} (P Q : A → Type 0) (r : Result E A)
    → ((a : A) → Q a → P a)
    → Returns Q r
    → Returns P r
Returns-weaken P Q (ok a) h s = h a s
Returns-weaken P Q (err e) h s = absurd s
Returns-weaken P Q panic h s = absurd s
