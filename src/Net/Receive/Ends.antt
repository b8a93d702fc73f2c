-- ===== src/Net/Receive/Ends.antt =====
-- What holds when a handler of the stack ends, on each of its branches.
use nightrun.Prelude.{
  ℕ, ◌≡◌, refl, Bool, true, false, List, if◌then◌else◌, Result, ok, err, panic, Safe, fail_if,
}
use nightrun.Net.Types.{Error}
use nightrun.Net.Receive.{Io, Action, continue, ◌>>=◌, ◌>>◌, lift, pure, respond, with_response}

-- The state satisfies `I`, there was no panic, and a result satisfies `Q`.
unfoldable pub Ends : {A : Type 0} → (Io → Type 0) → (A → Type 0) → Io × Result Error A → Type 0
Ends I Q (io, ok a) = I io × Q a
Ends I Q (io, err e) = I io
Ends I Q (io, panic) = ⊥

module _ (I : Io → Type 0) where
  pub pure-Ends :
      {A : Type 0} (Q : A → Type 0) (a : A) (io : Io) → I io → Q a → Ends I Q (pure a io)
  unfolding Ends
  pure-Ends Q a io i q = (i, q)

  continue-Ends :
      {A B : Type 0} (Q : A → Type 0) (R : B → Type 0) (r : Io × Result Error A) (f : A → Action B)
      → Ends I Q r
      → ((a : A) (io : Io) → Q a → I io → Ends I R (f a io))
      → Ends I R (continue f r.0 r.1)
  unfolding Ends
  continue-Ends Q R (io, ok a) f h k = k a io h.1 h.0
  continue-Ends Q R (io, err e) f h k = h
  continue-Ends Q R (io, panic) f h k = h

  pub Ends-then :
      {A B : Type 0} (Q : A → Type 0) (R : B → Type 0) (m : Action A) (f : A → Action B) (io : Io)
      → Ends I Q (m io)
      → ((a : A) (io : Io) → Q a → I io → Ends I R (f a io))
      → Ends I R ((m >>= f) io)
  Ends-then Q R m f io h k = continue-Ends Q R (m io) f h k

  -- A step that leaves the state alone.
  pub step :
      {A B : Type 0} (Q : A → Type 0) (R : B → Type 0) (r : Result Error A) (f : A → Action B)
      (io : Io)
      → I io
      → Safe Q r
      → ((a : A) → Q a → Ends I R (f a io))
      → Ends I R ((lift r >>= f) io)
  unfolding Ends
  step Q R (ok a) f io i s k = k a s
  step Q R (err e) f io i s k = i
  step Q R panic f io i s k = s

  -- A guard that was passed.
  pub guard :
      {B : Type 0} (R : B → Type 0) (b : Bool) (e : Error) (m : Action B) (io : Io)
      → I io
      → (b ≡ false → Ends I R (m io))
      → Ends I R ((lift (fail_if b e) >> m) io)
  unfolding Ends
  guard R true e m io i k = i
  guard R false e m io i k = k refl

  respond_with :
      {A : Type 0} (Q : A → Type 0) (r : Result Error (A × List ℕ)) (io : Io)
      → Safe (λ p. Q p.0 × I (record io { response = p.1 })) r
      → I io
      → Ends I Q (with_response io r)
  unfolding Ends
  respond_with Q (ok (a, bytes)) io s i = (s.1, s.0)
  respond_with Q (err e) io s i = i
  respond_with Q panic io s i = s

  pub respond-Ends :
      {A : Type 0} (Q : A → Type 0) (f : List ℕ → Result Error (A × List ℕ)) (io : Io)
      → Safe (λ p. Q p.0 × I (record io { response = p.1 })) (f io.response)
      → I io
      → Ends I Q (respond f io)
  respond-Ends Q f io s i = respond_with Q (f io.response) io s i

  pub if-Ends :
      {A : Type 0} (Q : A → Type 0) (b : Bool) (m n : Action A) (io : Io)
      → (b ≡ true → Ends I Q (m io))
      → (b ≡ false → Ends I Q (n io))
      → Ends I Q ((if b then m else n) io)
  if-Ends Q true m n io h k = h refl
  if-Ends Q false m n io h k = k refl
