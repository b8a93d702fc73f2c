-- ===== src/Net/Wire/Writes.antt =====
-- Writes that follow one another in a buffer, and addresses byte by byte.
use nightrun.Prelude.{
  ℕ, ◌+◌, ◌≤◌, ◌≡◌, refl, sym, ap, ap₂, ◌∙◌, List, [], ◌∷◌, ◌++◌, append_assoc, length, drop,
  take-append, drop-append, drop-drop, ok, arith, length-append, length-drop,
}
use nightrun.Prelude.Bytes.{write, write-fits}

pub write-next :
    {E : Type 0} (done rest ys : List ℕ) (off k : ℕ)
    → length done ≡ off
    → length ys ≡ k
    → k ≤ length rest
    → write {E = E} (done ++ rest) off ys ≡ ok ((done ++ ys) ++ drop k rest)
write-next done rest ys off k h e room =
    write-fits (done ++ rest) off ys (omega (arith, length-append done rest))
    ∙ ap ok (
        ap₂ (λ s t. s ++ (ys ++ t)) (take-append off done rest h)
          (sym (drop-drop (length ys) off (off + length ys) (done ++ rest) refl)
            ∙ ap (drop (length ys)) (drop-append off done rest h)
            ∙ ap (λ (n : ℕ). drop n rest) e)
        ∙ sym (append_assoc done ys (drop k rest)))

-- The first write of a buffer.
pub write-first :
    {E : Type 0} (xs ys : List ℕ) (k : ℕ)
    → length ys ≡ k
    → k ≤ length xs
    → write {E = E} xs 0 ys ≡ ok (ys ++ drop k xs)
write-first xs ys k e room = write-next [] xs ys 0 k refl e room

-- A write behind what is written of the buffer `xs`.
pub write-behind :
    {E : Type 0} (xs done ys : List ℕ) (off k : ℕ)
    → length done ≡ off
    → off + length ys ≡ k
    → k ≤ length xs
    → write {E = E} (done ++ drop off xs) off ys ≡ ok ((done ++ ys) ++ drop k xs)
write-behind xs done ys off k h e room =
    write-next done (drop off xs) ys off (length ys) h refl (omega (arith, length-drop off xs))
    ∙ ap (λ t. ok ((done ++ ys) ++ t)) (drop-drop (length ys) off k xs e)

module _ {ℓ} (P : List ℕ → Type ℓ) where
  pub by_ip : ((a b c d : ℕ) → P (a ∷ b ∷ c ∷ d ∷ [])) → (xs : List ℕ) → length xs ≡ 4 → P xs
  by_ip f [] h = absurd (omega arith)
  by_ip f (a ∷ []) h = absurd (omega arith)
  by_ip f (a ∷ b ∷ []) h = absurd (omega arith)
  by_ip f (a ∷ b ∷ c ∷ []) h = absurd (omega arith)
  by_ip f (a ∷ b ∷ c ∷ d ∷ []) h = f a b c d
  by_ip f (a ∷ b ∷ c ∷ d ∷ e ∷ rest) h = absurd (omega arith)

  pub by_mac :
      ((a b c d e g : ℕ) → P (a ∷ b ∷ c ∷ d ∷ e ∷ g ∷ [])) → (xs : List ℕ) → length xs ≡ 6 → P xs
  by_mac f [] h = absurd (omega arith)
  by_mac f (a ∷ []) h = absurd (omega arith)
  by_mac f (a ∷ b ∷ rest) h = head rest (omega arith)
    where
      head : (xs : List ℕ) → length xs ≡ 4 → P (a ∷ b ∷ xs)
      head [] k = absurd (omega arith)
      head (c ∷ []) k = absurd (omega arith)
      head (c ∷ d ∷ []) k = absurd (omega arith)
      head (c ∷ d ∷ e ∷ []) k = absurd (omega arith)
      head (c ∷ d ∷ e ∷ g ∷ []) k = f a b c d e g
      head (c ∷ d ∷ e ∷ g ∷ x ∷ more) k = absurd (omega arith)
