-- ===== src/Nrm/Verify/Regions.antt =====
-- The two regions that `StreamingVerifier` hashes, as functions of the file, and how they split.
use nightrun.Prelude.{
  ℕ, zero, suc, ◌+◌, ◌-◌, ◌≤◌, ◌≡◌, refl, sym, ap, ap₂, ◌∙◌, ◌⊎◌, inl, inr, take-append-drop,
  drop-drop, drop_all, ◌&&◌, List, [], ◌∷◌, ◌++◌, length, take, drop, replicate, ltb, leb,
  if◌then◌else◌, arith, length-take, length-drop,
}
use nightrun.Prelude.Bytes.{IsBytes}
use nightrun.Nrm.Verify.{crc_fields_off}

-- The bytes of `xs`, which start at `pos` in the file, with those of the two crc fields as zeros.
unfoldable pub blank : ℕ → List ℕ → List ℕ
blank pos [] = []
blank pos (x ∷ xs) =
    (if leb crc_fields_off pos && ltb pos (crc_fields_off + 8) then 0 else x) ∷ blank (pos + 1) xs

pub length-blank : (pos : ℕ) (xs : List ℕ) → length (blank pos xs) ≡ length xs
unfolding blank
length-blank pos [] = refl
length-blank pos (x ∷ xs) = ap suc (length-blank (pos + 1) xs)

pub blank-append :
    (pos q : ℕ) (xs ys : List ℕ)
    → pos + length xs ≡ q
    → blank pos (xs ++ ys) ≡ blank pos xs ++ blank q ys
unfolding blank
blank-append pos q [] ys h = ap (λ (p : ℕ). blank p ys) (omega arith)
blank-append pos q (x ∷ xs) ys h =
    ap (λ t. (if leb crc_fields_off pos && ltb pos (crc_fields_off + 8) then 0 else x) ∷ t)
      (blank-append (pos + 1) q xs ys (omega arith))

pub blank_before : (pos : ℕ) (xs : List ℕ) → pos + length xs ≤ crc_fields_off → blank pos xs ≡ xs
unfolding blank
blank_before pos [] h = refl
blank_before pos (x ∷ xs) h = ground (arith, blank_before (pos + 1) xs)

pub blank_after : (pos : ℕ) (xs : List ℕ) → crc_fields_off + 8 ≤ pos → blank pos xs ≡ xs
unfolding blank
blank_after pos [] h = refl
blank_after pos (x ∷ xs) h = ground (arith, blank_after (pos + 1) xs)

pub blank_inside :
    (pos : ℕ) (xs : List ℕ)
    → crc_fields_off ≤ pos
    → pos + length xs ≤ crc_fields_off + 8
    → blank pos xs ≡ replicate (length xs) 0
unfolding blank
blank_inside pos [] h k = refl
blank_inside pos (x ∷ xs) h k = ground (arith, blank_inside (pos + 1) xs)

pub blank-IsBytes : (pos : ℕ) (xs : List ℕ) → IsBytes xs → IsBytes (blank pos xs)
unfolding blank
blank-IsBytes pos [] h = tt
blank-IsBytes pos (x ∷ xs) h = (ground arith, blank-IsBytes (pos + 1) xs h.1)

pub take-blank : (n pos : ℕ) (xs : List ℕ) → take n (blank pos xs) ≡ blank pos (take n xs)
unfolding blank
take-blank zero pos xs = refl
take-blank (suc n) pos [] = refl
take-blank (suc n) pos (x ∷ xs) =
    ap (λ t. (if leb crc_fields_off pos && ltb pos (crc_fields_off + 8) then 0 else x) ∷ t)
      (take-blank n (pos + 1) xs)

-- A segment that meets the fields: what stands before them, zeros, and what stands behind.
module _ (pos a b : ℕ) (xs : List ℕ) (in_order : a ≤ b) (within : b ≤ length xs)
    (from_fields : crc_fields_off ≤ pos + a) (starts : (a ≡ 0) ⊎ (pos + a ≡ crc_fields_off))
    (to_fields : pos + b ≤ crc_fields_off + 8)
    (ends : (b ≡ length xs) ⊎ (pos + b ≡ crc_fields_off + 8)) where
  abbrev mid : List ℕ
  mid = take (b - a) (drop a xs)

  length-mid : length mid ≡ b - a
  length-mid = omega (arith, length-take (b - a) (drop a xs), length-drop a xs)

  cut : xs ≡ take a xs ++ (mid ++ drop b xs)
  cut =
      sym (take-append-drop a xs)
      ∙ ap (λ t. take a xs ++ t)
          (sym (take-append-drop (b - a) (drop a xs))
            ∙ ap (λ t. mid ++ t) (drop-drop (b - a) a b xs (omega arith)))

  front_same : blank pos (take a xs) ≡ take a xs
  front_same = elim starts [
    | inl e ↦ rw e (unfold blank in refl)
    | inr e ↦ blank_before pos (take a xs) (omega (arith, length-take a xs))
  ]

  back_same : blank (pos + b) (drop b xs) ≡ drop b xs
  back_same = elim ends [
    | inl e ↦ rw (drop_all b xs (omega arith)) (unfold blank in refl)
    | inr e ↦ blank_after (pos + b) (drop b xs) (omega arith)
  ]

  mid_zeros : blank (pos + a) mid ≡ replicate (b - a) 0
  mid_zeros =
      blank_inside (pos + a) mid from_fields (omega (arith, length-mid))
      ∙ ap (λ (k : ℕ). replicate k 0) length-mid

  pub blank_parts : blank pos xs ≡ take a xs ++ (replicate (b - a) 0 ++ drop b xs)
  blank_parts =
      ap (blank pos) cut
      ∙ blank-append pos (pos + a) (take a xs) (mid ++ drop b xs) (omega (arith, length-take a xs))
      ∙ ap₂ ◌++◌ front_same (
          blank-append (pos + a) (pos + b) mid (drop b xs) (omega (arith, length-mid))
          ∙ ap₂ ◌++◌ mid_zeros back_same)
