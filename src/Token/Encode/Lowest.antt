-- ===== src/Token/Encode/Lowest.antt =====
-- crates/nr-token/src/blob.rs: which pair `encode_chunk` merges in a round.
use nightrun.Prelude.{
  ℕ, zero, suc, ◌+◌, ◌^◌, ◌≤◌, ◌<◌, ◌≡◌, ◌≢◌, sym, ap, ◌∙◌, inl, inr, Bool-cases, ltb, ltb→lt,
  not_ltb→le, List, [], ◌∷◌, ◌++◌, length, Option, some, none, Result, ok, err, panic, arith,
}
use nightrun.Token.Blob.{Tokenizer, Error, merge}
use nightrun.Token.Blob.Search.{SmallResult}
use nightrun.Token.Encode.{Best, better}

-- The tokens at `i` and `i + 1` merge to `result` with this rank.
unfoldable pub Ranked : Tokenizer → ℕ → ℕ → ℕ → List ℕ → Type 0
Ranked t i result rank [] = ⊥
Ranked t zero result rank (a ∷ []) = ⊥
Ranked t zero result rank (a ∷ b ∷ rest) = merge t a b ≡ ok (some (result, rank))
Ranked t (suc i) result rank (a ∷ rest) = Ranked t i result rank rest

-- The pair at `i` has the lowest rank, and stands left of all others of that rank.
abbrev pub Lowest : Tokenizer → ℕ → ℕ → ℕ → List ℕ → Type 0
Lowest t i result rank ids =
    Ranked t i result rank ids
    × ((j other k : ℕ) → Ranked t j other k ids → (rank ≤ k) × (j < i → rank < k))

-- The best pair is the lowest of those that start before `i`.
abbrev pub Leads : Tokenizer → List ℕ → ℕ → Best → Type 0
Leads t ids i none = (j other k : ℕ) → Ranked t j other k ids → i ≤ j
Leads t ids i (some (b, result, rank)) =
    Ranked t b result rank ids
    × (result < 2 ^ 32)
    × (b < i)
    × ((j other k : ℕ) → Ranked t j other k ids → j < i → (rank ≤ k) × (j < b → rank < k))

-- The best pair is the lowest of all.
abbrev pub Picked : Tokenizer → List ℕ → Best → Type 0
Picked t ids none = Unit
Picked t ids (some (i, result, rank)) = Lowest t i result rank ids × (result < 2 ^ 32)

abbrev rank_of : Result Error (Option (ℕ × ℕ)) → ℕ
rank_of (ok (some (result, rank))) = rank
rank_of (ok none) = 0
rank_of (err e) = 0
rank_of panic = 0

module _ (t : Tokenizer) where
  Ranked-append :
      (pre : List ℕ) (i result rank : ℕ) (ids : List ℕ)
      → i ≡ length pre
      → Ranked t 0 result rank ids
      → Ranked t i result rank (pre ++ ids)
  unfolding Ranked
  Ranked-append [] zero result rank ids h m = m
  Ranked-append [] (suc i) result rank ids h m = absurd (omega arith)
  Ranked-append (p ∷ pre) zero result rank ids h m = absurd (omega arith)
  Ranked-append (p ∷ pre) (suc i) result rank ids h m =
      Ranked-append pre i result rank ids (omega arith) m

  Ranked-at :
      (pre : List ℕ) (i result rank a b : ℕ) (rest : List ℕ)
      → i ≡ length pre
      → Ranked t i result rank (pre ++ (a ∷ b ∷ rest))
      → merge t a b ≡ ok (some (result, rank))
  unfolding Ranked
  Ranked-at [] zero result rank a b rest h m = m
  Ranked-at [] (suc i) result rank a b rest h m = absurd (omega arith)
  Ranked-at (p ∷ pre) zero result rank a b rest h m = absurd (omega arith)
  Ranked-at (p ∷ pre) (suc i) result rank a b rest h m =
      Ranked-at pre i result rank a b rest (omega arith) m

  Ranked-lt : (i result rank : ℕ) (ids : List ℕ) → Ranked t i result rank ids → i + 1 < length ids
  unfolding Ranked
  Ranked-lt i result rank [] m = absurd m
  Ranked-lt zero result rank (a ∷ []) m = absurd m
  Ranked-lt zero result rank (a ∷ b ∷ rest) m = omega arith
  Ranked-lt (suc i) result rank (a ∷ rest) m = omega (arith, Ranked-lt i result rank rest m)

  -- At the end of the scan all pairs were seen.
  pub Leads-Picked :
      (ids : List ℕ) (i : ℕ) (best : Best)
      → length ids ≤ i + 1
      → Leads t ids i best
      → Picked t ids best
  Leads-Picked ids i none h l = tt
  Leads-Picked ids i (some (b, result, rank)) h (m, small, before, lowest) =
      ((m, (λ j other k r. lowest j other k r (omega (arith, Ranked-lt j other k ids r)))), small)

  module _ (pre : List ℕ) (i a b : ℕ) (rest : List ℕ) (here : i ≡ length pre) where
    abbrev whole : List ℕ
    whole = pre ++ (a ∷ b ∷ rest)

    -- A pair that starts at `i` is the one that is looked at.
    same_rank :
        (result rank j other k : ℕ)
        → merge t a b ≡ ok (some (result, rank))
        → Ranked t j other k whole
        → j ≡ i
        → k ≡ rank
    same_rank result rank j other k e r at_i =
        ap rank_of (sym (Ranked-at pre j other k a b rest (at_i ∙ here) r) ∙ e)

    no_rank : (j other k : ℕ) → merge t a b ≡ ok none → Ranked t j other k whole → j ≢ i
    no_rank j other k e r at_i = let found = Ranked-at pre j other k a b rest (at_i ∙ here) r in cc

    pub better-Leads :
        (best : Best) (m : Option (ℕ × ℕ))
        → merge t a b ≡ ok m
        → SmallResult m
        → Leads t whole i best
        → Leads t whole (i + 1) (better best i m)
    unfolding Ranked
    better-Leads none none e small l =
        λ j other k r. omega (arith, l j other k r, no_rank j other k e r)
    better-Leads (some (c, best_result, best_rank)) none e small (m, fits, before, lowest) = (
      m,
      fits,
      omega arith,
      (λ j other k r lt. lowest j other k r (omega (arith, lt, no_rank j other k e r))),
    )
    better-Leads none (some (result, rank)) e small l = (
      Ranked-append pre i result rank (a ∷ b ∷ rest) here e,
      small,
      omega arith,
      (λ j other k r lt.
          let from = l j other k r in
          let same = same_rank result rank j other k e r (omega arith) in
          (omega arith, (λ left. absurd (omega arith)))),
    )
    better-Leads (some (c, best_result, best_rank)) (some (result, rank)) e small
          (m, fits, before, lowest) =
        elim (Bool-cases (ltb rank best_rank)) [
          | inl lower ↦ rw lower (
            Ranked-append pre i result rank (a ∷ b ∷ rest) here e,
            small,
            omega arith,
            (λ j other k r lt. elim (Bool-cases (ltb j i)) [
              | inl earlier ↦
                  let low = (lowest j other k r (ltb→lt _ _ earlier)).0 in
                  let less = ltb→lt _ _ lower in (omega arith, (λ left. omega arith))
              | inr now ↦
                  let from = not_ltb→le _ _ now in
                  let same = same_rank result rank j other k e r (omega arith) in
                  (omega arith, (λ left. absurd (omega arith)))
            ]),
          )
          | inr not_lower ↦ rw not_lower (
            m,
            fits,
            omega arith,
            (λ j other k r lt. elim (Bool-cases (ltb j i)) [
              | inl earlier ↦ lowest j other k r (ltb→lt _ _ earlier)
              | inr now ↦
                  let from = not_ltb→le _ _ now in
                  let same = same_rank result rank j other k e r (omega arith) in
                  let above = not_ltb→le _ _ not_lower in
                  (omega arith, (λ left. absurd (omega arith)))
            ]),
          )
        ]
