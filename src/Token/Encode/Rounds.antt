-- ===== src/Token/Encode/Rounds.antt =====
-- `encode_chunk` ends, merges in the order of the ranks, and spells the chunk.
use nightrun.Prelude.{
  ℕ, zero, suc, ◌+◌, ◌*◌, ◌^◌, All, ◌<◌, ◌≡◌, refl, sym, ap, ap₂, ◌∙◌, subst, List, [], ◌∷◌, ◌++◌,
  append_assoc, length, length-append, take, drop, Option, some, none, ok, ◌>>=◌, unwrap, Returns,
  Returns-then, Returns-weaken, arith,
}
use nightrun.Prelude.Bytes.{IsBytes, le32_of, le32_at-lt}
use nightrun.Token.Blob.{Tokenizer, Error, byte_token, merge}
use nightrun.Token.Blob.Sections.{IsValid}
use nightrun.Token.Blob.Search.{SmallResult, le32_of-lt, merge-Returns}
use nightrun.Token.Encode.Spelling.{Encodes, finished, merged, IsConsistent, NoMerge, spelled, text}
use nightrun.Token.Encode.Lowest.{Ranked, Leads, Picked, Leads-Picked, better-Leads}
use nightrun.Token.Encode.{
  Best, better, byte_tokens, best_from, merge_at, keep, encode_loop, encode_chunk,
}

-- Token ids are 32-bit numbers.
abbrev IsId : ℕ → Type 0
IsId id = id < 2 ^ 32

module _ (t : Tokenizer) where
  better-none :
      (best : Best) (i : ℕ) (m : Option (ℕ × ℕ))
      → better best i m ≡ none
      → (best ≡ none) × (m ≡ none)
  better-none none i none e = (refl, refl)
  better-none (some b) i none e = absurd cc
  better-none none i (some (result, rank)) e = absurd cc
  better-none (some (j, other, best_rank)) i (some (result, rank)) e = absurd (ground arith)

  -- Behind the scan the best pair is the lowest of all, and if there is none, no pair merges.
  abbrev Scanned : List ℕ → List ℕ → Best → Best → Type 0
  Scanned whole ids best out = Picked t whole out × (out ≡ none → (best ≡ none) × NoMerge t ids)

  best_from-Returns :
      IsValid t
      → IsBytes t.merges
      → (pre : List ℕ) (i : ℕ) (ids : List ℕ) (best : Best) → i ≡ length pre
      → Leads t (pre ++ ids) i best
      → Returns (Scanned (pre ++ ids) ids best) (best_from t i ids best)
  unfolding best_from NoMerge
  best_from-Returns valid mb pre i [] best h p = (
    Leads-Picked t (pre ++ []) i best (omega (arith, length-append {A = ℕ} pre [])) p,
    (λ e. (e, tt)),
  )
  best_from-Returns valid mb pre i (a ∷ []) best h p = (
    Leads-Picked t (pre ++ (a ∷ [])) i best (omega (arith, length-append pre (a ∷ []))) p,
    (λ e. (e, tt)),
  )
  best_from-Returns valid mb pre i (a ∷ b ∷ rest) best h p =
      Returns-then (Scanned (pre ++ (a ∷ b ∷ rest)) (a ∷ b ∷ rest) best) SmallResult (merge t a b) _
        (merge-Returns t valid mb a b)
        λ m e small.
          let leads = better-Leads t pre i a b rest h best m e small p in
          let regroup : (pre ++ (a ∷ [])) ++ (b ∷ rest) ≡ pre ++ (a ∷ b ∷ rest) =
            append_assoc pre (a ∷ []) (b ∷ rest) in
          Returns-weaken (Scanned (pre ++ (a ∷ b ∷ rest)) (a ∷ b ∷ rest) best)
            (Scanned ((pre ++ (a ∷ [])) ++ (b ∷ rest)) (b ∷ rest) (better best i m))
            (best_from t (i + 1) (b ∷ rest) (better best i m))
            (λ out (good, done). (
              subst (λ whole. Picked t whole out) regroup good,
              (λ none_left.
                  let (better_is_none, later) = done none_left in
                  let (best_is_none, m_is_none) = better-none best i m better_is_none in
                  (best_is_none, (e ∙ ap ok m_is_none, later))),
            ))
            (best_from-Returns valid mb (pre ++ (a ∷ [])) (i + 1) (b ∷ rest) (better best i m)
              (omega (arith, length-append pre (a ∷ [])))
              (subst (λ whole. Leads t whole (i + 1) (better best i m)) (sym regroup) leads))

  -- A merge makes the list one shorter and leaves what it spells.
  merge_at_lem :
      IsConsistent t
      → (i result rank : ℕ) (ids : List ℕ) → All IsId ids
      → result < 2 ^ 32
      → Ranked t i result rank ids
      → (ids' : List ℕ) × (merge_at i result ids ≡ some ids')
        × (suc (length ids') ≡ length ids)
        × All IsId ids'
        × (spelled t ids' ≡ spelled t ids)
        × (take i ids ++ (result ∷ drop (i + 2) ids) ≡ ids')
  unfolding merge_at Ranked spelled
  merge_at_lem good i result rank [] ids_ok small m = absurd m
  merge_at_lem good zero result rank (a ∷ []) ids_ok small m = absurd m
  merge_at_lem good zero result rank (a ∷ b ∷ rest) ids_ok small e = (
    result ∷ rest,
    refl,
    refl,
    (small, ids_ok.1.1),
    ap (λ s. s ++ spelled t rest) (good.merge_text a b result rank ids_ok.0 ids_ok.1.0 e)
        ∙ append_assoc (text t a) (text t b) (spelled t rest),
    refl,
  )
  merge_at_lem good (suc i) result rank (a ∷ rest) ids_ok small m =
      let (ids', e, size, ids_small, same, merged_ids) =
        merge_at_lem good i result rank rest ids_ok.1 small m in
      (
        a ∷ ids',
        ap (keep a) e,
        ap suc size,
        (ids_ok.0, ids_small),
        ap (λ s. text t a ++ s) same,
        ap (λ (k : ℕ). a ∷ (take i rest ++ (result ∷ drop k (a ∷ rest)))) {x = suc i + 2}
              {y = suc (i + 2)} (omega arith)
            ∙ ap (λ s. a ∷ s) merged_ids,
      )

  abbrev Encoded : List ℕ → List ℕ → Type 0
  Encoded ids out = Encodes t ids out × NoMerge t out × (spelled t out ≡ spelled t ids)

  encode_loop-Returns :
      IsValid t
      → IsBytes t.merges
      → IsConsistent t
      → (fuel : ℕ) (ids : List ℕ) → All IsId ids
      → length ids < fuel
      → Returns (Encoded ids) (encode_loop fuel t ids)
  unfolding encode_loop
  encode_loop-Returns valid mb good zero ids ids_ok h = absurd (omega arith)
  encode_loop-Returns valid mb good (suc fuel) ids ids_ok h =
      Returns-then (Encoded ids) (Scanned ids ids none) (best_from t 0 ids none) _
        (best_from-Returns valid mb [] 0 ids none refl (λ j other k r. omega arith))
        λ best e scanned.
          next best scanned
            (λ ids' small size. encode_loop-Returns valid mb good fuel ids' small (omega arith))
    where
      next :
          (best : Best)
          → Scanned ids ids none best
          → ((ids' : List ℕ)
              → All IsId ids'
              → suc (length ids') ≡ length ids
              → Returns (Encoded ids') (encode_loop fuel t ids'))
          → Returns (Encoded ids) (elim best [
            | none ↦ ok ids
            | some (i, result, rank) ↦
                unwrap (merge_at i result ids) >>= λ ids'. encode_loop fuel t ids'
          ])
      next none (picked, done) again = (finished ids (done refl).1, (done refl).1, refl)
      next (some (i, result, rank)) ((lowest, small_result), done) again =
          let (ids', e, size, small, same, merged_ids) =
            merge_at_lem good i result rank ids ids_ok small_result lowest.0 in
          rw e (
            Returns-weaken (Encoded ids) (Encoded ids') (encode_loop fuel t ids')
              (λ out (encodes, no_merge, spells). (
                merged ids out i result rank lowest
                    (subst (λ from. Encodes t from out) (sym merged_ids) encodes),
                no_merge,
                spells ∙ same,
              ))
              (again ids' small size))

  byte_tokens-Returns :
      IsValid t
      → IsBytes t.byte_ids
      → IsConsistent t
      → (chunk : List ℕ) → IsBytes chunk
      → Returns (λ ids. (spelled t ids ≡ chunk) × All IsId ids) (byte_tokens t chunk)
  unfolding byte_tokens spelled byte_token
  byte_tokens-Returns valid bb good [] h = (refl, tt)
  byte_tokens-Returns valid bb good (b ∷ rest) h =
      let e =
        le32_at-lt {E = Error} t.byte_ids (b * 4) (omega (arith, valid.byte_ids_sized, h.0)) in
      rw e (
        Returns-then (λ ids. (spelled t ids ≡ b ∷ rest) × All IsId ids)
          (λ ids. (spelled t ids ≡ rest) × All IsId ids) (byte_tokens t rest)
          (λ ids. ok (le32_of t.byte_ids (b * 4) ∷ ids))
          (byte_tokens-Returns valid bb good rest h.1)
          (λ ids e' (same, small). (
            ap₂ ◌++◌ (good.byte_text b (le32_of t.byte_ids (b * 4)) h.0 e) same,
            (le32_of-lt t.byte_ids (b * 4) bb, small),
          )))

-- Of a valid tokenizer whose tables are of bytes and consistent (the token of a byte is that byte,
-- and a merge joins the bytes of its two tokens), and a chunk of bytes: `encode_chunk` ends without a panic or an error. What it returns comes from the tokens of the bytes
-- by merging, round after round, the pair of the lowest rank, the leftmost of them, until no two
-- neighbors have a merge; and the bytes of its tokens in a row are the chunk.
pub encode_chunk-spelled :
    (t : Tokenizer) (chunk : List ℕ)
    → IsValid t
    → IsBytes t.byte_ids
    → IsBytes t.merges
    → IsConsistent t
    → IsBytes chunk
    → Returns
        (λ out.
          ((ids : List ℕ) × (byte_tokens t chunk ≡ ok ids) × Encodes t ids out)
          × NoMerge t out
          × (spelled t out ≡ chunk))
        (encode_chunk t chunk)
unfolding encode_chunk
encode_chunk-spelled t chunk valid bb mb good bytes =
    Returns-then P (λ ids. (spelled t ids ≡ chunk) × All IsId ids) (byte_tokens t chunk)
      (λ ids. encode_loop (length ids + 1) t ids) (byte_tokens-Returns t valid bb good chunk bytes)
      λ ids e (same, small).
        Returns-weaken P (Encoded t ids) (encode_loop (length ids + 1) t ids)
          (λ out (encodes, no_merge, spells). ((ids, e, encodes), no_merge, spells ∙ same))
          (encode_loop-Returns t valid mb good (length ids + 1) ids small (omega arith))
  where
    P : List ℕ → Type 0
    P out =
        ((ids : List ℕ) × (byte_tokens t chunk ≡ ok ids) × Encodes t ids out)
        × NoMerge t out
        × (spelled t out ≡ chunk)
