-- ===== src/Boot/ModelLoad/Loop.antt =====
-- crates/nr-boot/src/modelload.rs: the rounds of the loop, with the buffer and the verifier.
use nightrun.Prelude.{
  ℕ, ◌+◌, ◌≤◌, ◌<◌, min, ◌≡◌, false, Bool-cases, inl, inr, List, [], ◌∷◌, ◌++◌, length,
  length-append, All, All-append, Option, none, some, ltb, ltb→lt, leb, leb→le, Result, ok, err,
  panic, ◌>>=◌, arith, refl, ◌∙◌, ap, subst, Safe, Safe-then, Safe-weaken, sym,
}
use nightrun.Prelude.Bytes.{IsByte, IsBytes, sub-fits}
use nightrun.Nrm.Types.{header_size}
use nightrun.Nrm.Verify.{VerifyError, StreamingVerifier, new, feed}
use nightrun.Nrm.Verify.Whole.{fed, feed_lem, fed-append, fed-IsWords}
use nightrun.Nrm.Verify.Verdict.{new-IsFresh, new-ne-panic, new-append, IsFresh-IsWords}
use nightrun.Boot.ModelLoad.{
  Status, LoadError, corrupt, chunk_size, map_err, read_bytes, absorb, load_loop,
}
use nightrun.Boot.ModelLoad.Reads.{
  IsAnswer, Delivered, IsRead, sub-front, sub-middle, all_read, read_bytes-Safe,
}

-- The verifier that belongs to a part of the file: none before the header was read, then the one
-- that was made for the header and fed the part.
abbrev pub Belongs : List ℕ → Option StreamingVerifier → Type 0
Belongs buf none = length buf < header_size
Belongs buf (some v) =
    (header_size ≤ length buf) × (v₀ : StreamingVerifier) × (new buf ≡ ok v₀) × (v ≡ fed v₀ 0 buf)

module _ {A : Type 0} (P : A → Type 0) where
  pub Safe-map_err : {E F : Type 0} (f : E → F) (r : Result E A) → Safe P r → Safe P (map_err f r)
  Safe-map_err f (ok a) h = h
  Safe-map_err f (err e) h = tt
  Safe-map_err f panic h = h

module _ (end_of_file : Status) where
  first_feed :
      (buf : List ℕ) (r : Result VerifyError StreamingVerifier)
      → IsBytes buf
      → header_size ≤ length buf
      → new buf ≡ r
      → Safe
          (Belongs buf)
          (do v ← map_err corrupt r; v' ← map_err corrupt (feed v 0 buf); ok (some v'))
  first_feed buf (ok v) h enough e =
      rw (feed_lem v 0 buf (IsFresh-IsWords v (new-IsFresh buf v e)) h) (enough, v, e, refl)
  first_feed buf (err x) h enough e = tt
  first_feed buf panic h enough e = absurd (new-ne-panic buf e)

  next_feed :
      (v₀ : StreamingVerifier) (buf got : List ℕ)
      → IsBytes buf
      → IsBytes got
      → new buf ≡ ok v₀
      → feed (fed v₀ 0 buf) (length buf) got ≡ ok (fed v₀ 0 (buf ++ got))
  next_feed v₀ buf got hb hg e =
      let w = IsFresh-IsWords v₀ (new-IsFresh buf v₀ e) in
      feed_lem (fed v₀ 0 buf) (length buf) got (fed-IsWords v₀ 0 buf w hb) hg
      ∙ ap ok (
          ap (λ (k : ℕ). fed (fed v₀ 0 buf) k got) {y = 0 + length buf} (omega arith)
          ∙ fed-append v₀ 0 buf got w hb hg)

  absorb-Safe :
      (v : Option StreamingVerifier) (acc bytes rest : List ℕ)
      → IsBytes acc
      → IsBytes bytes
      → Belongs acc v
      → Safe
          (Belongs (acc ++ bytes))
          (absorb end_of_file v ((acc ++ bytes) ++ rest) (length acc) (length (acc ++ bytes)))
  unfolding absorb
  absorb-Safe none acc bytes rest ha hb b =
      elim (Bool-cases (leb header_size (length (acc ++ bytes)))) [
        | inl enough ↦
            rw (enough, sub-front {E = LoadError} (acc ++ bytes) rest)
              (first_feed (acc ++ bytes) (new (acc ++ bytes)) (All-append IsByte acc bytes ha hb)
                (leb→le _ _ enough) refl)
        | inr few ↦ rw few (ground arith)
      ]
  absorb-Safe (some v) acc bytes rest ha hb b =
      let (enough, v₀, e, now) = b in
      rw (sub-middle {E = LoadError} acc bytes rest, now, next_feed v₀ acc bytes ha hb e)
        (omega (arith, length-append acc bytes), v₀, new-append acc bytes enough ∙ e, refl)

  -- The loop fills the buffer to the size with what the reads deliver, and the verifier belongs to it.
  abbrev pub IsFull :
      List (ℕ → Result Status (List ℕ)) → ℕ → List ℕ → List ℕ × Option StreamingVerifier → Type 0
  IsFull reads size acc (buf, v) =
      (length buf ≡ size) × IsBytes buf × Belongs buf v × Delivered reads size acc buf

  IsFull-already :
      (reads : List (ℕ → Result Status (List ℕ))) (size : ℕ) (acc rest : List ℕ)
      (v : Option StreamingVerifier)
      → length (acc ++ rest) ≡ size
      → ltb (length acc) size ≡ false
      → IsBytes acc
      → Belongs acc v
      → IsFull reads size acc (acc ++ rest, v)
  IsFull-already reads size acc rest v sized full bytes b =
      let same = all_read acc rest (ground (arith, sized)) in
      let exact : length acc ≡ size = sym (ap length same) ∙ sized in
      subst (λ buf. IsFull reads size acc (buf, v)) (sym same)
        (exact, bytes, b, delivered_all reads exact)
    where
      delivered_all :
          (reads : List (ℕ → Result Status (List ℕ)))
          → length acc ≡ size
          → Delivered reads size acc acc
      delivered_all [] exact = (exact, refl)
      delivered_all (read ∷ reads) exact = inl (exact, refl)

  pub load_loop-Safe :
      (reads : List (ℕ → Result Status (List ℕ))) (size : ℕ) (acc rest : List ℕ)
      (v : Option StreamingVerifier)
      → All IsAnswer reads
      → length (acc ++ rest) ≡ size
      → IsBytes acc
      → Belongs acc v
      → Safe (IsFull reads size acc) (load_loop end_of_file reads size (length acc) (acc ++ rest) v)
  unfolding load_loop
  load_loop-Safe [] size acc rest v answers sized bytes b =
      elim (Bool-cases (ltb (length acc) size)) [
        | inl less ↦
            rw
              (
                less,
                sub-fits {E = LoadError} (acc ++ rest) (length acc)
                    (min (length acc + chunk_size) size) (ground arith) (omega (arith, sized)),
              )
              tt
        | inr full ↦ rw full (IsFull-already [] size acc rest v sized full bytes b)
      ]
  load_loop-Safe (read ∷ reads) size acc rest v answers sized bytes b =
      elim (Bool-cases (ltb (length acc) size)) [
        | inl less ↦ rw less (
            Safe-then (IsFull (read ∷ reads) size acc) (IsRead size acc read)
              (read_bytes end_of_file size (length acc) (acc ++ rest) read) _
              (read_bytes-Safe end_of_file size acc rest sized read (ltb→lt _ _ less) answers.0)
              λ (buf', done') (got, e, good, rest', same, sized', count).
                rw (same, count)
                  (Safe-then (IsFull (read ∷ reads) size acc) (Belongs (acc ++ got))
                    (absorb end_of_file v ((acc ++ got) ++ rest') (length acc)
                      (length (acc ++ got)))
                    _ (absorb-Safe v acc got rest' bytes good b)
                    λ v' b'.
                      Safe-weaken (IsFull (read ∷ reads) size acc) (IsFull reads size (acc ++ got))
                        (load_loop end_of_file reads size (length (acc ++ got))
                          ((acc ++ got) ++ rest') v')
                        (λ out (long, all_bytes, belongs, delivered).
                          (long, all_bytes, belongs, inr (ltb→lt _ _ less, got, e, delivered)))
                        (load_loop-Safe reads size (acc ++ got) rest' v' answers.1 sized'
                          (All-append IsByte acc got bytes good) b')))
        | inr full ↦ rw full (IsFull-already (read ∷ reads) size acc rest v sized full bytes b)
      ]
