-- ===== src/Nrm/Verify/Whole.antt =====
-- Feeding a file in chunks is feeding it whole, and `finish` compares the two region checksums.
use nightrun.Prelude.{
  ℕ, ◌+◌, ◌-◌, ◌^◌, ◌<◌, ◌≡◌, refl, sym, ap, ap₂, ◌∙◌, Bool-cases, inl, inr, List, [], ◌∷◌, ◌++◌,
  length, length-take, take, drop, leb, take-append_split, drop-append_split, All, drop_all,
  take_all, All-take, All-drop, All-append, ok, arith,
}
use nightrun.Prelude.Bytes.{IsByte, IsBytes}
use nightrun.Crc32
use nightrun.Crc32.Classic.{update-append, update-lt, update-nil}
use nightrun.Nrm.Verify.{StreamingVerifier, feed, feed_all}
use nightrun.Nrm.Verify.Regions.{blank, blank-append, length-blank, blank-IsBytes}
use nightrun.Nrm.Verify.Streaming.{meta_part, data_part, feed_meta_lem, feed_data_lem}

abbrev pub flatten : List (List ℕ) → List ℕ
flatten [] = []
flatten (c ∷ cs) = c ++ flatten cs

meta_part-append :
    (end offset : ℕ) (xs ys : List ℕ)
    → meta_part end offset (xs ++ ys)
      ≡ meta_part end offset xs ++ meta_part end (offset + length xs) ys
meta_part-append end offset xs ys =
    ap (take (end - offset)) (blank-append offset (offset + length xs) xs ys refl)
    ∙ take-append_split (end - offset) (end - (offset + length xs)) (blank offset xs)
        (blank (offset + length xs) ys) (omega (arith, length-blank offset xs))

drop-nil {ℓ} : {A : Type ℓ} (n : ℕ) → drop {A = A} n [] ≡ []
drop-nil n = drop_all n [] (omega arith)

take-nil {ℓ} : {A : Type ℓ} (n : ℕ) → take {A = A} n [] ≡ []
take-nil n = take_all n [] (omega arith)

meta_part_nil : (end offset : ℕ) → meta_part end offset [] ≡ []
unfolding blank
meta_part_nil end offset = take-nil (end - offset)

data_part_nil : (start end offset : ℕ) → data_part start end offset [] ≡ []
data_part_nil start end offset =
    ap (drop (start - offset)) (take-nil (end - offset)) ∙ drop-nil (start - offset)

data_part-append :
    (start end offset : ℕ) (xs ys : List ℕ)
    → data_part start end offset (xs ++ ys)
      ≡ data_part start end offset xs ++ data_part start end (offset + length xs) ys
data_part-append start end offset xs ys =
    ap (drop (start - offset))
      (take-append_split (end - offset) (end - (offset + length xs)) xs ys (omega arith))
    ∙ drop-append_split (start - offset) _ (take (end - offset) xs)
        (take (end - (offset + length xs)) ys) refl
    ∙ ap (λ t. data_part start end offset xs ++ t) tail
  where
    tail :
        drop
          (start - offset - length (take (end - offset) xs))
          (take (end - (offset + length xs)) ys)
        ≡ data_part start end (offset + length xs) ys
    tail = elim (Bool-cases (leb end (offset + length xs))) [
      | inl past ↦
          let closed : end - (offset + length xs) ≡ 0 = ground arith in
          rw closed (
            drop-nil (start - offset - length (take (end - offset) xs))
            ∙ sym (drop-nil (start - (offset + length xs))))
      | inr before ↦
          ap (λ (k : ℕ). drop k (take (end - (offset + length xs)) ys))
            {y = start - (offset + length xs)} (ground (arith, length-take (end - offset) xs))
    ]

-- The state behind a chunk.
abbrev pub fed : StreamingVerifier → ℕ → List ℕ → StreamingVerifier
fed v offset chunk = record v {
  meta = Crc32.update v.meta (meta_part v.meta_end offset chunk);
  tensor_data = Crc32.update v.tensor_data (data_part v.data_off v.data_end offset chunk);
}

abbrev pub IsWords : StreamingVerifier → Type 0
IsWords v = (v.meta < 2 ^ 32) × (v.tensor_data < 2 ^ 32)

-- `feed` does not panic, and hashes exactly the chunk's share of each region.
pub feed_lem :
    (v : StreamingVerifier) (offset : ℕ) (chunk : List ℕ)
    → IsWords v
    → IsBytes chunk
    → feed v offset chunk ≡ ok (fed v offset chunk)
feed_lem v offset chunk w bytes =
    unfold feed in
    rw (feed_meta_lem v offset chunk bytes w.0, feed_data_lem v offset chunk bytes) refl

meta_part-IsBytes :
    (end offset : ℕ) (chunk : List ℕ) → IsBytes chunk → IsBytes (meta_part end offset chunk)
meta_part-IsBytes end offset chunk h =
    All-take IsByte (end - offset) (blank offset chunk) (blank-IsBytes offset chunk h)

data_part-IsBytes :
    (start end offset : ℕ) (chunk : List ℕ)
    → IsBytes chunk
    → IsBytes (data_part start end offset chunk)
data_part-IsBytes start end offset chunk h =
    All-drop IsByte (start - offset) (take (end - offset) chunk)
      (All-take IsByte (end - offset) chunk h)

pub fed-IsWords :
    (v : StreamingVerifier) (offset : ℕ) (chunk : List ℕ)
    → IsWords v
    → IsBytes chunk
    → IsWords (fed v offset chunk)
fed-IsWords v offset chunk w bytes = (
  update-lt v.meta _ w.0 (meta_part-IsBytes v.meta_end offset chunk bytes),
  update-lt v.tensor_data _ w.1 (data_part-IsBytes v.data_off v.data_end offset chunk bytes),
)

flatten-IsBytes : (chunks : List (List ℕ)) → All IsBytes chunks → IsBytes (flatten chunks)
flatten-IsBytes [] h = tt
flatten-IsBytes (c ∷ cs) h = All-append IsByte c (flatten cs) h.0 (flatten-IsBytes cs h.1)

pub fed-append :
    (v : StreamingVerifier) (offset : ℕ) (xs ys : List ℕ)
    → IsWords v
    → IsBytes xs
    → IsBytes ys
    → fed (fed v offset xs) (offset + length xs) ys ≡ fed v offset (xs ++ ys)
fed-append v offset xs ys w hx hy =
    ap₂ (λ (m d : ℕ). record v { meta = m; tensor_data = d })
      (update-append v.meta _ _ w.0 (meta_part-IsBytes v.meta_end offset xs hx)
          (meta_part-IsBytes v.meta_end (offset + length xs) ys hy)
        ∙ ap (Crc32.update v.meta) (sym (meta_part-append v.meta_end offset xs ys)))
      (update-append v.tensor_data _ _ w.1 (data_part-IsBytes v.data_off v.data_end offset xs hx)
          (data_part-IsBytes v.data_off v.data_end (offset + length xs) ys hy)
        ∙ ap (Crc32.update v.tensor_data)
            (sym (data_part-append v.data_off v.data_end offset xs ys)))

pub feed_all-fed :
    (chunks : List (List ℕ)) (v : StreamingVerifier) (offset : ℕ)
    → IsWords v
    → All IsBytes chunks
    → feed_all v offset chunks ≡ ok (fed v offset (flatten chunks))
unfolding feed_all
feed_all-fed [] v offset w h = ap ok (
    ap₂ (λ (m d : ℕ). record v { meta = m; tensor_data = d })
      (sym (ap (Crc32.update v.meta) (meta_part_nil v.meta_end offset) ∙ update-nil v.meta))
      (sym (
        ap (Crc32.update v.tensor_data) (data_part_nil v.data_off v.data_end offset)
        ∙ update-nil v.tensor_data)))
feed_all-fed (c ∷ cs) v offset w h = rw (feed_lem v offset c w h.0) (
    feed_all-fed cs (fed v offset c) (offset + length c) (fed-IsWords v offset c w h.0) h.1
    ∙ ap ok (fed-append v offset c (flatten cs) w h.0 (flatten-IsBytes cs h.1)))
