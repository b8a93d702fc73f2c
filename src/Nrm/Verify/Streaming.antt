-- ===== src/Nrm/Verify/Streaming.antt =====
-- `StreamingVerifier` fed chunk by chunk against the checksums of the whole file.
use nightrun.Prelude.{
  ℕ, zero, suc, ◌+◌, ◌-◌, ◌^◌, ◌≤◌, ◌<◌, min, max, ◌≡◌, refl, sym, ap, ap₂, ◌∙◌, ◌⊎◌, inl, inr,
  Bool-cases, false, List, [], ◌++◌, length, length-take, length-drop, take, drop, replicate, ltb,
  le→leb, if◌then◌else◌, take-min, take-replicate, take_all, drop-take, eq-nil_of_length, ltb→lt,
  All-take, All-drop, All-append, ok, arith,
}
use nightrun.Prelude.Bytes.{IsByte, IsBytes, sub-fits}
use nightrun.Crc32
use nightrun.Crc32.Classic.{update-append, update-lt, update-nil}
use nightrun.Nrm.Verify.{StreamingVerifier, crc_fields_off, feed_fields, feed_meta, feed_data}
use nightrun.Nrm.Verify.Regions.{
  blank, blank_before, blank_after, blank_parts, take-blank, length-blank,
}

pub update_three :
    (c : ℕ) (xs ys zs : List ℕ)
    → c < 2 ^ 32
    → IsBytes xs
    → IsBytes ys
    → IsBytes zs
    → Crc32.update (Crc32.update (Crc32.update c xs) ys) zs ≡ Crc32.update c (xs ++ (ys ++ zs))
update_three c xs ys zs hc hx hy hz =
    update-append (Crc32.update c xs) ys zs (update-lt c xs hc hx) hy hz
    ∙ update-append c xs (ys ++ zs) hc hx (All-append IsByte ys zs hy hz)

pub zeros-IsBytes : (n : ℕ) → IsBytes (replicate n 0)
zeros-IsBytes zero = tt
zeros-IsBytes (suc n) = (omega arith, zeros-IsBytes n)

-- What a chunk at `offset` adds to the two regions.
abbrev pub meta_part : ℕ → ℕ → List ℕ → List ℕ
meta_part meta_end offset chunk = take (meta_end - offset) (blank offset chunk)

abbrev pub data_part : ℕ → ℕ → ℕ → List ℕ → List ℕ
data_part data_off data_end offset chunk = drop (data_off - offset) (take (data_end - offset) chunk)

module _ (v : StreamingVerifier) (offset : ℕ) (chunk : List ℕ) (bytes : IsBytes chunk) where
  abbrev seg : List ℕ
  seg = take (v.meta_end - offset) chunk

  feed_fields_lem :
      v.meta < 2 ^ 32
      → offset < crc_fields_off + 8
      → crc_fields_off < offset + length seg
      → feed_fields v.meta seg offset
          (max crc_fields_off offset)
          (min (crc_fields_off + 8) (offset + length seg))
        ≡ ok (Crc32.update v.meta (blank offset seg))
  unfolding feed_fields
  feed_fields_lem hc before behind =
      let zs = max crc_fields_off offset in
      let ze = min (crc_fields_off + 8) (offset + length seg) in
      let a = zs - offset in
      let c = ze - offset in
      let parts =
        blank_parts offset a c seg (omega arith) (omega arith) (omega arith) (grind arith)
          (omega arith) (grind arith) in
      let sg = All-take IsByte (v.meta_end - offset) chunk bytes in
      rw
        (
          le→leb offset zs (omega arith),
          sub-fits seg 0 a (omega arith) (omega arith),
          le→leb zs ze (omega arith),
          sub-fits (replicate 8 0) 0 (ze - zs) (omega arith) (omega arith),
          le→leb offset ze (omega arith),
          sub-fits seg c (length seg) (omega arith) (omega arith),
        )
        (ap ok (
          update_three v.meta (take (a - 0) seg) (take (ze - zs - 0) (replicate 8 0))
            (take (length seg - c) (drop c seg)) hc (All-take IsByte (a - 0) seg sg)
            (All-take IsByte (ze - zs - 0) (replicate 8 0) (zeros-IsBytes 8))
            (All-take IsByte (length seg - c) (drop c seg) (All-drop IsByte c seg sg))
          ∙ ap (Crc32.update v.meta) (
              ap₂ ◌++◌ (ap (λ (k : ℕ). take k seg) {x = a - 0} (omega arith)) (
                ap₂ ◌++◌
                  (take-replicate (ze - zs - 0) 8 0 (omega arith)
                    ∙ ap (λ (k : ℕ). replicate k 0) {y = c - a} (omega arith))
                  (take_all (length seg - c) (drop c seg) (omega (arith, length-drop c seg))))
              ∙ sym parts)))

  seg-blank : take (v.meta_end - offset) (blank offset chunk) ≡ blank offset seg
  seg-blank = take-blank (v.meta_end - offset) offset chunk

  pub meta_part_none :
      min (offset + length chunk) v.meta_end ≤ min offset v.meta_end
      → meta_part v.meta_end offset chunk ≡ []
  meta_part_none h = eq-nil_of_length _ (
      omega
        (arith, length-take (v.meta_end - offset) (blank offset chunk), length-blank offset chunk))

  length-seg : length seg ≡ min (v.meta_end - offset) (length chunk)
  length-seg = length-take (v.meta_end - offset) chunk

  seg_plain :
      (crc_fields_off + 8 ≤ offset) ⊎ (offset + length seg ≤ crc_fields_off)
      → meta_part v.meta_end offset chunk ≡ seg
  seg_plain (inl late) = seg-blank ∙ blank_after offset seg late
  seg_plain (inr early) = seg-blank ∙ blank_before offset seg early

  -- The test on the two crc fields.
  routed :
      v.meta < 2 ^ 32
      → 0 < length seg
      → (if ltb (max crc_fields_off offset) (min (crc_fields_off + 8) (offset + length seg))
          then feed_fields v.meta seg offset
              (max crc_fields_off offset)
              (min (crc_fields_off + 8) (offset + length seg))
          else ok (Crc32.update v.meta seg))
        ≡ ok (Crc32.update v.meta (meta_part v.meta_end offset chunk))
  routed hc full =
      elim (Bool-cases
        (ltb (max crc_fields_off offset) (min (crc_fields_off + 8) (offset + length seg)))) [
          | inl meets ↦
              let fields = ltb→lt _ _ meets in
              rw meets (
                feed_fields_lem hc (omega arith) (omega arith)
                ∙ ap (λ t. ok (Crc32.update v.meta t)) (sym seg-blank))
          | inr misses ↦
              rw misses (ap (λ t. ok (Crc32.update v.meta t)) (sym (seg_plain (apart misses))))
        ]
    where
      apart :
          ltb (max crc_fields_off offset) (min (crc_fields_off + 8) (offset + length seg)) ≡ false
          → (crc_fields_off + 8 ≤ offset) ⊎ (offset + length seg ≤ crc_fields_off)
      apart h = grind arith

  pub feed_meta_lem :
      v.meta < 2 ^ 32
      → feed_meta v offset chunk ≡ ok (Crc32.update v.meta (meta_part v.meta_end offset chunk))
  unfolding feed_meta
  feed_meta_lem hc =
      elim (Bool-cases (ltb (min offset v.meta_end) (min (offset + length chunk) v.meta_end))) [
        | inr nothing ↦ rw (nothing, meta_part_none (ground arith), update-nil) refl
        | inl some_bytes ↦
            let inside : min offset v.meta_end < min (offset + length chunk) v.meta_end =
              ltb→lt _ _ some_bytes in
            let e0 : min offset v.meta_end ≡ offset = omega arith in
            let e1 : min (offset + length chunk) v.meta_end ≡ offset + length seg =
              omega (arith, length-seg) in
            let same : take (offset + length seg - offset - (offset - offset))
                  (drop (offset - offset) chunk)
                ≡ seg =
              ap (λ (k : ℕ). take (offset + length seg - offset - k) (drop k chunk)) {y = 0}
                (omega arith)
              ∙ take-min (offset + length seg - offset - 0) (v.meta_end - offset) chunk
                  (omega (arith, length-seg)) in
            rw
              (
                some_bytes,
                e0,
                e1,
                le→leb offset offset (omega arith),
                le→leb offset (offset + length seg) (omega arith),
                sub-fits chunk (offset - offset) (offset + length seg - offset) (omega arith)
                    (omega (arith, length-seg)),
                same,
              )
              (routed hc (omega arith))
      ]

  data_seg :
      (a b : ℕ)
      → a ≡ v.data_off - offset
      → min b (length chunk) ≡ min (v.data_end - offset) (length chunk)
      → take (b - a) (drop a chunk) ≡ data_part v.data_off v.data_end offset chunk
  data_seg a b ha hb =
      sym (drop-take a b (b - a) chunk refl)
      ∙ ap₂ (λ (k : ℕ) t. drop k t) ha (take-min b (v.data_end - offset) chunk hb)

  pub feed_data_lem :
      feed_data v offset chunk
      ≡ ok (Crc32.update v.tensor_data (data_part v.data_off v.data_end offset chunk))
  unfolding feed_data
  feed_data_lem =
      let d0 = min (max offset v.data_off) v.data_end in
      let d1 = min (max (offset + length chunk) v.data_off) v.data_end in
      elim (Bool-cases (ltb d0 d1)) [
        | inr nothing ↦
            let closed : d1 ≤ d0 = ground arith in
            let empty : data_part v.data_off v.data_end offset chunk ≡ [] = eq-nil_of_length _ (
              omega (
                arith,
                length-drop (v.data_off - offset) (take (v.data_end - offset) chunk),
                length-take (v.data_end - offset) chunk,
              )) in
            rw (nothing, empty, update-nil) refl
        | inl some_bytes ↦
            let open_range = ltb→lt d0 d1 some_bytes in
            rw
              (
                some_bytes,
                le→leb offset d0 (omega arith),
                le→leb offset d1 (omega arith),
                sub-fits chunk (d0 - offset) (d1 - offset) (omega arith) (omega arith),
                data_seg (d0 - offset) (d1 - offset) (omega arith) (omega arith),
              )
              refl
      ]
