-- ===== src/Nrm/Verify/Verdict.antt =====
-- The verdict of `StreamingVerifier` on a file that came in chunks.
use nightrun.Prelude.{
  ℕ, ◌≤◌, ◌++◌, ◌∙◌, take-append_split, append-nil, length-append, le→ltb, ◌≡◌, ◌≢◌, refl, false,
  not, ◌||◌, List, length, take, ltb, if◌then◌else◌, ◌!=◌, All, some, Result, ok, err, panic, ◌>>=◌,
  Safe, Safe-fail_if, Safe-ok_or, Safe-ok, Safe-ne-panic, arith,
}
use nightrun.Prelude.Bytes.{
  IsBytes, sub-fits, bytes_eq, le32_at-append, le64_at-append, le32_at-lt, le64_at-lt, le32_of,
  le64_of,
}
use nightrun.Crc32
use nightrun.Nrm.Types.{magic, format_version, header_size, entry_size, checked_add, checked_mul}
use nightrun.Nrm.Verify.{
  StreamingVerifier, VerifyError, bad_header, meta_crc, data_crc, new, table_end_of, feed_all,
  finish,
}
use nightrun.Nrm.Verify.Streaming.{meta_part, data_part}
use nightrun.Nrm.Verify.Whole.{IsWords, fed, flatten, feed_all-fed}

-- A verifier that has seen no byte, whose regions come in the order of the file.
pub record IsFresh (v : StreamingVerifier) : Type 0 where
  pub meta_fresh : v.meta ≡ Crc32.new
  pub data_fresh : v.tensor_data ≡ Crc32.new
  pub meta_first : v.meta_end ≤ v.data_off
  pub header_hashed : header_size ≤ v.meta_end

-- What `finish` says of a whole file: the checksums of its two regions against those expected.
abbrev pub verdict : StreamingVerifier → List ℕ → Result VerifyError (Unit {0})
verdict v file =
    if Crc32.checksum (meta_part v.meta_end 0 file) != v.expect_meta
    then err meta_crc
    else if Crc32.checksum (data_part v.data_off v.data_end 0 file) != v.expect_data
    then err data_crc
    else ok tt

regions :
    (tok_off tok_size table_off tensor_count data_off table_end tok_end : ℕ)
    → table_end_of table_off (checked_mul tensor_count entry_size) ≡ some table_end
    → checked_add tok_off tok_size ≡ some tok_end
    → (tok_off != header_size || table_off != tok_end || ltb data_off table_end) ≡ false
    → (header_size ≤ table_end) × (table_end ≤ data_off)
regions tok_off tok_size table_off tensor_count data_off table_end tok_end h k g = ground arith

new-Safe : (header : List ℕ) → Safe IsFresh (new header)
unfolding new
new-Safe header = Safe-fail_if IsFresh (ltb (length header) header_size) bad_header _ λ long.
    let enough : header_size ≤ length header = ground arith in
    rw
      (
        sub-fits header 0 4 (omega arith) (omega arith),
        le32_at-lt header 4 (omega arith),
        le64_at-lt header 136 (omega arith),
        le64_at-lt header 144 (omega arith),
        le64_at-lt header 152 (omega arith),
        le32_at-lt header 160 (omega arith),
        le64_at-lt header 168 (omega arith),
        le64_at-lt header 176 (omega arith),
        le32_at-lt header 184 (omega arith),
        le32_at-lt header 188 (omega arith),
      )
      (Safe-fail_if IsFresh (not (bytes_eq (take 4 header) magic)) bad_header _ λ _.
        Safe-fail_if IsFresh (le32_of header 4 != format_version) bad_header _ λ _.
          Safe-ok_or IsFresh
            (table_end_of (le64_of header 152) (checked_mul (le32_of header 160) entry_size))
            bad_header _
            λ table_end e1.
              Safe-ok_or IsFresh (checked_add (le64_of header 136) (le64_of header 144)) bad_header
                _
                λ tok_end e2. Safe-fail_if IsFresh _ bad_header _ λ in_order.
                  let (first, hashed) =
                    regions (le64_of header 136) (le64_of header 144) (le64_of header 152)
                      (le32_of header 160) (le64_of header 168) table_end tok_end e1 e2 in_order in
                  record {
                    meta_fresh = refl;
                    data_fresh = refl;
                    meta_first = hashed;
                    header_hashed = first;
                  })

-- The verifier that `new` returns for a header has hashed nothing, its metadata region holds at
-- least the header, and it does not reach past the start of the tensor data.
pub new-IsFresh : (header : List ℕ) (v : StreamingVerifier) → new header ≡ ok v → IsFresh v
new-IsFresh header v e = Safe-ok IsFresh (new header) v (new-Safe header) e

-- `StreamingVerifier::new` does not panic, whatever the header's bytes, where the sum that it does
-- not check wraps.
pub new-ne-panic : (header : List ℕ) → new header ≢ panic
new-ne-panic header = Safe-ne-panic IsFresh (new header) (new-Safe header)

-- A fresh verifier that was fed a file gives the verdict on the file.
pub finish-fed :
    (v : StreamingVerifier) (file : List ℕ) → IsFresh v → finish (fed v 0 file) ≡ verdict v file
unfolding finish Crc32.checksum
finish-fed v file f = rw (f.meta_fresh, f.data_fresh) refl

pub IsFresh-IsWords : (v : StreamingVerifier) → IsFresh v → IsWords v
IsFresh-IsWords v f = (rw (f.meta_fresh) (omega arith), rw (f.data_fresh) (omega arith))

module _ (header : List ℕ) (v : StreamingVerifier) (accepted : new header ≡ ok v)
    (chunks : List (List ℕ)) (bytes : All IsBytes chunks) where
  fresh : IsFresh v
  fresh = new-IsFresh header v accepted

  -- Where `new` accepts a header, feeding bytes in chunks of any sizes and then asking for the
  -- verdict never panics, and gives what the checksums of the two regions of the whole input
  -- give, the crc fields counted as zeros.
  pub feed_all-finish : (feed_all v 0 chunks >>= finish) ≡ verdict v (flatten chunks)
  feed_all-finish =
      rw (feed_all-fed chunks v 0 (IsFresh-IsWords v fresh) bytes)
        (finish-fed v (flatten chunks) fresh)

-- What `new` reads lies in the first bytes of the file, so it may see more of it.
pub new-append : (xs ys : List ℕ) → header_size ≤ length xs → new (xs ++ ys) ≡ new xs
unfolding new
new-append xs ys h =
    rw
      (
        sub-fits xs 0 4 (omega arith) (omega arith),
        sub-fits (xs ++ ys) 0 4 (omega arith) (omega (arith, length-append xs ys)),
        le32_at-append xs ys 4 (omega arith),
        le64_at-append xs ys 136 (omega arith),
        le64_at-append xs ys 144 (omega arith),
        le64_at-append xs ys 152 (omega arith),
        le32_at-append xs ys 160 (omega arith),
        le64_at-append xs ys 168 (omega arith),
        le64_at-append xs ys 176 (omega arith),
        le32_at-append xs ys 184 (omega arith),
        le32_at-append xs ys 188 (omega arith),
        lt→no,
        lt→no',
        same_start,
      )
      refl
  where
    lt→no : ltb (length xs) header_size ≡ false
    lt→no = le→ltb _ _ h

    lt→no' : ltb (length (xs ++ ys)) header_size ≡ false
    lt→no' = le→ltb _ _ (omega (arith, length-append xs ys))

    same_start : take 4 (xs ++ ys) ≡ take 4 xs
    same_start = take-append_split 4 0 xs ys (omega arith) ∙ append-nil (take 4 xs)
