-- ===== src/Nrm/Verify.antt =====
-- crates/nr-model/src/verify.rs: `StreamingVerifier`, which checks a .nrm file while its chunks
-- stream in. `usize` has 64 bits. The one sum that the code does not check, `data_off + data_size`,
-- wraps as in the release build.
pub mod Regions
pub mod Streaming
pub mod Whole
pub mod Verdict
use nightrun.Prelude.{
  ℕ, ◌+◌, ◌-◌, ◌*◌, ◌%◌, ◌^◌, min, max, Bool, not, ◌||◌, List, [], ◌∷◌, length, take, drop,
  replicate, Option, none, some, ltb, leb, ◌!=◌, if◌then◌else◌, Result, ok, err, panic, ◌>>=◌, ◌>>◌,
  fail_if, ok_or,
}
use nightrun.Prelude.Bytes.{sub, bytes_eq, le32_at, le64_at}
use nightrun.Crc32
use nightrun.Crc32.{Crc32}
use nightrun.Nrm.Types.{magic, format_version, header_size, entry_size, checked_add, checked_mul}

pub data VerifyError : Type 0 where
  bad_header meta_crc data_crc : VerifyError

pub record StreamingVerifier : Type 0 where
  pub meta : Crc32
  pub tensor_data : Crc32
  pub meta_end : ℕ
  pub data_off : ℕ
  pub data_end : ℕ
  pub expect_meta : ℕ
  pub expect_data : ℕ

abbrev pub crc_fields_off : ℕ
crc_fields_off = header_size - 8

-- `tensor_count.checked_mul(ENTRY_SIZE).and_then(|len| table_off.checked_add(len))`
abbrev table_end_of : ℕ → Option ℕ → Option ℕ
table_end_of table_off none = none
table_end_of table_off (some len) = checked_add table_off len

unfoldable pub new : List ℕ → Result VerifyError StreamingVerifier
new header = do
  fail_if (ltb (length header) header_size) bad_header
  start ← sub header 0 4
  fail_if (not (bytes_eq start magic)) bad_header
  version ← le32_at header 4
  fail_if (version != format_version) bad_header
  tok_off ← le64_at header 136
  tok_size ← le64_at header 144
  table_off ← le64_at header 152
  tensor_count ← le32_at header 160
  data_off ← le64_at header 168
  data_size ← le64_at header 176
  expect_data ← le32_at header 184
  expect_meta ← le32_at header 188
  table_end ← ok_or (table_end_of table_off (checked_mul tensor_count entry_size)) bad_header
  tok_end ← ok_or (checked_add tok_off tok_size) bad_header
  fail_if (tok_off != header_size || table_off != tok_end || ltb data_off table_end) bad_header
  ok (record {
    meta = Crc32.new;
    tensor_data = Crc32.new;
    meta_end = table_end;
    data_off = data_off;
    data_end = (data_off + data_size) % 2 ^ 64;
    expect_meta = expect_meta;
    expect_data = expect_data;
  })

-- `a - b` on `usize`; the branches of `feed` never take more than there is.
abbrev pub checked_sub : ℕ → ℕ → Result VerifyError ℕ
checked_sub a b = if leb b a then ok (a - b) else panic

-- The three updates for a segment that meets the two crc fields, from `m0` to `m1` in the file.
pub feed_fields : Crc32 → List ℕ → ℕ → ℕ → ℕ → Result VerifyError Crc32
feed_fields meta seg m0 zeros_start zeros_end = do
  a ← checked_sub zeros_start m0
  front ← sub seg 0 a
  b ← checked_sub zeros_end zeros_start
  zeros ← sub (replicate 8 0) 0 b
  c ← checked_sub zeros_end m0
  back ← sub seg c (length seg)
  ok (Crc32.update (Crc32.update (Crc32.update meta front) zeros) back)

pub feed_meta : StreamingVerifier → ℕ → List ℕ → Result VerifyError Crc32
feed_meta v offset chunk =
    let m0 = min offset v.meta_end in
    let m1 = min (offset + length chunk) v.meta_end in
    let zeros_start = max crc_fields_off m0 in
    let zeros_end = min (crc_fields_off + 8) m1 in
    if ltb m0 m1
    then (do
      a ← checked_sub m0 offset
      b ← checked_sub m1 offset
      seg ← sub chunk a b
      if ltb zeros_start zeros_end
          then feed_fields v.meta seg m0 zeros_start zeros_end
          else ok (Crc32.update v.meta seg))
    else ok v.meta

pub feed_data : StreamingVerifier → ℕ → List ℕ → Result VerifyError Crc32
feed_data v offset chunk =
    let d0 = min (max offset v.data_off) v.data_end in
    let d1 = min (max (offset + length chunk) v.data_off) v.data_end in
    if ltb d0 d1
    then (do
      a ← checked_sub d0 offset
      b ← checked_sub d1 offset
      seg ← sub chunk a b
      ok (Crc32.update v.tensor_data seg))
    else ok v.tensor_data

unfoldable pub feed : StreamingVerifier → ℕ → List ℕ → Result VerifyError StreamingVerifier
unfolding feed_meta feed_data feed_fields
feed v offset chunk = do
  meta ← feed_meta v offset chunk
  tensor_data ← feed_data v offset chunk
  ok (record v { meta = meta; tensor_data = tensor_data })

unfoldable pub finish : StreamingVerifier → Result VerifyError (Unit {0})
finish v =
    if Crc32.finish v.meta != v.expect_meta
    then err meta_crc
    else if Crc32.finish v.tensor_data != v.expect_data
    then err data_crc
    else ok tt

-- The loader's calls: the chunks of the file in order, each at the offset where the last one ended.
pub feed_all : StreamingVerifier → ℕ → List (List ℕ) → Result VerifyError StreamingVerifier
feed_all v offset [] = ok v
feed_all v offset (chunk ∷ rest) = do
  v' ← feed v offset chunk
  feed_all v' (offset + length chunk) rest
