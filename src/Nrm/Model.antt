-- ===== src/Nrm/Model.antt =====
-- crates/nr-model/src/format.rs: `Model`, its parser and its lookups.
pub mod Entries
pub mod Parse
pub mod Checksum
pub mod Tensor
use nightrun.Prelude.{
  ℕ, zero, suc, ◌+◌, ◌-◌, ◌*◌, ◌%◌, ◌^◌, min, Bool, true, false, not, ◌&&◌, ◌||◌, List, [], ◌∷◌,
  length, take, drop, replicate, Option, none, some, ltb, leb, ◌==◌, ◌!=◌, if◌then◌else◌, Result,
  ok, err, panic, ◌>>=◌, ◌>>◌, fail_if, ok_or,
}
use nightrun.Prelude.Bytes.{sub, bytes_eq, le32_at}
use nightrun.Crc32
use nightrun.Nrm.Types.{
  Meta, TensorKind, TensorDtype, TensorEntry, TensorView, ParseError, too_short, bad_magic,
  bad_table, bad_version, meta_crc, missing_tensor, magic, format_version, header_size, entry_size,
  data_align, arch_from_u32, kind_code, dtype_from_u16, checked_add, checked_mul, byte_size,
  is_finite, lt_zero, le_zero,
}
use nightrun.Nrm.Cursor.{u16, u32, u64}
use nightrun.Nrm.Header.{Layout, read_meta, read_layout}

pub record Model : Type 0 where
  pub meta : Meta
  pub entries : List TensorEntry
  pub tokenizer_blob : List ℕ
  pub tensor_data : List ℕ
  pub data_crc : ℕ
  pub blob : List ℕ

-- The scalars that `parse` rejects.
unfoldable pub incoherent : Meta → Bool
incoherent m =
    not (is_finite m.embed_scale)
    || not (is_finite m.attn_scale)
    || lt_zero m.attn_scale
    || not (is_finite m.residual_scale)
    || le_zero m.residual_scale
    || not (is_finite m.logit_scale)
    || le_zero m.logit_scale

-- The tests on one entry of the tensor table.
unfoldable pub check_entry : ℕ → TensorEntry → Result ParseError TensorEntry
check_entry data_size e = do
  end ← ok_or (checked_add e.offset e.size) bad_table
  fail_if (ltb data_size end) bad_table
  fail_if (e.offset % data_align != 0) bad_table
  n ← ok_or (checked_mul e.rows e.cols) bad_table
  size ← ok_or (byte_size e.dtype n) bad_table
  fail_if (size != e.size) bad_table
  ok e

-- One round of the loop over the table; the cursor stands at `pos`.
unfoldable pub parse_entry : List ℕ → ℕ → ℕ → Result ParseError (TensorEntry × ℕ)
parse_entry blob data_size pos = do
  (kind, p1) ← u16 blob pos
  (layer, p2) ← u16 blob p1
  (dtype_code, p3) ← u16 blob p2
  dtype ← ok_or (dtype_from_u16 dtype_code) bad_table
  (pad, p4) ← u16 blob p3
  (offset, p5) ← u64 blob p4
  (size, p6) ← u64 blob p5
  (rows, p7) ← u32 blob p6
  (cols, p8) ← u32 blob p7
  e ← check_entry data_size (record {
    kind = kind;
    layer = layer;
    dtype = dtype;
    offset = offset;
    size = size;
    rows = rows;
    cols = cols;
  })
  ok (e, p8)

unfoldable pub parse_entries : ℕ → List ℕ → ℕ → ℕ → Result ParseError (List TensorEntry)
parse_entries zero blob data_size pos = ok []
parse_entries (suc n) blob data_size pos = do
  (e, next) ← parse_entry blob data_size pos
  rest ← parse_entries n blob data_size next
  ok (e ∷ rest)

-- The checksum of header, tokenizer and table, with the crc fields as zeros.
unfoldable pub meta_checksum : List ℕ → Layout → ℕ → ℕ → Result ParseError ℕ
meta_checksum blob l tok_end table_end = do
  head ← sub blob 0 (header_size - 8)
  tok ← sub blob l.tok_off tok_end
  table ← sub blob l.table_off table_end
  let c1 = Crc32.update Crc32.new head
  let c2 = Crc32.update c1 (replicate 8 0)
  let c3 = Crc32.update c2 tok
  ok (Crc32.finish (Crc32.update c3 table))

-- `parse` from the scalar tests on.
unfoldable pub parse_regions : List ℕ → Meta → Layout → Result ParseError Model
parse_regions blob meta l = do
  fail_if (incoherent meta) bad_table
  table_len ← ok_or (checked_mul l.tensor_count entry_size) bad_table
  table_end ← ok_or (checked_add l.table_off table_len) too_short
  data_end ← ok_or (checked_add l.data_off l.data_size) too_short
  tok_end ← ok_or (checked_add l.tok_off l.tok_size) too_short
  fail_if (ltb (length blob) table_end || ltb (length blob) data_end || ltb (length blob) tok_end)
      too_short
  got ← meta_checksum blob l tok_end table_end
  fail_if (got != l.meta_crc) (meta_crc l.meta_crc got)
  entries ← parse_entries l.tensor_count blob l.data_size l.table_off
  tok ← sub blob l.tok_off tok_end
  tensor_data ← sub blob l.data_off data_end
  ok (record {
    meta = meta;
    entries = entries;
    tokenizer_blob = tok;
    tensor_data = tensor_data;
    data_crc = l.data_crc;
    blob = blob;
  })

unfoldable pub parse : List ℕ → Result ParseError Model
parse blob = do
  fail_if (ltb (length blob) header_size) too_short
  start ← sub blob 0 4
  fail_if (not (bytes_eq start magic)) bad_magic
  (version, p1) ← u32 blob 4
  fail_if (version != format_version) (bad_version version)
  (code, p2) ← u32 blob p1
  arch ← ok_or (arch_from_u32 code) bad_table
  (meta, p3) ← read_meta arch blob p2
  (layout, p4) ← read_layout blob p3
  parse_regions blob meta layout

-- The loop of `verify_data` over chunks of 32 MiB, `done` bytes into the data.
pub verify_loop : ℕ → List ℕ → ℕ → Crc32.Crc32 → Option Crc32.Crc32
verify_loop zero bytes done crc = none
verify_loop (suc fuel) bytes done crc =
    let end = min (done + 32 * 1024 * 1024) (length bytes) in
    let next =
      verify_loop fuel bytes end (Crc32.update crc (take (end - done) (drop done bytes))) in
    if ltb done (length bytes) then next else some crc

abbrev same_crc : ℕ → Option Crc32.Crc32 → Option Bool
same_crc expect none = none
same_crc expect (some crc) = some (Crc32.finish crc == expect)

-- The progress callback is left out: it returns nothing.
pub verify_data : Model → Option Bool
verify_data m =
    same_crc m.data_crc (verify_loop (length m.tensor_data + 1) m.tensor_data 0 Crc32.new)

unfoldable pub find_entry : ℕ → ℕ → List TensorEntry → Option TensorEntry
find_entry kind layer [] = none
find_entry kind layer (e ∷ rest) =
    if e.kind == kind && e.layer == layer then some e else find_entry kind layer rest

unfoldable pub view : Model → TensorEntry → Result ParseError TensorView
view m e = do
  bytes ← sub m.tensor_data e.offset ((e.offset + e.size) % 2 ^ 64)
  ok (record { dtype = e.dtype; rows = e.rows; cols = e.cols; bytes = bytes })

unfoldable pub tensor : Model → TensorKind → ℕ → Result ParseError TensorView
tensor m kind layer = do
  e ← ok_or (find_entry (kind_code kind) layer m.entries) (missing_tensor kind)
  view m e

pub has_tensor : Model → TensorKind → Bool
has_tensor m kind = any_entry m.entries
  where
    any_entry : List TensorEntry → Bool
    any_entry [] = false
    any_entry (e ∷ rest) = e.kind == kind_code kind || any_entry rest

abbrev pub total_size : Model → ℕ
total_size m = length m.blob
