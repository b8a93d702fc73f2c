-- ===== src/Examples/Models.antt =====
-- The parser, the lookups and the streaming check of .nrm files on a small file.
use nightrun.Prelude.{
  ℕ, ◌≡◌, ◌≢◌, refl, All, List, [], ◌∷◌, take, drop, ok, panic, ◌>>=◌, some, ◌==◌, arith,
}
use nightrun.Prelude.Bytes.{IsBytes}
use nightrun.Crc32
use nightrun.Nrm.Types.{
  Meta, TensorView, llama3, output_norm, f32, kind_code, byte_size, arch_from_u32, dtype_from_u16,
  is_finite, lt_zero, le_zero,
}
use nightrun.Nrm.Header.{Layout, read_meta, read_layout}
use nightrun.Nrm.Model.{
  Model, parse, parse_regions, incoherent, check_entry, parse_entry, parse_entries, meta_checksum,
  tensor, find_entry, view, verify_data,
}
use nightrun.Nrm.Model.Parse.{IsValid, parse-IsValid, parse-ne-panic}
use nightrun.Nrm.Model.Tensor.{IsSized, tensor-ne-panic, tensor-IsSized, verify_data_lem}
use nightrun.Nrm.Model.Checksum.{meta_checksum-feed_all}
use nightrun.Nrm.Verify.{StreamingVerifier, new, feed_all, finish}
use nightrun.Nrm.Verify.Whole.{flatten}
use nightrun.Nrm.Verify.Verdict.{verdict, feed_all-finish}
use nightrun.Examples.File.{header, body, file}
use nightrun.Examples.Checks.{all_bytes, all_bytes-IsBytes}

abbrev sample_meta : Meta
sample_meta = record {
  arch = llama3;
  dim = 64;
  n_layers = 1;
  n_heads = 1;
  n_kv_heads = 1;
  head_dim = 64;
  ffn_dim = 128;
  vocab = 256;
  ctx_train = 32;
  rope_theta = 1176256512;
  norm_eps = 925353388;
  rope_factor = 0;
  rope_low = 0;
  rope_high = 0;
  rope_orig_ctx = 0;
  flags = 0;
  embed_scale = 1065353216;
  attn_scale = 0;
  residual_scale = 1065353216;
  logit_scale = 1065353216;
  name = take 48 (drop 88 header);
}

abbrev sample : Model
sample = record {
  meta = sample_meta;
  entries =
      record { kind = 2; layer = 0; dtype = f32; offset = 0; size = 4; rows = 1; cols = 1 } ∷ [];
  tokenizer_blob = 84 ∷ 75 ∷ [];
  tensor_data = 1 ∷ 2 ∷ 3 ∷ 4 ∷ [];
  data_crc = 3057449933;
  blob = file;
}

parse-file : parse file ≡ ok sample
unfolding parse read_meta read_layout parse_regions incoherent check_entry parse_entry parse_entries
    meta_checksum byte_size arch_from_u32 dtype_from_u16 is_finite lt_zero le_zero Crc32.update
    Crc32.update_bytes Crc32.lookups Crc32.table Crc32.make_tables Crc32.next_rows Crc32.next_row
    Crc32.first_row Crc32.fill Crc32.bit_steps Crc32.bit_step Crc32.finish
parse-file = refl

parse-IsValid_example : IsValid sample
parse-IsValid_example = parse-IsValid file sample parse-file

parse-ne-panic_example : parse file ≢ panic
parse-ne-panic_example = parse-ne-panic file

tensor-ne-panic_example : tensor sample output_norm 0 ≢ panic
tensor-ne-panic_example = tensor-ne-panic file sample parse-file output_norm 0

abbrev norm : TensorView
norm = record { dtype = f32; rows = 1; cols = 1; bytes = 1 ∷ 2 ∷ 3 ∷ 4 ∷ [] }

tensor-norm : tensor sample output_norm 0 ≡ ok norm
unfolding tensor find_entry view kind_code
tensor-norm = refl

tensor-IsSized_example : IsSized norm
tensor-IsSized_example = tensor-IsSized file sample parse-file output_norm 0 norm tensor-norm

verify_data_lem_example :
    verify_data sample ≡ some (Crc32.checksum (1 ∷ 2 ∷ 3 ∷ 4 ∷ []) == 3057449933)
verify_data_lem_example = verify_data_lem sample (omega arith)

abbrev sample_layout : Layout
sample_layout = record {
  tok_off = 192;
  tok_size = 2;
  table_off = 194;
  tensor_count = 1;
  data_off = 226;
  data_size = 4;
  data_crc = 3057449933;
  meta_crc = 0;
}

abbrev sample_verifier : StreamingVerifier
sample_verifier = record {
  meta = Crc32.new;
  tensor_data = Crc32.new;
  meta_end = 226;
  data_off = 226;
  data_end = 230;
  expect_meta = 2622277787;
  expect_data = 3057449933;
}

new-header : new header ≡ ok sample_verifier
unfolding new
new-header = refl

abbrev chunks : List (List ℕ)
chunks = take 187 file ∷ drop 187 header ∷ body ∷ []

chunks-IsBytes : All IsBytes chunks
chunks-IsBytes = (
  all_bytes-IsBytes (take 187 file) (unfold all_bytes in refl),
  (
    all_bytes-IsBytes (drop 187 header) (unfold all_bytes in refl),
    (all_bytes-IsBytes body (unfold all_bytes in refl), tt),
  ),
)

feed_all-finish_example :
    (feed_all sample_verifier 0 chunks >>= finish) ≡ verdict sample_verifier (flatten chunks)
feed_all-finish_example = feed_all-finish header sample_verifier new-header chunks chunks-IsBytes

meta_checksum-feed_all_example :
    (streamed : StreamingVerifier) × (feed_all sample_verifier 0 chunks ≡ ok streamed)
    × (meta_checksum file sample_layout 194 226 ≡ ok (Crc32.finish streamed.meta))
meta_checksum-feed_all_example =
    meta_checksum-feed_all file sample_layout 194 226
      (all_bytes-IsBytes file (unfold all_bytes in refl)) refl refl (omega arith) (omega arith)
      (omega arith) header sample_verifier chunks new-header refl chunks-IsBytes refl
