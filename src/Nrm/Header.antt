-- ===== src/Nrm/Header.antt =====
-- crates/nr-model/src/format.rs: the reads of `Model::parse`, field by field.
pub mod Reads
use nightrun.Prelude.{ℕ, List}
use nightrun.Nrm.Types.{Arch, Meta}
use nightrun.Nrm.Cursor.{Cursor, ◌>>=◌, pure, u16, u32, u64, f32_bits, name_bytes}

-- The local variables of `parse` behind the metadata.
pub record Layout : Type 0 where
  pub tok_off : ℕ
  pub tok_size : ℕ
  pub table_off : ℕ
  pub tensor_count : ℕ
  pub data_off : ℕ
  pub data_size : ℕ
  pub data_crc : ℕ
  pub meta_crc : ℕ

unfoldable pub read_meta : Arch → Cursor Meta
read_meta arch = do
  dim ← u32
  n_layers ← u32
  n_heads ← u32
  n_kv_heads ← u32
  head_dim ← u32
  ffn_dim ← u32
  vocab ← u32
  ctx_train ← u32
  rope_theta ← f32_bits
  norm_eps ← f32_bits
  rope_factor ← f32_bits
  rope_low ← f32_bits
  rope_high ← f32_bits
  rope_orig_ctx ← f32_bits
  flags ← u32
  embed_scale ← f32_bits
  attn_scale ← f32_bits
  residual_scale ← f32_bits
  logit_scale ← f32_bits
  name ← name_bytes
  pure (record {
    arch = arch;
    dim = dim;
    n_layers = n_layers;
    n_heads = n_heads;
    n_kv_heads = n_kv_heads;
    head_dim = head_dim;
    ffn_dim = ffn_dim;
    vocab = vocab;
    ctx_train = ctx_train;
    rope_theta = rope_theta;
    norm_eps = norm_eps;
    rope_factor = rope_factor;
    rope_low = rope_low;
    rope_high = rope_high;
    rope_orig_ctx = rope_orig_ctx;
    flags = flags;
    embed_scale = embed_scale;
    attn_scale = attn_scale;
    residual_scale = residual_scale;
    logit_scale = logit_scale;
    name = name;
  })

unfoldable pub read_layout : Cursor Layout
read_layout = do
  tok_off ← u64
  tok_size ← u64
  table_off ← u64
  tensor_count ← u32
  pad ← u32
  data_off ← u64
  data_size ← u64
  data_crc ← u32
  meta_crc ← u32
  pure (record {
    tok_off = tok_off;
    tok_size = tok_size;
    table_off = table_off;
    tensor_count = tensor_count;
    data_off = data_off;
    data_size = data_size;
    data_crc = data_crc;
    meta_crc = meta_crc;
  })
