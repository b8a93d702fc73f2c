-- ===== src/Nrm/Types.antt =====
-- crates/nr-model/src/format.rs: the constants and types of the format.
-- Integers of every width are numbers; an `f32` is its bit pattern.
pub mod Codes
use nightrun.Prelude.{
  ℕ, ◌+◌, ◌*◌, ◌/◌, ◌%◌, ◌^◌, Bool, ◌&&◌, ◌||◌, List, [], ◌∷◌, Option, none, some, ltb, leb, ◌==◌,
  ◌!=◌, if◌then◌else◌,
}

-- b"NRUN"
abbrev pub magic : List ℕ
magic = 0x4e ∷ 0x52 ∷ 0x55 ∷ 0x4e ∷ []

abbrev pub format_version : ℕ
format_version = 3

abbrev pub header_size : ℕ
header_size = 192

abbrev pub name_len : ℕ
name_len = 48

abbrev pub entry_size : ℕ
entry_size = 32

abbrev pub data_align : ℕ
data_align = 64

pub data Arch : Type 0 where
  llama3 qwen3 granite : Arch

unfoldable pub arch_from_u32 : ℕ → Option Arch
arch_from_u32 v =
    if v == 1
    then some llama3
    else if v == 2
    then some qwen3
    else if v == 3
    then some granite
    else none

pub data TensorKind : Type 0 where
  tok_embed output_norm output rope_freqs : TensorKind
  attn_norm attn_q attn_k attn_v attn_o : TensorKind
  ffn_norm ffn_gate ffn_up ffn_down : TensorKind
  attn_q_norm attn_k_norm : TensorKind

-- `kind as u16`
unfoldable pub kind_code : TensorKind → ℕ
kind_code tok_embed = 1
kind_code output_norm = 2
kind_code output = 3
kind_code rope_freqs = 4
kind_code attn_norm = 10
kind_code attn_q = 11
kind_code attn_k = 12
kind_code attn_v = 13
kind_code attn_o = 14
kind_code ffn_norm = 15
kind_code ffn_gate = 16
kind_code ffn_up = 17
kind_code ffn_down = 18
kind_code attn_q_norm = 19
kind_code attn_k_norm = 20

unfoldable pub kind_from_u16 : ℕ → Option TensorKind
kind_from_u16 v =
    if v == 1
    then some tok_embed
    else if v == 2
    then some output_norm
    else if v == 3
    then some output
    else if v == 4
    then some rope_freqs
    else if v == 10
    then some attn_norm
    else if v == 11
    then some attn_q
    else if v == 12
    then some attn_k
    else if v == 13
    then some attn_v
    else if v == 14
    then some attn_o
    else if v == 15
    then some ffn_norm
    else if v == 16
    then some ffn_gate
    else if v == 17
    then some ffn_up
    else if v == 18
    then some ffn_down
    else if v == 19
    then some attn_q_norm
    else if v == 20
    then some attn_k_norm
    else none

pub data TensorDtype : Type 0 where
  f32 q8_0 q4_k q6_k : TensorDtype

-- The match on the dtype field of a table entry.
unfoldable pub dtype_from_u16 : ℕ → Option TensorDtype
dtype_from_u16 v =
    if v == 0
    then some f32
    else if v == 1
    then some q8_0
    else if v == 2
    then some q4_k
    else if v == 3
    then some q6_k
    else none

-- `u64` and, on the 64-bit targets, `usize`.
abbrev pub checked_add : ℕ → ℕ → Option ℕ
checked_add a b = if ltb (a + b) (2 ^ 64) then some (a + b) else none

abbrev pub checked_mul : ℕ → ℕ → Option ℕ
checked_mul a b = if ltb (a * b) (2 ^ 64) then some (a * b) else none

-- `n.is_multiple_of(block).then_some(n / block).and_then(|b| b.checked_mul(bytes))`
abbrev blocks : ℕ → ℕ → ℕ → Option ℕ
blocks n block bytes = if n % block == 0 then checked_mul (n / block) bytes else none

unfoldable pub byte_size : TensorDtype → ℕ → Option ℕ
byte_size f32 n = checked_mul n 4
byte_size q8_0 n = blocks n 32 34
byte_size q4_k n = blocks n 256 144
byte_size q6_k n = blocks n 256 210

-- `x.is_finite()`, `x < 0.0` and `x <= 0.0` on the bit pattern.
unfoldable pub is_finite : ℕ → Bool
is_finite bits = bits / 2 ^ 23 % 256 != 255

unfoldable pub lt_zero : ℕ → Bool
lt_zero bits = ltb 0x8000_0000 bits && leb bits 0xff80_0000

unfoldable pub le_zero : ℕ → Bool
le_zero bits = bits == 0 || leb 0x8000_0000 bits && leb bits 0xff80_0000

pub record Meta : Type 0 where
  pub arch : Arch
  pub dim : ℕ
  pub n_layers : ℕ
  pub n_heads : ℕ
  pub n_kv_heads : ℕ
  pub head_dim : ℕ
  pub ffn_dim : ℕ
  pub vocab : ℕ
  pub ctx_train : ℕ
  pub rope_theta : ℕ
  pub norm_eps : ℕ
  pub rope_factor : ℕ
  pub rope_low : ℕ
  pub rope_high : ℕ
  pub rope_orig_ctx : ℕ
  pub flags : ℕ
  pub embed_scale : ℕ
  pub attn_scale : ℕ
  pub residual_scale : ℕ
  pub logit_scale : ℕ
  pub name : List ℕ

pub record TensorEntry : Type 0 where
  pub kind : ℕ
  pub layer : ℕ
  pub dtype : TensorDtype
  pub offset : ℕ
  pub size : ℕ
  pub rows : ℕ
  pub cols : ℕ

pub record TensorView : Type 0 where
  pub dtype : TensorDtype
  pub rows : ℕ
  pub cols : ℕ
  pub bytes : List ℕ

pub data ParseError : Type 0 where
  too_short bad_magic bad_table : ParseError
  bad_version : ℕ → ParseError
  -- `expect` and `got`
  meta_crc : ℕ → ℕ → ParseError
  missing_tensor : TensorKind → ParseError
