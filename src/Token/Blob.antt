-- ===== src/Token/Blob.antt =====
-- crates/nr-token/src/blob.rs: `Tokenizer`, its parser and its lookups.
pub mod Sections
pub mod Search
use nightrun.Prelude.{
  ℕ, zero, suc, ◌+◌, ◌*◌, ◌/◌, ◌^◌, ◌-◌, bit_and, bit_or, Bool, true, false, not, ◌&&◌, ◌||◌, List,
  [], ◌∷◌, length, Option, none, some, ltb, leb, ◌==◌, ◌!=◌, if◌then◌else◌, Result, ok, err, panic,
  ◌>>=◌, ◌>>◌, fail_if, ok_or,
}
use nightrun.Prelude.Bytes.{sub, bytes_eq, le16_at, le32_at}

-- b"NRTK"
abbrev pub magic : List ℕ
magic = 0x4e ∷ 0x52 ∷ 0x54 ∷ 0x4b ∷ []

abbrev pub version : ℕ
version = 2

abbrev pub flag_control : ℕ
flag_control = 1

pub data Template : Type 0 where
  llama3 chat_ml granite : Template

pub record Specials : Type 0 where
  pub bos : ℕ
  pub eos : ℕ
  pub eot : ℕ
  pub start_header : ℕ
  pub end_header : ℕ
  pub end_of_text : ℕ

pub record Tokenizer : Type 0 where
  pub specials : Specials
  pub template : Template
  pub vocab_count : ℕ
  pub byte_ids : List ℕ
  pub table : List ℕ
  pub merges : List ℕ
  pub merge_count : ℕ
  pub pool : List ℕ

pub data Error : Type 0 where
  too_short bad_magic bad_version : Error

template_of : ℕ → Result Error Template
template_of v =
    if v == 1
    then ok llama3
    else if v == 2
    then ok chat_ml
    else if v == 3
    then ok granite
    else err bad_version

read_specials : List ℕ → Result Error Specials
read_specials blob = do
  bos ← le32_at blob 24
  eos ← le32_at blob 28
  eot ← le32_at blob 32
  start_header ← le32_at blob 36
  end_header ← le32_at blob 40
  end_of_text ← le32_at blob 44
  ok (record {
    bos = bos;
    eos = eos;
    eot = eot;
    start_header = start_header;
    end_header = end_header;
    end_of_text = end_of_text;
  })

-- `usize` of 64 bits.
abbrev checked_add : ℕ → ℕ → Option ℕ
checked_add a b = if ltb (a + b) (2 ^ 64) then some (a + b) else none

abbrev checked_mul : ℕ → ℕ → Option ℕ
checked_mul a b = if ltb (a * b) (2 ^ 64) then some (a * b) else none

-- One round of the loop over the vocabulary.
check_token : List ℕ → ℕ → ℕ → Result Error (Unit {0})
check_token table pool_size id = do
  p ← le32_at table (id * 8)
  len ← le16_at table (id * 8 + 4)
  fail_if (ltb pool_size (p + len)) too_short

-- `n` rounds from `id` on.
check_tokens : ℕ → List ℕ → ℕ → ℕ → Result Error (Unit {0})
check_tokens zero table pool_size id = ok tt
check_tokens (suc n) table pool_size id = do
  check_token table pool_size id
  check_tokens n table pool_size (id + 1)

specials_ok : Specials → ℕ → Bool
specials_ok s vocab_count =
    ltb s.bos vocab_count
    && ltb s.eos vocab_count
    && ltb s.eot vocab_count
    && ltb s.start_header vocab_count
    && ltb s.end_header vocab_count
    && ltb s.end_of_text vocab_count

-- `parse` from the section offsets on; the byte ids start at 48, the token table at 1072.
parse_sections : List ℕ → Template → Specials → ℕ → ℕ → ℕ → Result Error Tokenizer
parse_sections blob template specials vocab_count merge_count pool_size = do
  table_len ← ok_or (checked_mul vocab_count 8) too_short
  merges_off ← ok_or (checked_add 1072 table_len) too_short
  merges_len ← ok_or (checked_mul merge_count 16) too_short
  pool_off ← ok_or (checked_add merges_off merges_len) too_short
  pool_end ← ok_or (checked_add pool_off pool_size) too_short
  fail_if (ltb (length blob) pool_end) too_short
  table ← sub blob 1072 merges_off
  check_tokens vocab_count table pool_size 0
  fail_if (not (specials_ok specials vocab_count)) too_short
  byte_ids ← sub blob 48 1072
  merges ← sub blob merges_off pool_off
  pool ← sub blob pool_off (pool_off + pool_size)
  ok (record {
    specials = specials;
    template = template;
    vocab_count = vocab_count;
    byte_ids = byte_ids;
    table = table;
    merges = merges;
    merge_count = merge_count;
    pool = pool;
  })

pub parse : List ℕ → Result Error Tokenizer
parse blob = do
  fail_if (ltb (length blob) (8 + 12 + 24 + 1024)) too_short
  start ← sub blob 0 4
  fail_if (not (bytes_eq start magic)) bad_magic
  v ← le32_at blob 4
  fail_if (v != version) bad_version
  t ← le32_at blob 8
  template ← template_of t
  vocab_count ← le32_at blob 12
  merge_count ← le32_at blob 16
  pool_size ← le32_at blob 20
  specials ← read_specials blob
  parse_sections blob template specials vocab_count merge_count pool_size

abbrev pub vocab_len : Tokenizer → ℕ
vocab_len t = t.vocab_count

unfoldable pub byte_token : Tokenizer → ℕ → Result Error ℕ
byte_token t b = le32_at t.byte_ids (b * 4)

unfoldable pub token_bytes : Tokenizer → ℕ → Result Error (List ℕ)
token_bytes t id = if leb t.vocab_count id then ok [] else (do
  pool_off ← le32_at t.table (id * 8)
  len ← le16_at t.table (id * 8 + 4)
  sub t.pool pool_off (pool_off + len))

pub is_control : Tokenizer → ℕ → Result Error Bool
is_control t id =
    if leb t.vocab_count id
    then ok true
    else (do flags ← le16_at t.table (id * 8 + 6); ok (bit_and flags flag_control != 0))

pub is_stop : Tokenizer → ℕ → Bool
is_stop t id = id == t.specials.eos || id == t.specials.eot || id == t.specials.end_of_text

-- `((left as u64) << 32) | right as u64`
abbrev pub pair_key : ℕ → ℕ → ℕ
pair_key left right = bit_or (left * 2 ^ 32) right

-- The loop of `merge`; to run out of fuel counts as a panic, and does not happen.
unfoldable pub merge_loop : ℕ → Tokenizer → ℕ → ℕ → ℕ → Result Error (Option (ℕ × ℕ))
merge_loop zero t key lo hi = panic
merge_loop (suc fuel) t key lo hi =
    let mid = (lo + hi) / 2 in
    if ltb lo hi
    then (do
      l ← le32_at t.merges (mid * 16)
      r ← le32_at t.merges (mid * 16 + 4)
      if ltb (pair_key l r) key
          then merge_loop fuel t key (mid + 1) hi
          else if ltb key (pair_key l r)
          then merge_loop fuel t key lo mid
          else (do
            result ← le32_at t.merges (mid * 16 + 8)
            rank ← le32_at t.merges (mid * 16 + 12)
            ok (some (result, rank))))
    else ok none

unfoldable pub merge : Tokenizer → ℕ → ℕ → Result Error (Option (ℕ × ℕ))
merge t left right = merge_loop (t.merge_count + 1) t (pair_key left right) 0 t.merge_count
