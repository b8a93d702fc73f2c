-- ===== src/Examples/Tokens.antt =====
-- The tokenizer at concrete inputs: the 256 bytes as tokens.
use nightrun.Prelude.{
  length, ℕ, zero, suc, ◌+◌, ◌*◌, ◌<◌, ◌≡◌, ◌≢◌, refl, Bool, true, ltb, List, [], ◌∷◌, ◌++◌, some,
  ok, panic, Safe, arith, ◌&&◌, ◌||◌, ◌==◌,
}
use nightrun.Prelude.Bytes.{le16_of, le32_of}
use nightrun.Examples.Checks.{all_below, all_below_lem, at_most_256}
use nightrun.Token.Blob.{
  Tokenizer, llama3, parse, byte_token, token_bytes, is_control, merge, pair_key,
}
use nightrun.Token.Blob.Sections.{IsValid, tokenizer_parse-ne-panic, lookups-total}
use nightrun.Token.Blob.Search.{Answer, IsSorted, merge-Answer}
use nightrun.Token.Pretok.{qwen2_style, match_one, split_at}
use nightrun.Token.Pretok.Cases.{split_at-match_one}

abbrev pub rows : ℕ → ℕ → (ℕ → List ℕ) → List ℕ
rows zero i f = []
rows (suc n) i f = f i ++ rows n (i + 1) f

abbrev bytes_only : Tokenizer
bytes_only = record {
  specials = record {
    bos = 0;
    eos = 1;
    eot = 2;
    start_header = 3;
    end_header = 4;
    end_of_text = 5;
  };
  template = llama3;
  vocab_count = 256;
  byte_ids = rows 256 0 (λ i. i ∷ 0 ∷ 0 ∷ 0 ∷ []);
  table = rows 256 0 (λ i. i ∷ 0 ∷ 0 ∷ 0 ∷ 1 ∷ 0 ∷ 0 ∷ 0 ∷ []);
  merges = [];
  merge_count = 0;
  pool = rows 256 0 (λ i. i ∷ []);
}

abbrev fits : ℕ → Bool
fits id = ltb (le32_of bytes_only.table (id * 8) + le16_of bytes_only.table (id * 8 + 4)) 257

in_pool_all : all_below 256 fits ≡ true
unfolding all_below
in_pool_all = refl

bytes_only-IsValid : IsValid bytes_only
bytes_only-IsValid = record {
  byte_ids_sized = refl;
  table_sized = refl;
  merges_sized = refl;
  in_pool = λ id h. at_most_256 _ (all_below_lem 256 fits id in_pool_all h);
  eos_known = omega arith;
  eot_known = omega arith;
  end_of_text_known = omega arith;
}

lookups-total_example :
    ((bytes : List ℕ) × (token_bytes bytes_only 300 ≡ ok bytes))
    × ((control : Bool) × (is_control bytes_only 300 ≡ ok control))
    × ((b : ℕ) → b < 256 → (n : ℕ) × (byte_token bytes_only b ≡ ok n))
lookups-total_example = lookups-total bytes_only bytes_only-IsValid 300

tokenizer_parse-ne-panic_example : parse (rows 300 0 (λ i. 78 ∷ 82 ∷ 84 ∷ 75 ∷ [])) ≢ panic
tokenizer_parse-ne-panic_example =
    tokenizer_parse-ne-panic (rows 300 0 (λ i. 78 ∷ 82 ∷ 84 ∷ 75 ∷ []))

-- Two merges, in the order of their keys.
abbrev with_merges : Tokenizer
with_merges = record bytes_only {
  merges =
      104 ∷ 0 ∷ 0 ∷ 0 ∷ 105 ∷ 0 ∷ 0 ∷ 0 ∷ 7 ∷ 0 ∷ 0 ∷ 0 ∷ 0 ∷ 0 ∷ 0 ∷ 0 ∷ 105 ∷ 0 ∷ 0 ∷ 0 ∷ 104 ∷ 0
      ∷ 0 ∷ 0 ∷ 8 ∷ 0 ∷ 0 ∷ 0 ∷ 1 ∷ 0 ∷ 0 ∷ 0 ∷ [];
  merge_count = 2;
}

with_merges-IsValid : IsValid with_merges
with_merges-IsValid = record {
  byte_ids_sized = refl;
  table_sized = refl;
  merges_sized = refl;
  in_pool = bytes_only-IsValid.in_pool;
  eos_known = omega arith;
  eot_known = omega arith;
  end_of_text_known = omega arith;
}

with_merges-IsSorted : IsSorted with_merges
with_merges-IsSorted zero zero h k = absurd (omega arith)
with_merges-IsSorted zero (suc zero) h k = omega arith
with_merges-IsSorted zero (suc (suc j)) h k = absurd (omega arith)
with_merges-IsSorted (suc i) j h k = absurd (omega arith)

merge-Answer_example : Safe (Answer with_merges (pair_key 105 104) 0 2) (merge with_merges 105 104)
merge-Answer_example = merge-Answer with_merges with_merges-IsValid with_merges-IsSorted 105 104

-- The character classes of ASCII.
abbrev is_lower : ℕ → Bool
is_lower c = ltb 96 c && ltb c 123

abbrev is_digit : ℕ → Bool
is_digit c = ltb 47 c && ltb c 58

abbrev is_space : ℕ → Bool
is_space c = ltb 8 c && ltb c 14 || c == 32

-- The text " ab 12" behind its first character
abbrev spaced : List ℕ
spaced = 97 ∷ 98 ∷ 32 ∷ 49 ∷ 50 ∷ []

split_at-match_one_example :
    (left : List ℕ) × (right : List ℕ) × (split_at
        (match_one is_lower is_digit is_space qwen2_style 32 spaced)
        (32 ∷ spaced)
      ≡ some (left, right))
    × (left ++ right ≡ 32 ∷ spaced)
    × (0 < length left)
split_at-match_one_example = split_at-match_one is_lower is_digit is_space qwen2_style 32 spaced
