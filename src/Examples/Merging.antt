-- ===== src/Examples/Merging.antt =====
-- Byte pair encoding with a small merge table: the bytes, "hi", "ih" and "hih".
use nightrun.Prelude.{
  ℕ, zero, suc, ◌+◌, ◌*◌, ◌^◌, ◌≤◌, ◌<◌, ◌≡◌, refl, sym, ap, ◌∙◌, Bool, true, false, ltb, bit_or,
  List, [], ◌∷◌, ◌++◌, some, Result, ok, err, panic, Safe-ok, Returns, arith,
}
use nightrun.Prelude.Bytes.{bytes_eq, bytes_eq_iff, le16_of, le32_of}
use nightrun.Prelude.Masks.{shifted, bit_or-shifted}
use nightrun.Examples.Checks.{all_bytes, all_bytes-IsBytes, all_below, all_below_lem}
use nightrun.Examples.Tokens.{rows}
use nightrun.Token.Blob.{
  Tokenizer, Error, llama3, byte_token, token_bytes, merge, merge_loop, pair_key,
}
use nightrun.Token.Blob.Sections.{IsValid}
use nightrun.Token.Blob.Search.{Answer, IsSorted, key_at, merge-Answer}
use nightrun.Token.Encode.{byte_tokens, encode_chunk}
use nightrun.Token.Encode.Spelling.{IsConsistent, NoMerge, Encodes, spelled, text}
use nightrun.Token.Encode.Rounds.{encode_chunk-spelled}

-- "ih" has a lower rank than "hi".
abbrev merging : Tokenizer
merging = record {
  specials = record {
    bos = 0;
    eos = 1;
    eot = 2;
    start_header = 3;
    end_header = 4;
    end_of_text = 5;
  };
  template = llama3;
  vocab_count = 259;
  byte_ids = rows 256 0 (λ i. i ∷ 0 ∷ 0 ∷ 0 ∷ []);
  table =
      rows 256 0 (λ i. i ∷ 0 ∷ 0 ∷ 0 ∷ 1 ∷ 0 ∷ 0 ∷ 0 ∷ [])
      ++ (0 ∷ 1 ∷ 0 ∷ 0 ∷ 2 ∷ 0 ∷ 0 ∷ 0 ∷ 2 ∷ 1 ∷ 0 ∷ 0 ∷ 2 ∷ 0 ∷ 0 ∷ 0 ∷ 4 ∷ 1 ∷ 0 ∷ 0 ∷ 3 ∷ 0 ∷ 0
          ∷ 0 ∷ []);
  merges =
      104 ∷ 0 ∷ 0 ∷ 0 ∷ 105 ∷ 0 ∷ 0 ∷ 0 ∷ 0 ∷ 1 ∷ 0 ∷ 0 ∷ 5 ∷ 0 ∷ 0 ∷ 0 ∷ 104 ∷ 0 ∷ 0 ∷ 0 ∷ 1 ∷ 1
      ∷ 0 ∷ 0 ∷ 2 ∷ 1 ∷ 0 ∷ 0 ∷ 7 ∷ 0 ∷ 0 ∷ 0 ∷ 105 ∷ 0 ∷ 0 ∷ 0 ∷ 104 ∷ 0 ∷ 0 ∷ 0 ∷ 1 ∷ 1 ∷ 0 ∷ 0
      ∷ 1 ∷ 0 ∷ 0 ∷ 0 ∷ [];
  merge_count = 3;
  pool = rows 256 0 (λ i. i ∷ []) ++ (104 ∷ 105 ∷ 105 ∷ 104 ∷ 104 ∷ 105 ∷ 104 ∷ []);
}

abbrev fits : ℕ → Bool
fits id = ltb (le32_of merging.table (id * 8) + le16_of merging.table (id * 8 + 4)) 264

in_pool_all : all_below 259 fits ≡ true
unfolding all_below
in_pool_all = refl

at_most_263 : (x : ℕ) → ltb x 264 ≡ true → x ≤ 263
at_most_263 x h = ground arith

merging-IsValid : IsValid merging
merging-IsValid = record {
  byte_ids_sized = refl;
  table_sized = refl;
  merges_sized = refl;
  in_pool = λ id h. at_most_263 _ (all_below_lem 259 fits id in_pool_all h);
  eos_known = omega arith;
  eot_known = omega arith;
  end_of_text_known = omega arith;
}

merging-IsSorted : IsSorted merging
merging-IsSorted zero zero h k = absurd (omega arith)
merging-IsSorted zero (suc zero) h k = omega arith
merging-IsSorted zero (suc (suc zero)) h k = omega arith
merging-IsSorted zero (suc (suc (suc j))) h k = absurd (omega arith)
merging-IsSorted (suc zero) zero h k = absurd (omega arith)
merging-IsSorted (suc zero) (suc zero) h k = absurd (omega arith)
merging-IsSorted (suc zero) (suc (suc zero)) h k = omega arith
merging-IsSorted (suc zero) (suc (suc (suc j))) h k = absurd (omega arith)
merging-IsSorted (suc (suc i)) j h k = absurd (omega arith)

-- Whether a byte's token is that byte.
abbrev spells : ℕ → Result Error ℕ → Bool
spells b (ok id) = bytes_eq (text merging id) (b ∷ [])
spells b (err e) = false
spells b panic = false

spells_all : all_below 256 (λ b. spells b (byte_token merging b)) ≡ true
unfolding all_below byte_token token_bytes
spells_all = refl

-- A key tells the two tokens.
pair_key_lem :
    (left right : ℕ) → left < 2 ^ 32 → right < 2 ^ 32 → pair_key left right ≡ left * 2 ^ 32 + right
pair_key_lem left right hl hr =
    let same : left * 2 ^ 32 ≡ shifted 32 left = omega arith in
    omega (arith, ap (λ (t : ℕ). bit_or t right) same, bit_or-shifted 32 32 left right hl hr)

Joins : ℕ → ℕ → ℕ → Type 0
Joins left right result = text merging result ≡ text merging left ++ text merging right

joined : (left right result : ℕ) → left ≡ 104 → right ≡ 105 → result ≡ 256 → Joins left right result
unfolding token_bytes Joins
joined left right result e f g = rw (e, f, g) refl

joined_ih :
    (left right result : ℕ) → left ≡ 105 → right ≡ 104 → result ≡ 257 → Joins left right result
unfolding token_bytes Joins
joined_ih left right result e f g = rw (e, f, g) refl

joined_hih :
    (left right result : ℕ) → left ≡ 104 → right ≡ 257 → result ≡ 258 → Joins left right result
unfolding token_bytes Joins
joined_hih left right result e f g = rw (e, f, g) refl

row-Joins :
    (left right result rank i : ℕ)
    → left < 2 ^ 32
    → right < 2 ^ 32
    → i < 3
    → key_at merging i ≡ pair_key left right
    → result ≡ le32_of merging.merges (i * 16 + 8)
    → Joins left right result
row-Joins left right result rank zero hl hr lt e r =
    let key = pair_key_lem left right hl hr in
    joined left right result (omega arith) (omega arith) r
row-Joins left right result rank (suc zero) hl hr lt e r =
    let key = pair_key_lem left right hl hr in
    joined_hih left right result (omega arith) (omega arith) r
row-Joins left right result rank (suc (suc zero)) hl hr lt e r =
    let key = pair_key_lem left right hl hr in
    joined_ih left right result (omega arith) (omega arith) r
row-Joins left right result rank (suc (suc (suc i))) hl hr lt e r = absurd (omega arith)

merging-IsConsistent : IsConsistent merging
unfolding Joins
merging-IsConsistent = record {
  byte_text = λ b id h e. (bytes_eq_iff (text merging id) (b ∷ [])).0 (
      ap (spells b) (sym e)
      ∙ all_below_lem 256 (λ b. spells b (byte_token merging b)) b spells_all h);
  merge_text = λ left right result rank hl hr e.
      let (i, from, lt, key, r, k) =
        Safe-ok (Answer merging (pair_key left right) 0 3) (merge merging left right)
          (some (result, rank)) (merge-Answer merging merging-IsValid merging-IsSorted left right)
          e in
      row-Joins left right result rank i hl hr lt key r;
}

-- "hih": the pair "ih" is merged first, though "hi" stands before it, and then "h" with "ih".
abbrev hih : List ℕ
hih = 104 ∷ 105 ∷ 104 ∷ []

encode_chunk-hih : encode_chunk merging hih ≡ ok (258 ∷ [])
unfolding encode_chunk byte_token merge merge_loop
encode_chunk-hih = refl

encode_chunk-spelled_example :
    Returns
      (λ out.
        ((ids : List ℕ) × (byte_tokens merging hih ≡ ok ids) × Encodes merging ids out)
        × NoMerge merging out
        × (spelled merging out ≡ hih))
      (encode_chunk merging hih)
encode_chunk-spelled_example =
    encode_chunk-spelled merging hih merging-IsValid
      (all_bytes-IsBytes merging.byte_ids (unfold all_bytes in refl))
      (all_bytes-IsBytes merging.merges (unfold all_bytes in refl)) merging-IsConsistent
      (omega arith)
