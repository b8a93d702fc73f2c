-- ===== src/Token/Blob/Sections.antt =====
-- `Tokenizer::parse` on any bytes, and the lookups in what it accepts.
use nightrun.Prelude.{
  ℕ, zero, suc, ◌+◌, ◌-◌, ◌*◌, ◌≤◌, ◌<◌, ◌≡◌, ◌≢◌, ◌⊎◌, refl, subst, inl, inr, Bool, Bool-cases,
  true, false, not, bit_and, List, [], length, length-take, length-drop, take, drop, ltb, leb, ◌!=◌,
  ◌==◌, some, Result, ok, err, panic, fail_if, Safe, Safe-then, Safe-fail_if, Safe-ok_or, Safe-ok,
  Safe-ne-panic, arith,
}
use nightrun.Prelude.Bytes.{sub-fits, bytes_eq, le32_at, le16_of, le32_of, le16_at-lt, le32_at-lt}
use nightrun.Token.Blob.{
  Tokenizer, Template, Specials, Error, too_short, bad_magic, bad_version, magic, version,
  template_of, read_specials, checked_add, checked_mul, check_token, check_tokens, specials_ok,
  parse_sections, parse, token_bytes, is_control, byte_token,
}

-- The pool range of every token lies inside the pool.
abbrev pub InPool : List ℕ → ℕ → ℕ → Type 0
InPool table pool_size id = le32_of table (id * 8) + le16_of table (id * 8 + 4) ≤ pool_size

pub record IsValid (t : Tokenizer) : Type 0 where
  pub byte_ids_sized : length t.byte_ids ≡ 1024
  pub table_sized : length t.table ≡ t.vocab_count * 8
  pub merges_sized : length t.merges ≡ t.merge_count * 16
  pub in_pool : (id : ℕ) → id < t.vocab_count → InPool t.table (length t.pool) id
  pub eos_known : t.specials.eos < t.vocab_count
  pub eot_known : t.specials.eot < t.vocab_count
  pub end_of_text_known : t.specials.end_of_text < t.vocab_count

abbrev Anything : {A : Type 0} → A → Type 0
Anything a = Unit {0}

module _ (table : List ℕ) (size : ℕ) where
  check_token-Safe :
      (id : ℕ)
      → id * 8 + 8 ≤ length table
      → Safe (λ _. InPool table size id) (check_token table size id)
  unfolding check_token
  check_token-Safe id h =
      rw
        (
          le32_at-lt {E = Error} table (id * 8) (omega arith),
          le16_at-lt {E = Error} table (id * 8 + 4) (omega arith),
        )
        (by_test (Bool-cases (ltb size (le32_of table (id * 8) + le16_of table (id * 8 + 4)))))
    where
      by_test :
          (ltb size (le32_of table (id * 8) + le16_of table (id * 8 + 4)) ≡ true)
            ⊎ (ltb size (le32_of table (id * 8) + le16_of table (id * 8 + 4)) ≡ false)
          → Safe
              (λ _. InPool table size id)
              (fail_if {E = Error}
                (ltb size (le32_of table (id * 8) + le16_of table (id * 8 + 4)))
                too_short)
      by_test (inl far) = rw far tt
      by_test (inr fits) = rw fits (ground arith)

  check_tokens-Safe :
      (n id : ℕ)
      → (id + n) * 8 ≤ length table
      → Safe
          (λ _. (j : ℕ) → id ≤ j → j < id + n → InPool table size j)
          (check_tokens n table size id)
  unfolding check_tokens
  check_tokens-Safe zero id h = λ j lo hi. absurd (omega arith)
  check_tokens-Safe (suc n) id h =
      Safe-then _ (λ _. InPool table size id) (check_token table size id)
        (λ _. check_tokens n table size (id + 1)) (check_token-Safe id (omega arith))
        λ _ here.
          later (check_tokens n table size (id + 1)) (check_tokens-Safe n (id + 1) (omega arith))
            here
    where
      later :
          (r : Result Error (Unit {0}))
          → Safe (λ _. (j : ℕ) → id + 1 ≤ j → j < id + 1 + n → InPool table size j) r
          → InPool table size id
          → Safe (λ _. (j : ℕ) → id ≤ j → j < id + suc n → InPool table size j) r
      later (ok u) rest here = λ j lo hi. elim (Bool-cases (j == id)) [
        | inl same ↦ let e : id ≡ j = ground arith in subst (InPool table size) e here
        | inr other ↦ rest j (ground arith) (omega arith)
      ]
      later (err e) rest here = tt
      later panic rest here = absurd rest

specials_known :
    (s : Specials) (vocab : ℕ)
    → not (specials_ok s vocab) ≡ false
    → (s.eos < vocab) × (s.eot < vocab) × (s.end_of_text < vocab)
unfolding specials_ok
specials_known s vocab h = ground arith

checked_add_value : (a b c : ℕ) → checked_add a b ≡ some c → c ≡ a + b
checked_add_value a b c h = ground arith

checked_mul_value : (a b c : ℕ) → checked_mul a b ≡ some c → c ≡ a * b
checked_mul_value a b c h = ground arith

module _ (blob : List ℕ) (template : Template) (s : Specials) (vocab merges size : ℕ) where
  parse_sections-Safe : Safe IsValid (parse_sections blob template s vocab merges size)
  unfolding parse_sections
  parse_sections-Safe = Safe-ok_or IsValid (checked_mul vocab 8) too_short _ λ table_len e1.
      Safe-ok_or IsValid (checked_add 1072 table_len) too_short _ λ merges_off e2.
        Safe-ok_or IsValid (checked_mul merges 16) too_short _ λ merges_len e3.
          Safe-ok_or IsValid (checked_add merges_off merges_len) too_short _ λ pool_off e4.
            Safe-ok_or IsValid (checked_add pool_off size) too_short _ λ pool_end e5.
              Safe-fail_if IsValid (ltb (length blob) pool_end) too_short _ λ long.
                let v1 = checked_mul_value vocab 8 table_len e1 in
                let v2 = checked_add_value 1072 table_len merges_off e2 in
                let v3 = checked_mul_value merges 16 merges_len e3 in
                let v4 = checked_add_value merges_off merges_len pool_off e4 in
                let v5 = checked_add_value pool_off size pool_end e5 in
                let enough : pool_end ≤ length blob = ground arith in
                let table = take (merges_off - 1072) (drop 1072 blob) in
                let table_eq : length table ≡ vocab * 8 = omega (
                  arith,
                  length-take (merges_off - 1072) (drop 1072 blob),
                  length-drop 1072 blob,
                ) in
                rw (sub-fits {E = Error} blob 1072 merges_off (omega arith) (omega arith)) (
                  Safe-then IsValid (λ _. (j : ℕ) → 0 ≤ j → j < 0 + vocab → InPool table size j)
                    (check_tokens vocab table size 0) _
                    (check_tokens-Safe table size vocab 0 (omega arith))
                    λ _ all. Safe-fail_if IsValid (not (specials_ok s vocab)) too_short _ λ known.
                      let (k1, k2, k3) = specials_known s vocab known in
                      rw
                        (
                          sub-fits {E = Error} blob 48 1072 (omega arith) (omega arith),
                          sub-fits {E = Error} blob merges_off pool_off (omega arith) (omega arith),
                          sub-fits {E = Error} blob pool_off (pool_off + size) (omega arith)
                              (omega arith),
                        )
                        (record {
                          byte_ids_sized =
                              omega (
                                arith,
                                length-take (1072 - 48) (drop 48 blob),
                                length-drop 48 blob,
                              );
                          table_sized = table_eq;
                          merges_sized = omega (
                            arith,
                            length-take (pool_off - merges_off) (drop merges_off blob),
                            length-drop merges_off blob,
                          );
                          in_pool = λ id h. omega (
                            arith,
                            all id (omega arith) (omega arith),
                            length-take (pool_off + size - pool_off) (drop pool_off blob),
                            length-drop pool_off blob,
                          );
                          eos_known = k1;
                          eot_known = k2;
                          end_of_text_known = k3;
                        }))

template_of-Safe : (v : ℕ) → Safe Anything (template_of v)
unfolding template_of
template_of-Safe v = ground arith

parse-Safe : (blob : List ℕ) → Safe IsValid (parse blob)
unfolding parse read_specials
parse-Safe blob = Safe-fail_if IsValid (ltb (length blob) 1068) too_short _ λ long.
    let enough : 1068 ≤ length blob = ground arith in
    rw
      (
        sub-fits {E = Error} blob 0 4 (omega arith) (omega arith),
        le32_at-lt {E = Error} blob 4 (omega arith),
        le32_at-lt {E = Error} blob 8 (omega arith),
        le32_at-lt {E = Error} blob 12 (omega arith),
        le32_at-lt {E = Error} blob 16 (omega arith),
        le32_at-lt {E = Error} blob 20 (omega arith),
        le32_at-lt {E = Error} blob 24 (omega arith),
        le32_at-lt {E = Error} blob 28 (omega arith),
        le32_at-lt {E = Error} blob 32 (omega arith),
        le32_at-lt {E = Error} blob 36 (omega arith),
        le32_at-lt {E = Error} blob 40 (omega arith),
        le32_at-lt {E = Error} blob 44 (omega arith),
      )
      (Safe-fail_if IsValid (not (bytes_eq (take 4 blob) magic)) bad_magic _ λ _.
        Safe-fail_if IsValid (le32_of blob 4 != version) bad_version _ λ _.
          Safe-then IsValid Anything (template_of (le32_of blob 8)) _
            (template_of-Safe (le32_of blob 8))
            λ template _.
              parse_sections-Safe blob template _ (le32_of blob 12) (le32_of blob 16)
                (le32_of blob 20))

-- `Tokenizer::parse` does not panic, whatever the bytes.
pub tokenizer_parse-ne-panic : (blob : List ℕ) → parse blob ≢ panic
tokenizer_parse-ne-panic blob = Safe-ne-panic IsValid (parse blob) (parse-Safe blob)

-- In a tokenizer that `parse` accepts, the sections have the lengths that their counts need, every
-- token's bytes lie inside the pool, and the ids that end a reply are ids of the vocabulary.
pub tokenizer_parse-IsValid : (blob : List ℕ) (t : Tokenizer) → parse blob ≡ ok t → IsValid t
tokenizer_parse-IsValid blob t e = Safe-ok IsValid (parse blob) t (parse-Safe blob) e

module _ (t : Tokenizer) (valid : IsValid t) where
  -- Of a valid tokenizer and for every id, in the vocabulary or not, `token_bytes` and `is_control`
  -- return without a panic or an error, and so does `byte_token` for every byte.
  pub lookups-total :
      (id : ℕ)
      → ((bytes : List ℕ) × (token_bytes t id ≡ ok bytes))
        × ((control : Bool) × (is_control t id ≡ ok control))
        × ((b : ℕ) → b < 256 → (n : ℕ) × (byte_token t b ≡ ok n))
  unfolding token_bytes is_control byte_token
  lookups-total id = elim (Bool-cases (leb t.vocab_count id)) [
    | inl outside ↦ (([], rw outside refl), (true, rw outside refl), byte_read)
    | inr inside ↦
        let known : id < t.vocab_count = ground arith in
        let fits = valid.in_pool id known in
        (
          (
            take
                (le32_of t.table (id * 8) + le16_of t.table (id * 8 + 4) - le32_of t.table (id * 8))
                (drop (le32_of t.table (id * 8)) t.pool),
            rw
                (
                  inside,
                  le32_at-lt {E = Error} t.table (id * 8) (omega (arith, valid.table_sized)),
                  le16_at-lt {E = Error} t.table (id * 8 + 4) (omega (arith, valid.table_sized)),
                  sub-fits {E = Error} t.pool (le32_of t.table (id * 8))
                      (le32_of t.table (id * 8) + le16_of t.table (id * 8 + 4)) (omega arith) fits,
                )
                refl,
          ),
          (
            bit_and (le16_of t.table (id * 8 + 6)) 1 != 0,
            rw
                (
                  inside,
                  le16_at-lt {E = Error} t.table (id * 8 + 6) (omega (arith, valid.table_sized)),
                )
                refl,
          ),
          byte_read,
        )
  ]
    where
      byte_read : (b : ℕ) → b < 256 → (n : ℕ) × (le32_at {E = Error} t.byte_ids (b * 4) ≡ ok n)
      byte_read b h = (
        le32_of t.byte_ids (b * 4),
        le32_at-lt {E = Error} t.byte_ids (b * 4) (omega (arith, valid.byte_ids_sized)),
      )
