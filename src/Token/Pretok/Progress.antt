-- ===== src/Token/Pretok/Progress.antt =====
-- crates/nr-token/src/pretok.rs: each chunk takes at least one byte of the text.
use nightrun.Prelude.{
  ℕ, suc, ◌<◌, Bool, true, false, List, [], ◌∷◌, Option, none, some, arith, ◌≡◌, refl,
  if◌then◌else◌, ◌+◌, not, ◌&&◌, ◌||◌, ◌==◌, ◌!=◌, ltb,
}
use nightrun.Token.Pretok.{
  Style, llama3_style, qwen2_style, len_utf8, run, run_max, contraction, third_byte, or_else,
  letters, digits, others, others_from, spaces, or_one, up_to, match_one, as_bytes,
  to_ascii_lowercase, starts_letter, is_other, is_newline, drop_run,
}

-- Where there is a length, it is not zero.
IsPositive : Option ℕ → Type 0
IsPositive none = Unit
IsPositive (some n) = 0 < n

none-IsPositive : IsPositive none
unfolding IsPositive
none-IsPositive = tt

some-IsPositive : (n : ℕ) → 0 < n → IsPositive (some n)
unfolding IsPositive
some-IsPositive n h = h

len_utf8-pos : (c : ℕ) → 0 < len_utf8 c
len_utf8-pos c = ground arith

or_else-IsPositive : (o p : Option ℕ) → IsPositive o → IsPositive p → IsPositive (or_else o p)
or_else-IsPositive none p h k = k
or_else-IsPositive (some n) p h k = h

-- A test that leads to a length, where the test may be used, or to another result.
test-IsPositive :
    (b : Bool) (o p : Option ℕ)
    → (b ≡ true → IsPositive o)
    → IsPositive p
    → IsPositive (if b then o else p)
test-IsPositive true o p h k = h refl
test-IsPositive false o p h k = k

run-pos : (p : ℕ → Bool) (c : ℕ) (s : List ℕ) → p c ≡ true → 0 < run p (c ∷ s)
unfolding run
run-pos p c s e = rw e (omega (arith, len_utf8-pos c))

run_max-pos :
    (m : ℕ) (p : ℕ → Bool) (c : ℕ) (s : List ℕ) → p c ≡ true → 0 < run_max (suc m) p (c ∷ s)
unfolding run_max
run_max-pos m p c s e = rw e (omega (arith, len_utf8-pos c))

third_byte-IsPositive : (c1 : ℕ) (s : List ℕ) → IsPositive (third_byte c1 s)
third_byte-IsPositive c1 [] = none-IsPositive
third_byte-IsPositive c1 (b ∷ s) =
    test-IsPositive _ _ none (λ e. some-IsPositive 3 (omega arith)) none-IsPositive

contraction-IsPositive : (b : List ℕ) → IsPositive (contraction b)
unfolding contraction
contraction-IsPositive [] = none-IsPositive
contraction-IsPositive (b0 ∷ []) = none-IsPositive
contraction-IsPositive (b0 ∷ b ∷ rest) =
    test-IsPositive (not (b0 == 39)) _ _ (λ e. none-IsPositive)
      (test-IsPositive (c1 == 115 || c1 == 116 || c1 == 109 || c1 == 100) _ _
        (λ e. some-IsPositive 2 (omega arith))
        (test-IsPositive (c1 == 114 || c1 == 118 || c1 == 108) (third_byte c1 rest) none
          (λ e. third_byte-IsPositive c1 rest) none-IsPositive))
  where
    c1 : ℕ
    c1 = to_ascii_lowercase b

module _ (is_alphabetic is_numeric is_whitespace : ℕ → Bool) where
  up_to-pos :
      (n : ℕ) (b : Bool) (last : ℕ) (o : Option ℕ)
      → 0 < n
      → 0 < up_to is_alphabetic is_numeric is_whitespace n b last o
  up_to-pos n b last none h = ground arith
  up_to-pos n b last (some i) h = omega arith

  or_one-pos :
      (c : ℕ) (o : Option ℕ) → IsPositive o → 0 < or_one is_alphabetic is_numeric is_whitespace c o
  unfolding IsPositive
  or_one-pos c none h = len_utf8-pos c
  or_one-pos c (some n) h = h

  letters-IsPositive :
      (c0 : ℕ) (s : List ℕ) → IsPositive (letters is_alphabetic is_numeric is_whitespace c0 s)
  unfolding letters
  letters-IsPositive c0 s =
      test-IsPositive (is_alphabetic c0) _ _ (λ e. some-IsPositive _ (run-pos is_alphabetic c0 s e))
        (test-IsPositive
          (c0 != 13
            && c0 != 10
            && not (is_numeric c0)
            && starts_letter is_alphabetic is_numeric is_whitespace s)
          (some (len_utf8 c0 + run is_alphabetic s)) none
          (λ e.
            some-IsPositive (len_utf8 c0 + run is_alphabetic s) (omega (arith, len_utf8-pos c0)))
          none-IsPositive)

  digits-IsPositive :
      (style : Style) (c0 : ℕ) (s : List ℕ)
      → IsPositive (digits is_alphabetic is_numeric is_whitespace style c0 s)
  unfolding digits
  digits-IsPositive llama3_style c0 s =
      test-IsPositive (is_numeric c0) _ none
        (λ e. some-IsPositive _ (run_max-pos 2 is_numeric c0 s e)) none-IsPositive
  digits-IsPositive qwen2_style c0 s =
      test-IsPositive (is_numeric c0) _ none
        (λ e. some-IsPositive _ (run_max-pos 0 is_numeric c0 s e)) none-IsPositive

  others_from-IsPositive :
      (start : ℕ) (s : List ℕ)
      → IsPositive (others_from is_alphabetic is_numeric is_whitespace start s)
  unfolding others_from
  others_from-IsPositive start s =
      test-IsPositive (ltb 0 n) (some (start + n + m)) none
        (λ e. some-IsPositive (start + n + m) (ground arith)) none-IsPositive
    where
      n : ℕ
      n = run (is_other is_alphabetic is_numeric is_whitespace) s

      m : ℕ
      m = run is_newline (drop_run (is_other is_alphabetic is_numeric is_whitespace) s)

  others-IsPositive :
      (c0 : ℕ) (s : List ℕ) → IsPositive (others is_alphabetic is_numeric is_whitespace c0 s)
  unfolding others
  others-IsPositive c0 s =
      test-IsPositive _ _ _ (λ e. others_from-IsPositive 1 s) (others_from-IsPositive 0 (c0 ∷ s))

  spaces-IsPositive :
      (c0 : ℕ) (s : List ℕ) → IsPositive (spaces is_alphabetic is_numeric is_whitespace c0 s)
  unfolding spaces
  spaces-IsPositive c0 s =
      test-IsPositive (is_whitespace c0) _ none
        (λ e. some-IsPositive _ (up_to-pos _ _ _ _ (run-pos is_whitespace c0 s e))) none-IsPositive

  -- The length that the pretokenizer cuts off the start of a text that is not empty is at least
  -- one byte, whatever the style and the character classes.
  pub match_one-pos :
      (style : Style) (c0 : ℕ) (s : List ℕ)
      → 0 < match_one is_alphabetic is_numeric is_whitespace style c0 s
  unfolding match_one
  match_one-pos style c0 s = or_one-pos c0 _ (
      or_else-IsPositive _ _ (contraction-IsPositive (as_bytes (c0 ∷ s))) (
        or_else-IsPositive _ _ (letters-IsPositive c0 s) (
          or_else-IsPositive _ _ (digits-IsPositive style c0 s)
            (or_else-IsPositive _ _ (others-IsPositive c0 s) (spaces-IsPositive c0 s)))))
