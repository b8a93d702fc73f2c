-- ===== src/Token/Pretok/Cases.antt =====
-- crates/nr-token/src/pretok.rs: the pretokenizer cuts between two characters.
use nightrun.Prelude.{
  ℕ, ◌+◌, ◌-◌, ◌<◌, ◌≡◌, refl, sym, subst, ap, ap₂, ◌∙◌, ◌⊎◌, inl, inr, Bool, true, List, ◌∷◌, ◌++◌,
  length, Option, none, some, ltb, ◌==◌, arith,
}
use nightrun.Token.Pretok.Progress.{match_one-pos}
use nightrun.Token.Pretok.{
  Style, len_utf8, run, take_run, drop_run, is_newline, rfind_newline, last_char, split_at, letters,
  digits, others_from, others, up_to, is_empty, spaces, is_other, match_one, or_one,
}
use nightrun.Token.Pretok.Cuts.{
  nonempty, IsCut-at, IsCut-none, IsCut-cons, split_at-whole, run-IsCut, run_max-IsCut, run-then,
  none-some, rfind_newline-IsCut, size-last, IsCut-extend, take_run-drop_run, size-take_run,
  test-Finds, or_else-Finds, IsCut-if, IsCut-all, space_len, contraction-Finds, Finds, size, IsCut,
}

module _ (is_alphabetic is_numeric is_whitespace : ℕ → Bool) where
  letters-Finds :
      (c0 : ℕ) (s : List ℕ) → Finds (c0 ∷ s) (letters is_alphabetic is_numeric is_whitespace c0 s)
  unfolding letters
  letters-Finds c0 s =
      test-Finds (c0 ∷ s) (is_alphabetic c0) _ _ (λ e. run-IsCut is_alphabetic (c0 ∷ s))
        (test-Finds (c0 ∷ s) _ (some (len_utf8 c0 + run is_alphabetic s)) none
          (λ e. IsCut-cons c0 s (run is_alphabetic s) (run-IsCut is_alphabetic s)) tt)

  digits-Finds :
      (style : Style) (c0 : ℕ) (s : List ℕ)
      → Finds (c0 ∷ s) (digits is_alphabetic is_numeric is_whitespace style c0 s)
  unfolding digits
  digits-Finds style c0 s =
      test-Finds (c0 ∷ s) (is_numeric c0) _ none (λ e. run_max-IsCut _ is_numeric (c0 ∷ s)) tt

  abbrev other : ℕ → Bool
  other = is_other is_alphabetic is_numeric is_whitespace

  others_from-Finds :
      (text : List ℕ) (start : ℕ) (s : List ℕ)
      → ((n : ℕ) → IsCut s n → IsCut text (start + n))
      → Finds text (others_from is_alphabetic is_numeric is_whitespace start s)
  unfolding others_from
  others_from-Finds text start s before =
      test-Finds text (ltb 0 (run other s))
        (some (start + run other s + run is_newline (drop_run other s))) none
        (λ e.
          IsCut-at text (start + (run other s + run is_newline (drop_run other s)))
            (start + run other s + run is_newline (drop_run other s)) (omega arith)
            (before (run other s + run is_newline (drop_run other s)) (
              run-then other s (run is_newline (drop_run other s))
                (run-IsCut is_newline (drop_run other s)))))
        tt

  others-Finds :
      (c0 : ℕ) (s : List ℕ) → Finds (c0 ∷ s) (others is_alphabetic is_numeric is_whitespace c0 s)
  unfolding others
  others-Finds c0 s =
      test-Finds (c0 ∷ s) (c0 == 32) _ _
        (λ e. others_from-Finds (c0 ∷ s) 1 s (λ n k.
          IsCut-at (c0 ∷ s) (len_utf8 c0 + n) (1 + n) (omega (arith, space_len c0 e))
            (IsCut-cons c0 s n k)))
        (others_from-Finds (c0 ∷ s) 0 (c0 ∷ s) (λ n k. IsCut-at (c0 ∷ s) n (0 + n) (omega arith) k))

  up_to-IsCut :
      (s part behind : List ℕ) (at_end : Bool) (run_end last_len : ℕ) (nl : Option ℕ)
      → part ++ behind ≡ s
      → IsCut part run_end
      → IsCut part (run_end - last_len)
      → ((n : ℕ) → nl ≡ some n → IsCut part (n + 1))
      → IsCut s (up_to is_alphabetic is_numeric is_whitespace run_end at_end last_len nl)
  up_to-IsCut s part behind at_end run_end last_len (some n) e whole short newline =
      IsCut-extend s part behind (n + 1) e (newline n refl)
  up_to-IsCut s part behind at_end run_end last_len none e whole short newline =
      IsCut-extend s part behind _ e (IsCut-if part _ run_end (run_end - last_len) whole short)

  -- The run of whitespace.
  abbrev part : ℕ → List ℕ → List ℕ
  part c0 s = take_run is_whitespace (c0 ∷ s)

  but_last :
      (c0 : ℕ) (s : List ℕ)
      → is_whitespace c0 ≡ true
      → IsCut
          (part c0 s)
          (run is_whitespace (c0 ∷ s) - len_utf8 (last_char c0 (take_run is_whitespace s)))
  unfolding take_run
  but_last c0 s e =
      let same : part c0 s ≡ c0 ∷ take_run is_whitespace s = rw e refl in
      let t = take_run is_whitespace s in
      IsCut-at (part c0 s) (size (c0 ∷ t) - len_utf8 (last_char c0 t)) _
        (ap (λ (n : ℕ). n - len_utf8 (last_char c0 t))
          (ap size (sym same) ∙ size-take_run is_whitespace (c0 ∷ s)))
        (subst (λ l. IsCut l (size (c0 ∷ t) - len_utf8 (last_char c0 t))) (sym same)
          (size-last c0 t))

  behind_newline :
      (s : List ℕ) (n : ℕ)
      → (none ≡ some n) ⊎ ((m : ℕ) × (n + 1 ≡ 0 + m) × IsCut s m)
      → IsCut s (n + 1)
  behind_newline s n (inl e) = absurd (none-some e)
  behind_newline s n (inr (m, e, k)) = IsCut-at s m (n + 1) (omega arith) k

  spaces-Finds :
      (c0 : ℕ) (s : List ℕ) → Finds (c0 ∷ s) (spaces is_alphabetic is_numeric is_whitespace c0 s)
  unfolding spaces
  spaces-Finds c0 s =
      test-Finds (c0 ∷ s) (is_whitespace c0) _ none
        (λ e.
          up_to-IsCut (c0 ∷ s) (part c0 s) (drop_run is_whitespace (c0 ∷ s))
            (is_empty is_alphabetic is_numeric is_whitespace (drop_run is_whitespace (c0 ∷ s)))
            (run is_whitespace (c0 ∷ s)) (len_utf8 (last_char c0 (take_run is_whitespace s)))
            (rfind_newline 0 (part c0 s) none) (take_run-drop_run is_whitespace (c0 ∷ s))
            (IsCut-at (part c0 s) (size (part c0 s)) (run is_whitespace (c0 ∷ s))
              (size-take_run is_whitespace (c0 ∷ s)) (IsCut-all (part c0 s)))
            (but_last c0 s e)
            (λ n k. behind_newline (part c0 s) n (rfind_newline-IsCut 0 (part c0 s) none n k)))
        tt

  match_one-IsCut :
      (style : Style) (c0 : ℕ) (s : List ℕ)
      → IsCut (c0 ∷ s) (match_one is_alphabetic is_numeric is_whitespace style c0 s)
  unfolding match_one
  match_one-IsCut style c0 s = or_one-IsCut c0 s _ (
      or_else-Finds (c0 ∷ s) _ _ (contraction-Finds c0 s) (
        or_else-Finds (c0 ∷ s) _ _ (letters-Finds c0 s) (
          or_else-Finds (c0 ∷ s) _ _ (digits-Finds style c0 s)
            (or_else-Finds (c0 ∷ s) _ _ (others-Finds c0 s) (spaces-Finds c0 s)))))
    where
      or_one-IsCut :
          (c0 : ℕ) (s : List ℕ) (o : Option ℕ)
          → Finds (c0 ∷ s) o
          → IsCut (c0 ∷ s) (or_one is_alphabetic is_numeric is_whitespace c0 o)
      or_one-IsCut c0 s none h =
          IsCut-at (c0 ∷ s) (len_utf8 c0 + 0) (len_utf8 c0) (omega arith)
            (IsCut-cons c0 s 0 (IsCut-none s))
      or_one-IsCut c0 s (some n) h = h

  -- Whatever the style and the character classes, `split_at` at the length that the pretokenizer
  -- finds does not panic: the text falls into a chunk that is not empty and the rest, cut between two
  -- characters, and the two make up the text.
  pub split_at-match_one :
      (style : Style) (c0 : ℕ) (s : List ℕ)
      → (left : List ℕ) × (right : List ℕ) × (split_at
            (match_one is_alphabetic is_numeric is_whitespace style c0 s)
            (c0 ∷ s)
          ≡ some (left, right))
        × (left ++ right ≡ c0 ∷ s)
        × (0 < length left)
  split_at-match_one style c0 s =
      let n = match_one is_alphabetic is_numeric is_whitespace style c0 s in
      let k = match_one-IsCut style c0 s in
      (
        k.left,
        k.right,
        ap₂ split_at (sym k.sized) (sym k.whole) ∙ split_at-whole k.left k.right,
        k.whole,
        nonempty k.left (
            subst (λ (m : ℕ). 0 < m) (sym k.sized)
              (match_one-pos is_alphabetic is_numeric is_whitespace style c0 s)),
      )
