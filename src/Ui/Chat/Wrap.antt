-- ===== src/Ui/Chat/Wrap.antt =====
-- crates/nr-ui/src/chat.rs: what `wrap` does to a text.
use nightrun.Prelude.{
  ℕ, zero, suc, ◌+◌, ◌≤◌, ◌<◌, ◌≡◌, refl, sym, subst, ap, ap₂, ◌∙◌, inl, inr, Bool, true, false,
  ◌||◌, List, [], ◌∷◌, ◌++◌, append_assoc, append-nil, length, take, drop, take-append-drop,
  length-take, length-drop, length-append, All, All-append, ltb, leb, leb→le, not_ltb→le, ◌==◌,
  ==_iff, Bool-cases, if◌then◌else◌, arith,
}
use nightrun.Ui.Chat.{
  Lines, cons_first, split, push_chunks, push_word, add_word, add_words, add_paragraphs, wrap,
}

abbrev is_space : ℕ → Bool
is_space c = c == 32 || c == 10

-- The characters of a text other than spaces and line ends, in order.
pub ink : List ℕ → List ℕ
ink [] = []
ink (c ∷ text) = let rest = ink text in if is_space c then rest else c ∷ rest

pub flat : List (List ℕ) → List ℕ
flat [] = []
flat (line ∷ lines) = line ++ flat lines

ink-append : (xs ys : List ℕ) → ink (xs ++ ys) ≡ ink xs ++ ink ys
unfolding ink
ink-append [] ys = refl
ink-append (x ∷ xs) ys = elim (Bool-cases (is_space x)) [
  | inl e ↦ rw e (ink-append xs ys)
  | inr e ↦ rw e (ap (λ t. x ∷ t) (ink-append xs ys))
]

flat-append : (xs ys : List (List ℕ)) → flat (xs ++ ys) ≡ flat xs ++ flat ys
unfolding flat
flat-append [] ys = refl
flat-append (x ∷ xs) ys =
    ap (λ t. x ++ t) (flat-append xs ys) ∙ sym (append_assoc x (flat xs) (flat ys))

-- The ink of finished lines and the line after them.
abbrev ink_of : Lines → List ℕ
ink_of (out, line) = ink (flat out ++ line)

flat-cons_first : (c : ℕ) (pieces : List (List ℕ)) → flat (cons_first c pieces) ≡ c ∷ flat pieces
unfolding flat cons_first
flat-cons_first c [] = refl
flat-cons_first c (piece ∷ pieces) = refl

ink_cons : (c : ℕ) (xs ys : List ℕ) → ink xs ≡ ink ys → ink (c ∷ xs) ≡ ink (c ∷ ys)
unfolding ink
ink_cons c xs ys h = ap (λ t. if is_space c then t else c ∷ t) h

ink_space : (c : ℕ) (xs : List ℕ) → is_space c ≡ true → ink (c ∷ xs) ≡ ink xs
unfolding ink
ink_space c xs h = rw h refl

-- A line that is finished adds its ink.
ink_pushed :
    (out : List (List ℕ)) (l : List ℕ) → ink (flat (out ++ (l ∷ []))) ≡ ink (flat out) ++ ink l
unfolding flat
ink_pushed out l =
    ap ink (flat-append out (l ∷ []) ∙ ap (λ t. flat out ++ t) (append-nil l))
    ∙ ink-append (flat out) l

not_empty : (n : ℕ) → (suc n == 0) ≡ false
not_empty n = ground arith

ink-split :
    (separator : ℕ) (text : List ℕ)
    → is_space separator ≡ true
    → ink (flat (split separator text)) ≡ ink text
unfolding ink flat split
ink-split separator [] h = refl
ink-split separator (c ∷ text) h = elim (Bool-cases (c == separator)) [
  | inl e ↦ rw e (
      ink-split separator text h
      ∙ sym (ink_space c text (subst (λ k. is_space k ≡ true) (sym ((==_iff c separator).0 e)) h)))
  | inr e ↦ rw e (
      ap ink (flat-cons_first c (split separator text))
      ∙ ink_cons c (flat (split separator text)) text (ink-split separator text h))
]

module _ (cols : ℕ) (wide : 0 < cols) where
  -- No line is longer than the columns.
  abbrev Fits : Lines → Type 0
  Fits (out, line) = All (λ l. length l ≤ cols) out × (length line ≤ cols)

  push_chunks-Fits :
      (n : ℕ) (rest : List ℕ) (out : List (List ℕ))
      → length rest ≤ n
      → All (λ l. length l ≤ cols) out
      → Fits (push_chunks n cols rest out)
  unfolding push_chunks
  push_chunks-Fits zero rest out h a = (a, omega arith)
  push_chunks-Fits (suc n) rest out h a = elim (Bool-cases (ltb cols (length rest))) [
    | inr e ↦ rw e (a, not_ltb→le cols (length rest) e)
    | inl e ↦ rw e (
        push_chunks-Fits n (drop cols rest) (out ++ (take cols rest ∷ []))
          (omega (arith, length-drop cols rest))
          (All-append (λ l. length l ≤ cols) out (take cols rest ∷ []) a
            (omega (arith, length-take cols rest), tt)))
  ]

  push_chunks-ink :
      (n : ℕ) (rest : List ℕ) (out : List (List ℕ))
      → ink_of (push_chunks n cols rest out) ≡ ink (flat out) ++ ink rest
  unfolding push_chunks flat
  push_chunks-ink zero rest out = ink-append (flat out) rest
  push_chunks-ink (suc n) rest out = elim (Bool-cases (ltb cols (length rest))) [
    | inr e ↦ rw e (ink-append (flat out) rest)
    | inl e ↦ rw e (
        push_chunks-ink n (drop cols rest) (out ++ (take cols rest ∷ []))
        ∙ ap (λ t. t ++ ink (drop cols rest)) (ink_pushed out (take cols rest))
        ∙ append_assoc (ink (flat out)) (ink (take cols rest)) (ink (drop cols rest))
        ∙ ap (λ t. ink (flat out) ++ t)
            (sym (ink-append (take cols rest) (drop cols rest))
              ∙ ap ink (take-append-drop cols rest)))
  ]

  push_word-Fits :
      (word : List ℕ) (out : List (List ℕ))
      → All (λ l. length l ≤ cols) out
      → Fits (push_word cols word (out, []))
  unfolding push_word
  push_word-Fits word out a = push_chunks-Fits (length word) word out (omega arith) a

  push_word-ink :
      (word : List ℕ) (out : List (List ℕ))
      → ink_of (push_word cols word (out, [])) ≡ ink (flat out) ++ ink word
  unfolding push_word
  push_word-ink word out = push_chunks-ink (length word) word out

  add_word-Fits : (word : List ℕ) (s : Lines) → Fits s → Fits (add_word cols word s)
  unfolding add_word
  add_word-Fits word (out, []) h = push_word-Fits word out h.0
  add_word-Fits word (out, c ∷ line) h =
      elim (Bool-cases (leb (length (c ∷ line) + 1 + length word) cols)) [
        | inl e ↦
            rw (not_empty (length line), e)
              (
                h.0,
                omega (
                  arith,
                  length-append line (32 ∷ word),
                  leb→le (length (c ∷ line) + 1 + length word) cols e,
                ),
              )
        | inr e ↦
            rw (not_empty (length line), e)
              (push_word-Fits word (out ++ ((c ∷ line) ∷ []))
                (All-append (λ l. length l ≤ cols) out ((c ∷ line) ∷ []) h.0 (h.1, tt)))
      ]

  add_word-ink : (word : List ℕ) (s : Lines) → ink_of (add_word cols word s) ≡ ink_of s ++ ink word
  unfolding add_word
  add_word-ink word (out, []) =
      push_word-ink word out ∙ ap (λ t. ink t ++ ink word) (sym (append-nil (flat out)))
  add_word-ink word (out, c ∷ line) =
      elim (Bool-cases (leb (length (c ∷ line) + 1 + length word) cols)) [
        | inl e ↦
            rw (not_empty (length line), e)
              (ap ink (sym (append_assoc (flat out) (c ∷ line) (32 ∷ word)))
                ∙ ink-append (flat out ++ (c ∷ line)) (32 ∷ word)
                ∙ ap (λ t. ink (flat out ++ (c ∷ line)) ++ t) (ink_space 32 word refl))
        | inr e ↦
            rw (not_empty (length line), e)
              (push_word-ink word (out ++ ((c ∷ line) ∷ []))
                ∙ ap (λ t. t ++ ink word)
                    (ink_pushed out (c ∷ line) ∙ sym (ink-append (flat out) (c ∷ line))))
      ]

  add_words-Fits : (words : List (List ℕ)) (s : Lines) → Fits s → Fits (add_words cols words s)
  unfolding add_words
  add_words-Fits [] s h = h
  add_words-Fits (word ∷ words) s h =
      add_words-Fits words (add_word cols word s) (add_word-Fits word s h)

  add_words-ink :
      (words : List (List ℕ)) (s : Lines)
      → ink_of (add_words cols words s) ≡ ink_of s ++ ink (flat words)
  unfolding add_words flat ink
  add_words-ink [] s = sym (append-nil (ink_of s))
  add_words-ink (word ∷ words) s =
      add_words-ink words (add_word cols word s)
      ∙ ap (λ t. t ++ ink (flat words)) (add_word-ink word s)
      ∙ append_assoc (ink_of s) (ink word) (ink (flat words))
      ∙ ap (λ t. ink_of s ++ t) (sym (ink-append word (flat words)))

  -- The text of one paragraph, as lines behind `out`.
  abbrev paragraph : List ℕ → List (List ℕ) → Lines
  paragraph para out = add_words cols (split 32 para) (out, [])

  paragraph-ink :
      (para : List ℕ) (out : List (List ℕ))
      → ink (flat ((paragraph para out).0 ++ ((paragraph para out).1 ∷ [])))
        ≡ ink (flat out) ++ ink para
  paragraph-ink para out =
      ink_pushed (paragraph para out).0 (paragraph para out).1
      ∙ sym (ink-append (flat (paragraph para out).0) (paragraph para out).1)
      ∙ add_words-ink (split 32 para) (out, [])
      ∙ ap₂ ◌++◌ (ap ink (append-nil (flat out))) (ink-split 32 para refl)

  add_paragraphs-Fits :
      (paras out : List (List ℕ))
      → All (λ l. length l ≤ cols) out
      → All (λ l. length l ≤ cols) (add_paragraphs cols paras out)
  unfolding add_paragraphs
  add_paragraphs-Fits [] out a = a
  add_paragraphs-Fits (para ∷ paras) out a =
      let (done, last) = add_words-Fits (split 32 para) (out, []) (a, omega arith) in
      add_paragraphs-Fits paras _ (
        All-append (λ l. length l ≤ cols) (paragraph para out).0 ((paragraph para out).1 ∷ []) done
          (last, tt))

  add_paragraphs-ink :
      (paras out : List (List ℕ))
      → ink (flat (add_paragraphs cols paras out)) ≡ ink (flat out) ++ ink (flat paras)
  unfolding add_paragraphs flat ink
  add_paragraphs-ink [] out = sym (append-nil (ink (flat out)))
  add_paragraphs-ink (para ∷ paras) out =
      add_paragraphs-ink paras ((paragraph para out).0 ++ ((paragraph para out).1 ∷ []))
      ∙ ap (λ t. t ++ ink (flat paras)) (paragraph-ink para out)
      ∙ append_assoc (ink (flat out)) (ink para) (ink (flat paras))
      ∙ ap (λ t. ink (flat out) ++ t) (sym (ink-append para (flat paras)))

-- For one column or more, no line of the wrapped text is longer than the columns, and the lines one
-- after the other hold the characters of the text other than spaces and line ends, all of them, once
-- and in order.
pub wrap-IsComplete :
    (text : List ℕ) (cols : ℕ)
    → 0 < cols
    → All (λ l. length l ≤ cols) (wrap text cols) × (ink (flat (wrap text cols)) ≡ ink text)
unfolding wrap ink flat
wrap-IsComplete text cols wide = rw (positive cols wide) (
  add_paragraphs-Fits cols wide (split 10 text) [] tt,
  add_paragraphs-ink cols wide (split 10 text) [] ∙ ink-split 10 text refl,
)
  where
    positive : (n : ℕ) → 0 < n → (n == 0) ≡ false
    positive n h = ground arith
