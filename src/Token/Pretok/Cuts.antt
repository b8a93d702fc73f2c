-- ===== src/Token/Pretok/Cuts.antt =====
-- crates/nr-token/src/pretok.rs: positions between two characters, and the contractions.
use nightrun.Prelude.{
  ℕ, zero, suc, ◌+◌, ◌-◌, ◌/◌, ◌%◌, ◌≤◌, ◌<◌, ◌≡◌, refl, sym, subst, ap, ◌∙◌, ◌⊎◌, inl, inr, Bool,
  true, false, not, ◌&&◌, ◌||◌, List, [], ◌∷◌, ◌++◌, append_assoc, length, append-nil, Option, none,
  some, ltb, le→ltb, ◌==◌, Bool-cases, if◌then◌else◌, arith,
}
use nightrun.Token.Pretok.{
  len_utf8, utf8, as_bytes, run, take_run, drop_run, run_max, is_newline, rfind_newline, last_char,
  split_at, cons_left, third_byte, contraction, or_else, to_ascii_lowercase,
}

-- The bytes of a text's UTF-8.
pub size : List ℕ → ℕ
size [] = 0
size (c ∷ s) = len_utf8 c + size s

-- A position in bytes that is a cut of the text between two characters.
pub record IsCut (s : List ℕ) (n : ℕ) : Type 0 where
  pub left : List ℕ
  pub right : List ℕ
  pub whole : left ++ right ≡ s
  pub sized : size left ≡ n

pub IsCut-at : (s : List ℕ) (n m : ℕ) → n ≡ m → IsCut s n → IsCut s m
IsCut-at s n m e k = subst (IsCut s) e k

pub IsCut-none : (s : List ℕ) → IsCut s 0
unfolding size
IsCut-none s = record { left = []; right = s; whole = refl; sized = refl }

pub IsCut-cons : (c : ℕ) (s : List ℕ) (n : ℕ) → IsCut s n → IsCut (c ∷ s) (len_utf8 c + n)
unfolding size
IsCut-cons c s n k = record {
  left = c ∷ k.left;
  right = k.right;
  whole = ap (λ t. c ∷ t) k.whole;
  sized = ap (λ (m : ℕ). len_utf8 c + m) k.sized;
}

add-sub-cancel : (a b : ℕ) → a + b - a ≡ b
add-sub-cancel a b = omega arith

split_at-suc :
    (n c : ℕ) (s : List ℕ)
    → 0 < n
    → split_at n (c ∷ s)
      ≡ (if ltb n (len_utf8 c) then none else cons_left c (split_at (n - len_utf8 c) s))
unfolding split_at
split_at-suc zero c s h = absurd (omega arith)
split_at-suc (suc n) c s h = refl

len_utf8-pos : (c : ℕ) → 0 < len_utf8 c
len_utf8-pos c = ground arith

-- `split_at` at a cut.
pub split_at-whole :
    (left right : List ℕ) → split_at (size left) (left ++ right) ≡ some (left, right)
unfolding split_at size
split_at-whole [] right = refl
split_at-whole (c ∷ left) right =
    split_at-suc (len_utf8 c + size left) c (left ++ right) (omega (arith, len_utf8-pos c))
    ∙ (rw
        (
          le→ltb (len_utf8 c + size left) (len_utf8 c) (omega arith),
          add-sub-cancel (len_utf8 c) (size left),
          split_at-whole left right,
        )
        refl)

pub run-IsCut : (p : ℕ → Bool) (s : List ℕ) → IsCut s (run p s)
unfolding run
run-IsCut p [] = IsCut-none []
run-IsCut p (c ∷ s) = elim (Bool-cases (p c)) [
  | inl e ↦ rw e (IsCut-cons c s (run p s) (run-IsCut p s))
  | inr e ↦ rw e (IsCut-none (c ∷ s))
]

pub run_max-IsCut : (max : ℕ) (p : ℕ → Bool) (s : List ℕ) → IsCut s (run_max max p s)
unfolding run_max
run_max-IsCut zero p s = IsCut-none s
run_max-IsCut (suc max) p [] = IsCut-none []
run_max-IsCut (suc max) p (c ∷ s) = elim (Bool-cases (p c)) [
  | inl e ↦ rw e (IsCut-cons c s (run_max max p s) (run_max-IsCut max p s))
  | inr e ↦ rw e (IsCut-none (c ∷ s))
]

-- A run, and what is cut off behind it.
pub run-then : (p : ℕ → Bool) (s : List ℕ) (n : ℕ) → IsCut (drop_run p s) n → IsCut s (run p s + n)
unfolding run drop_run
run-then p [] n k = IsCut-at [] n (0 + n) (omega arith) k
run-then p (c ∷ s) n k = elim (Bool-cases (p c)) [
  | inl e ↦ rw e (
      IsCut-at (c ∷ s) (len_utf8 c + (run p s + n)) (len_utf8 c + run p s + n) (omega arith)
        (IsCut-cons c s (run p s + n) (run-then p s n (rw e at k))))
  | inr e ↦ rw e (IsCut-at (c ∷ s) n (0 + n) (omega arith) (rw e at k))
]

pub none-some : {n : ℕ} → none ≡ some n → ⊥
none-some e = cc

some_eq : {a b : ℕ} → some a ≡ some b → a ≡ b
some_eq e = cc

newline_len : (c : ℕ) → is_newline c ≡ true → len_utf8 c ≡ 1
newline_len c h = ground arith

-- The last newline of a run: behind it is a cut.
pub rfind_newline-IsCut :
    (i : ℕ) (s : List ℕ) (found : Option ℕ) (n : ℕ)
    → rfind_newline i s found ≡ some n
    → (found ≡ some n) ⊎ ((m : ℕ) × (n + 1 ≡ i + m) × IsCut s m)
unfolding rfind_newline
rfind_newline-IsCut i [] found n e = inl e
rfind_newline-IsCut i (c ∷ s) found n e =
    elim (rfind_newline-IsCut (i + len_utf8 c) s (if is_newline c then some i else found) n e) [
      | inr (m, k, cut) ↦ inr (len_utf8 c + m, omega arith, IsCut-cons c s m cut)
      | inl f ↦ elim (Bool-cases (is_newline c)) [
        | inr g ↦ inl (rw g at f)
        | inl g ↦
            let f' : some i ≡ some n = rw g at f in
            inr (
              len_utf8 c + 0,
              omega (arith, some_eq f', newline_len c g),
              IsCut-cons c s 0 (IsCut-none s),
            )
      ]
    ]

last-le : (c : ℕ) (s : List ℕ) → len_utf8 (last_char c s) ≤ size (c ∷ s)
unfolding size last_char
last-le c [] = omega arith
last-le c (d ∷ s) = omega (arith, last-le d s)

-- All of a text but its last character.
pub size-last : (c : ℕ) (s : List ℕ) → IsCut (c ∷ s) (size (c ∷ s) - len_utf8 (last_char c s))
unfolding size last_char
size-last c [] =
    IsCut-at (c ∷ []) 0 (len_utf8 c + 0 - len_utf8 c) (omega arith) (IsCut-none (c ∷ []))
size-last c (d ∷ s) =
    IsCut-at (c ∷ d ∷ s) (len_utf8 c + (size (d ∷ s) - len_utf8 (last_char d s)))
      (len_utf8 c + size (d ∷ s) - len_utf8 (last_char d s)) (omega (arith, last-le d s))
      (IsCut-cons c (d ∷ s) (size (d ∷ s) - len_utf8 (last_char d s)) (size-last d s))

-- A cut of a part at the start.
pub IsCut-extend : (s part behind : List ℕ) (n : ℕ) → part ++ behind ≡ s → IsCut part n → IsCut s n
IsCut-extend s part behind n e k = record {
  left = k.left;
  right = k.right ++ behind;
  whole = sym (append_assoc k.left k.right behind) ∙ ap (λ t. t ++ behind) k.whole ∙ e;
  sized = k.sized;
}

pub take_run-drop_run : (p : ℕ → Bool) (s : List ℕ) → take_run p s ++ drop_run p s ≡ s
unfolding take_run drop_run
take_run-drop_run p [] = refl
take_run-drop_run p (c ∷ s) = elim (Bool-cases (p c)) [
  | inl e ↦ rw e (ap (λ t. c ∷ t) (take_run-drop_run p s))
  | inr e ↦ rw e refl
]

pub size-take_run : (p : ℕ → Bool) (s : List ℕ) → size (take_run p s) ≡ run p s
unfolding size take_run run
size-take_run p [] = refl
size-take_run p (c ∷ s) = elim (Bool-cases (p c)) [
  | inl e ↦ rw e (ap (λ (n : ℕ). len_utf8 c + n) (size-take_run p s))
  | inr e ↦ rw e refl
]

-- What a case of `match_one` finds is a cut.
abbrev pub Finds : List ℕ → Option ℕ → Type 0
Finds s none = Unit
Finds s (some n) = IsCut s n

pub test-Finds :
    (s : List ℕ) (b : Bool) (o p : Option ℕ)
    → (b ≡ true → Finds s o)
    → Finds s p
    → Finds s (if b then o else p)
test-Finds s true o p h k = h refl
test-Finds s false o p h k = k

pub or_else-Finds : (s : List ℕ) (o p : Option ℕ) → Finds s o → Finds s p → Finds s (or_else o p)
or_else-Finds s none p h k = k
or_else-Finds s (some n) p h k = h

pub IsCut-if :
    (s : List ℕ) (b : Bool) (n m : ℕ) → IsCut s n → IsCut s m → IsCut s (if b then m else n)
IsCut-if s true n m h k = k
IsCut-if s false n m h k = h

pub IsCut-all : (s : List ℕ) → IsCut s (size s)
IsCut-all s = record { left = s; right = []; whole = append-nil s; sized = refl }

pub space_len : (c : ℕ) → (c == 32) ≡ true → len_utf8 c ≡ 1
space_len c h = ground arith

-- A character of one byte, or of more, of which the first is no ASCII.
utf8-cases :
    (c : ℕ)
    → ((len_utf8 c ≡ 1) × (utf8 c ≡ c ∷ []))
      ⊎ ((b : ℕ) × (b' : ℕ) × (rest : List ℕ) × (utf8 c ≡ b ∷ b' ∷ rest) × (192 ≤ b))
unfolding utf8
utf8-cases c = elim (Bool-cases (ltb c 0x80)) [
  | inl e ↦ inl (rw e refl, rw e refl)
  | inr e ↦ elim (Bool-cases (ltb c 0x800)) [
    | inl f ↦ inr (0xc0 + c / 64, 0x80 + c % 64, [], rw (e, f) refl, omega arith)
    | inr f ↦ elim (Bool-cases (ltb c 0x10000)) [
      | inl g ↦ inr (
        0xe0 + c / 4096,
        0x80 + c / 64 % 64,
        (0x80 + c % 64) ∷ [],
        rw (e, f, g) refl,
        omega arith,
      )
      | inr g ↦ inr (
        0xf0 + c / 262144,
        0x80 + c / 4096 % 64,
        (0x80 + c / 64 % 64) ∷ (0x80 + c % 64) ∷ [],
        rw (e, f, g) refl,
        omega arith,
      )
    ]
  ]
]

no_third :
    (c1 b : ℕ)
    → 192 ≤ b
    → (c1 == 114 && to_ascii_lowercase b == 101
        || c1 == 118 && to_ascii_lowercase b == 101
        || c1 == 108 && to_ascii_lowercase b == 108)
      ≡ true
    → ⊥
no_third c1 b h e = ground arith

no_second :
    (b : ℕ)
    → 192 ≤ b
    → (to_ascii_lowercase b == 115
        || to_ascii_lowercase b == 116
        || to_ascii_lowercase b == 109
        || to_ascii_lowercase b == 100)
      ≡ false
no_second b h = ground arith

no_start :
    (b : ℕ)
    → 192 ≤ b
    → (to_ascii_lowercase b == 114 || to_ascii_lowercase b == 118 || to_ascii_lowercase b == 108)
      ≡ false
no_start b h = ground arith

no_quote : (b : ℕ) → 192 ≤ b → (b == 39) ≡ false
no_quote b h = ground arith

-- The first two characters are ASCII, and the third byte is read.
third_byte-Finds :
    (c0 d c1 : ℕ) (s : List ℕ)
    → len_utf8 c0 ≡ 1
    → len_utf8 d ≡ 1
    → Finds (c0 ∷ d ∷ s) (third_byte c1 (as_bytes s))
unfolding as_bytes
third_byte-Finds c0 d c1 [] h k = tt
third_byte-Finds c0 d c1 (c ∷ s) h k = elim (utf8-cases c) [
  | inl (one, same) ↦
      rw (same, third_byte)
        (test-Finds (c0 ∷ d ∷ c ∷ s) _ (some 3) none
          (λ e.
            IsCut-at (c0 ∷ d ∷ c ∷ s) (len_utf8 c0 + (len_utf8 d + (len_utf8 c + 0))) 3
              (omega (arith, one, h, k))
              (IsCut-cons c0 (d ∷ c ∷ s) _
                (IsCut-cons d (c ∷ s) _ (IsCut-cons c s 0 (IsCut-none s)))))
          tt)
  | inr (b, b', rest, same, big) ↦
      rw (same, third_byte)
        (test-Finds (c0 ∷ d ∷ c ∷ s) _ (some 3) none (λ e. absurd (no_third c1 b big e)) tt)
]

second_byte-Finds :
    (c0 : ℕ) (s : List ℕ) → len_utf8 c0 ≡ 1 → Finds (c0 ∷ s) (contraction (c0 ∷ as_bytes s))
unfolding contraction as_bytes
second_byte-Finds c0 [] one = tt
second_byte-Finds c0 (d ∷ s) one = elim (utf8-cases d) [
  | inl (one', same) ↦
      let c1 = to_ascii_lowercase d in
      let short = c1 == 115 || c1 == 116 || c1 == 109 || c1 == 100 in
      let long = c1 == 114 || c1 == 118 || c1 == 108 in
      let third = if long then third_byte c1 (as_bytes s) else none in
      rw (same, contraction)
        (test-Finds (c0 ∷ d ∷ s) (not (c0 == 39)) none (if short then some 2 else third) (λ e. tt)
          (test-Finds (c0 ∷ d ∷ s) short (some 2) third
            (λ e.
              IsCut-at (c0 ∷ d ∷ s) (len_utf8 c0 + (len_utf8 d + 0)) 2 (omega (arith, one, one'))
                (IsCut-cons c0 (d ∷ s) (len_utf8 d + 0) (IsCut-cons d s 0 (IsCut-none s))))
            (test-Finds (c0 ∷ d ∷ s) long (third_byte c1 (as_bytes s)) none
              (λ e. third_byte-Finds c0 d c1 s one one') tt)))
  | inr (b, b', rest, same, big) ↦
      rw (same, contraction, no_second b big, no_start b big)
        (test-Finds (c0 ∷ d ∷ s) _ none none (λ e. tt) tt)
]

pub contraction-Finds : (c0 : ℕ) (s : List ℕ) → Finds (c0 ∷ s) (contraction (as_bytes (c0 ∷ s)))
unfolding contraction as_bytes
contraction-Finds c0 s = elim (utf8-cases c0) [
  | inr (b, b', rest, same, big) ↦ rw (same, contraction, no_quote b big) tt
  | inl (one, same) ↦ rw same (second_byte-Finds c0 s one)
]

pub nonempty : (left : List ℕ) → 0 < size left → 0 < length left
unfolding size
nonempty [] h = h
nonempty (c ∷ left) h = omega arith
