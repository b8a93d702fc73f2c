-- ===== src/Token/Pretok.antt =====
-- crates/nr-token/src/pretok.rs, and `encode_text` of blob.rs: how a text is cut into chunks. A text
-- is the list of its scalar values; lengths and positions are in bytes of its UTF-8, as in the code.
pub mod Progress
pub mod Cuts
pub mod Cases
use nightrun.Prelude.{
  ℕ, zero, suc, ◌+◌, ◌-◌, ◌/◌, ◌%◌, Bool, true, false, not, ◌&&◌, ◌||◌, List, [], ◌∷◌, ◌++◌, Option,
  none, some, ltb, leb, ◌==◌, ◌!=◌, if◌then◌else◌, Result, ok, panic, ◌>>=◌, unwrap, length,
}
use nightrun.Token.Blob.{Template, llama3, chat_ml, granite, Tokenizer, Error}
use nightrun.Token.Encode.{encode_chunk}

pub data Style : Type 0 where
  llama3_style qwen2_style : Style

-- `char::len_utf8`, and the bytes of a character and of a text.
abbrev len_utf8 : ℕ → ℕ
len_utf8 c = if ltb c 0x80 then 1 else if ltb c 0x800 then 2 else if ltb c 0x10000 then 3 else 4

utf8 : ℕ → List ℕ
utf8 c =
    if ltb c 0x80
    then c ∷ []
    else if ltb c 0x800
    then (0xc0 + c / 64) ∷ (0x80 + c % 64) ∷ []
    else if ltb c 0x10000
    then (0xe0 + c / 4096) ∷ (0x80 + c / 64 % 64) ∷ (0x80 + c % 64) ∷ []
    else (0xf0 + c / 262144) ∷ (0x80 + c / 4096 % 64) ∷ (0x80 + c / 64 % 64) ∷ (0x80 + c % 64) ∷ []

pub as_bytes : List ℕ → List ℕ
as_bytes [] = []
as_bytes (c ∷ s) = utf8 c ++ as_bytes s

-- `u8::to_ascii_lowercase`
abbrev to_ascii_lowercase : ℕ → ℕ
to_ascii_lowercase b = if leb 65 b && leb b 90 then b + 32 else b

-- The byte length of the characters at the start of `s` that satisfy the test, those characters,
-- and what follows them.
pub run : (ℕ → Bool) → List ℕ → ℕ
run p [] = 0
run p (c ∷ s) = let n = run p s in if p c then len_utf8 c + n else 0

pub take_run : (ℕ → Bool) → List ℕ → List ℕ
take_run p [] = []
take_run p (c ∷ s) = let t = take_run p s in if p c then c ∷ t else []

pub drop_run : (ℕ → Bool) → List ℕ → List ℕ
drop_run p [] = []
drop_run p (c ∷ s) = let t = drop_run p s in if p c then t else c ∷ s

-- At most `max` characters of the run.
pub run_max : ℕ → (ℕ → Bool) → List ℕ → ℕ
run_max zero p s = 0
run_max (suc max) p [] = 0
run_max (suc max) p (c ∷ s) = let n = run_max max p s in if p c then len_utf8 c + n else 0

abbrev is_newline : ℕ → Bool
is_newline c = c == 13 || c == 10

-- The position of the last newline of a run that starts at `i`.
pub rfind_newline : ℕ → List ℕ → Option ℕ → Option ℕ
rfind_newline i [] found = found
rfind_newline i (c ∷ s) found =
    rfind_newline (i + len_utf8 c) s (if is_newline c then some i else found)

pub last_char : ℕ → List ℕ → ℕ
last_char c [] = c
last_char c (d ∷ s) = last_char d s

abbrev or_else : Option ℕ → Option ℕ → Option ℕ
or_else (some n) o = some n
or_else none o = o

-- `str::split_at`, none where the position is not between two characters.
abbrev cons_left : ℕ → Option (List ℕ × List ℕ) → Option (List ℕ × List ℕ)
cons_left c none = none
cons_left c (some (left, right)) = some (c ∷ left, right)

pub split_at : ℕ → List ℕ → Option (List ℕ × List ℕ)
split_at zero s = some ([], s)
split_at (suc n) [] = none
split_at (suc n) (c ∷ s) =
    let rest = split_at (suc n - len_utf8 c) s in
    if ltb (suc n) (len_utf8 c) then none else cons_left c rest

-- 1. The contractions, read from the bytes.
abbrev third_byte : ℕ → List ℕ → Option ℕ
third_byte c1 [] = none
third_byte c1 (b ∷ rest) =
    let c2 = to_ascii_lowercase b in
    if c1 == 114 && c2 == 101 || c1 == 118 && c2 == 101 || c1 == 108 && c2 == 108
    then some 3
    else none

pub contraction : List ℕ → Option ℕ
contraction [] = none
contraction (b0 ∷ []) = none
contraction (b0 ∷ b ∷ rest) =
    let c1 = to_ascii_lowercase b in
    if not (b0 == 39)
    then none
    else if c1 == 115 || c1 == 116 || c1 == 109 || c1 == 100
    then some 2
    else if c1 == 114 || c1 == 118 || c1 == 108
    then third_byte c1 rest
    else none

-- The character classes of the standard library.
module _ (is_alphabetic is_numeric is_whitespace : ℕ → Bool) where
  -- 2. Letters, after one other character or none.
  starts_letter : List ℕ → Bool
  starts_letter [] = false
  starts_letter (c ∷ s) = is_alphabetic c

  letters : ℕ → List ℕ → Option ℕ
  letters c0 s =
      if is_alphabetic c0
      then some (run is_alphabetic (c0 ∷ s))
      else if c0 != 13 && c0 != 10 && not (is_numeric c0) && starts_letter s
      then some (len_utf8 c0 + run is_alphabetic s)
      else none

  -- 3. Digits.
  abbrev digits_max : Style → ℕ
  digits_max llama3_style = 3
  digits_max qwen2_style = 1

  digits : Style → ℕ → List ℕ → Option ℕ
  digits style c0 s =
      if is_numeric c0 then some (run_max (digits_max style) is_numeric (c0 ∷ s)) else none

  -- 4. Other characters, after a space or none, with the newlines behind them.
  abbrev is_other : ℕ → Bool
  is_other c = not (is_whitespace c) && not (is_alphabetic c) && not (is_numeric c)

  others_from : ℕ → List ℕ → Option ℕ
  others_from start s =
      let n = run is_other s in
      if ltb 0 n then some (start + n + run is_newline (drop_run is_other s)) else none

  others : ℕ → List ℕ → Option ℕ
  others c0 s = if c0 == 32 then others_from 1 s else others_from 0 (c0 ∷ s)

  -- 5 to 7. Whitespace.
  abbrev up_to : ℕ → Bool → ℕ → Option ℕ → ℕ
  up_to run_end at_end last_len (some last_nl) = last_nl + 1
  up_to run_end at_end last_len none =
      if not at_end && ltb last_len run_end then run_end - last_len else run_end

  abbrev is_empty : List ℕ → Bool
  is_empty [] = true
  is_empty (c ∷ s) = false

  spaces : ℕ → List ℕ → Option ℕ
  spaces c0 s =
      if is_whitespace c0
      then some (
          up_to (run is_whitespace (c0 ∷ s)) (is_empty (drop_run is_whitespace (c0 ∷ s)))
            (len_utf8 (last_char c0 (take_run is_whitespace s)))
            (rfind_newline 0 (take_run is_whitespace (c0 ∷ s)) none))
      else none

  abbrev or_one : ℕ → Option ℕ → ℕ
  or_one c0 (some n) = n
  or_one c0 none = len_utf8 c0

  -- `match_one` of the text `c0 ∷ s`
  pub match_one : Style → ℕ → List ℕ → ℕ
  match_one style c0 s = or_one c0 (
      or_else (contraction (as_bytes (c0 ∷ s))) (
        or_else (letters c0 s) (or_else (digits style c0 s) (or_else (others c0 s) (spaces c0 s)))))

  -- `Chunks::next`: the chunk and the rest.
  next : Style → List ℕ → Result Error (Option (List ℕ × List ℕ))
  next style [] = ok none
  next style (c0 ∷ s) = do
    parts ← unwrap (split_at (match_one style c0 s) (c0 ∷ s))
    ok (some parts)

  abbrev style_of : Template → Style
  style_of llama3 = llama3_style
  style_of granite = llama3_style
  style_of chat_ml = qwen2_style

  -- The loop of `encode_text`, whose fuel is one more than the characters of the text.
  encode_chunks : ℕ → Tokenizer → List ℕ → Result Error (List ℕ)
  encode_chunks zero t text = panic
  encode_chunks (suc fuel) t text = do
    step ← next (style_of (t.template)) text
    elim step [
      | none ↦ ok []
      | some (chunk, rest) ↦ do
        ids ← encode_chunk t (as_bytes chunk)
        more ← encode_chunks fuel t rest
        ok (ids ++ more)
    ]

  encode_text : Tokenizer → List ℕ → Result Error (List ℕ)
  encode_text t text = encode_chunks (length text + 1) t text
