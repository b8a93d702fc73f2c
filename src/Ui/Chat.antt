-- ===== src/Ui/Chat.antt =====
-- crates/nr-ui/src/chat.rs: line wrapping, the windows on the input and on the history, and the
-- numbers of the status bar. A text is its list of characters; what is drawn is left out.
pub mod Wrap
pub mod Numbers
pub mod Windows
use nightrun.Prelude.{
  ℕ, zero, suc, ◌+◌, ◌-◌, ◌*◌, ◌/◌, ◌%◌, min, Bool, true, false, List, [], ◌∷◌, ◌++◌, length, take,
  drop, Option, none, some, ltb, leb, ◌==◌, if◌then◌else◌,
}

cons_first : ℕ → List (List ℕ) → List (List ℕ)
cons_first c [] = (c ∷ []) ∷ []
cons_first c (piece ∷ pieces) = (c ∷ piece) ∷ pieces

-- `text.split(separator)`
pub split : ℕ → List ℕ → List (List ℕ)
split separator [] = [] ∷ []
split separator (c ∷ text) =
    let rest = split separator text in if c == separator then [] ∷ rest else cons_first c rest

-- `out` and `line`
abbrev pub Lines : Type 0
Lines = List (List ℕ) × List ℕ

-- `while rest.len() > cols`, with fuel for as many rounds as `rest` has characters.
pub push_chunks : ℕ → ℕ → List ℕ → List (List ℕ) → Lines
push_chunks zero cols rest out = (out, rest)
push_chunks (suc n) cols rest out =
    let next = push_chunks n cols (drop cols rest) (out ++ (take cols rest ∷ [])) in
    if ltb cols (length rest) then next else (out, rest)

abbrev extended : List ℕ → Lines → Lines
extended line (out, rest) = (out, line ++ rest)

pub push_word : ℕ → List ℕ → Lines → Lines
push_word cols word (out, line) = extended line (push_chunks (length word) cols word out)

-- One round of the loop over the words; 32 is the space.
pub add_word : ℕ → List ℕ → Lines → Lines
add_word cols word (out, line) =
    if length line == 0
    then push_word cols word (out, line)
    else if leb (length line + 1 + length word) cols
    then (out, line ++ (32 ∷ word))
    else push_word cols word (out ++ (line ∷ []), [])

pub add_words : ℕ → List (List ℕ) → Lines → Lines
add_words cols [] s = s
add_words cols (word ∷ words) s = add_words cols words (add_word cols word s)

abbrev closed : Lines → List (List ℕ)
closed (out, line) = out ++ (line ∷ [])

pub add_paragraphs : ℕ → List (List ℕ) → List (List ℕ) → List (List ℕ)
add_paragraphs cols [] out = out
add_paragraphs cols (para ∷ paras) out =
    add_paragraphs cols paras (closed (add_words cols (split 32 para) (out, [])))

-- 10 is the end of a line.
unfoldable pub wrap : List ℕ → ℕ → List (List ℕ)
unfolding add_paragraphs add_words add_word push_word push_chunks split cons_first
wrap text cols = if cols == 0 then [] else add_paragraphs cols (split 10 text) []

-- The loop of `fmt_u32`, with the bytes left in `buf`; none where the index goes below zero.
pub fmt_loop : ℕ → ℕ → List ℕ → Option (List ℕ)
fmt_loop zero v digits = none
fmt_loop (suc i) v digits =
    let next = fmt_loop i (v / 10) ((48 + v % 10) ∷ digits) in
    if v / 10 == 0 then some ((48 + v % 10) ∷ digits) else next

-- What `fmt_u32` adds to the text.
unfoldable pub fmt_u32 : ℕ → Option (List ℕ)
unfolding fmt_loop
fmt_u32 v = fmt_loop 10 v []

joined : List ℕ → Option (List ℕ) → Option (List ℕ) → Option (List ℕ)
joined between (some a) (some b) = some (a ++ (between ++ b))
joined between (some a) none = none
joined between none b = none

-- What `fmt_milli` adds; 46 is the dot.
unfoldable pub fmt_milli : ℕ → Option (List ℕ)
unfolding joined fmt_u32 fmt_loop
fmt_milli milli = joined (46 ∷ []) (fmt_u32 (milli / 1000)) (fmt_u32 (milli % 1000 / 100))

-- The part of the input that `input_bar` shows, and the caret after it is cut.
unfoldable pub input_window : ℕ → ℕ → ℕ → ℕ × ℕ × ℕ
input_window len caret max_cols =
    let cut = min caret len in
    let start = if leb max_cols cut then cut + 1 - max_cols else 0 in
    (cut, start, min (start + max_cols) len)

-- The lines that `scrollback` shows, and the scroll that it returns.
pub scroll_window : ℕ → ℕ → ℕ → ℕ × ℕ × ℕ
scroll_window len max_lines scroll =
    let cut = min scroll (len - max_lines) in (cut, len - cut - max_lines, len - cut)
