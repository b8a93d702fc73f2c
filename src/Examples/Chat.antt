-- ===== src/Examples/Chat.antt =====
-- The chat screen's text functions at concrete inputs.
use nightrun.Prelude.{ℕ, ◌+◌, ◌-◌, ◌≤◌, ◌≡◌, refl, List, [], ◌∷◌, length, All, some, arith}
use nightrun.Ui.Chat.{wrap, fmt_u32, fmt_milli, input_window, scroll_window}
use nightrun.Ui.Chat.Wrap.{ink, flat, wrap-IsComplete}
use nightrun.Ui.Chat.Numbers.{number, IsDigit, number-fmt_u32}
use nightrun.Ui.Chat.Windows.{scroll_window-IsFull}

-- "ab cd", a line end, "efghi"
abbrev words : List ℕ
words = 97 ∷ 98 ∷ 32 ∷ 99 ∷ 100 ∷ 10 ∷ 101 ∷ 102 ∷ 103 ∷ 104 ∷ 105 ∷ []

wrap-words :
    wrap words 4 ≡ (97 ∷ 98 ∷ []) ∷ (99 ∷ 100 ∷ []) ∷ (101 ∷ 102 ∷ 103 ∷ 104 ∷ []) ∷ (105 ∷ []) ∷ []
unfolding wrap
wrap-words = refl

wrap-IsComplete_example :
    All (λ l. length l ≤ 4) (wrap words 4) × (ink (flat (wrap words 4)) ≡ ink words)
wrap-IsComplete_example = wrap-IsComplete words 4 (omega arith)

fmt_milli-rate : fmt_milli 12345 ≡ some (49 ∷ 50 ∷ 46 ∷ 51 ∷ [])
unfolding fmt_milli
fmt_milli-rate = refl

number-fmt_u32_example :
    (out : List ℕ) × (fmt_u32 4294967295 ≡ some out) × All IsDigit out × (number 0 out ≡ 4294967295)
number-fmt_u32_example = number-fmt_u32 4294967295 (omega arith)

input_window-end : input_window 20 20 8 ≡ (20, 13, 20)
unfolding input_window
input_window-end = refl

scroll_window-IsFull_example :
    let (cut, start, end) = scroll_window 30 10 99 in
    (cut ≤ 99)
    × (13 ≤ cut)
    × ((scroll_window 30 10 cut).0 ≡ cut)
    × (start ≤ end)
    × (end ≤ 30)
    × (end - start ≡ 10)
    × (end + cut ≡ 30)
scroll_window-IsFull_example = scroll_window-IsFull 30 10 99 13 (omega arith) (omega arith)
