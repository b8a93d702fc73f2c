-- ===== src/Ui/Chat/Windows.antt =====
-- crates/nr-ui/src/chat.rs: the windows on the input line and on the history.
use nightrun.Prelude.{ℕ, ◌+◌, ◌-◌, min, ◌≤◌, ◌≡◌, arith}
use nightrun.Ui.Chat.{scroll_window}

-- The scroll that is kept is the most of what was asked for that leaves as many lines in the window
-- as fit: it is no more than was asked for, no smaller than any scroll `k` of that kind, and asking
-- for it again keeps it. The lines shown are a slice of the history, as many as fit or all of it, and
-- as many newer lines are left out as were scrolled.
pub scroll_window-IsFull :
    (len max_lines scroll k : ℕ)
    → k ≤ scroll
    → k + min len max_lines ≤ len
    → let (cut, start, end) = scroll_window len max_lines scroll in
      (cut ≤ scroll)
      × (k ≤ cut)
      × ((scroll_window len max_lines cut).0 ≡ cut)
      × (start ≤ end)
      × (end ≤ len)
      × (end - start ≡ min len max_lines)
      × (end + cut ≡ len)
unfolding scroll_window
scroll_window-IsFull len max_lines scroll k asked full =
    (omega arith, omega arith, omega arith, omega arith, omega arith, omega arith, omega arith)
