-- ===== src/Nrm/Model/Entries.antt =====
-- The table of `Model::parse`: what its loop accepts.
use nightrun.Prelude.{
  ℕ, zero, suc, ◌+◌, ◌*◌, ◌%◌, ◌^◌, ◌≤◌, ◌<◌, ◌≡◌, ap, ◌∙◌, subst, List, ◌∷◌, length, All, some,
  ltb, ◌!=◌, ok, Safe, Safe-then, Safe-fail_if, Safe-ok_or, arith,
}
use nightrun.Prelude.Bytes.{le16_of, le32_of, le64_of, le16_at-lt, le32_at-lt, le64_at-lt}
use nightrun.Nrm.Types.{
  TensorEntry, bad_table, entry_size, data_align, dtype_from_u16, checked_add, checked_mul,
  byte_size,
}
use nightrun.Nrm.Model.{check_entry, parse_entry, parse_entries}

-- An entry's bytes lie inside the data region, aligned, and there are as many as its shape needs.
pub record IsValidEntry (data_size : ℕ) (e : TensorEntry) : Type 0 where
  pub no_wrap : e.offset + e.size < 2 ^ 64
  pub inside : e.offset + e.size ≤ data_size
  pub aligned : e.offset % data_align ≡ 0
  pub shaped : byte_size e.dtype (e.rows * e.cols) ≡ some e.size

pub checked_add_value : (a b c : ℕ) → checked_add a b ≡ some c → (c ≡ a + b) × (c < 2 ^ 64)
checked_add_value a b c h = ground arith

pub checked_mul_value : (a b c : ℕ) → checked_mul a b ≡ some c → c ≡ a * b
checked_mul_value a b c h = ground arith

check_entry-Safe : (size : ℕ) (e : TensorEntry) → Safe (IsValidEntry size) (check_entry size e)
unfolding check_entry
check_entry-Safe size e =
    Safe-ok_or (IsValidEntry size) (checked_add e.offset e.size) bad_table _ λ end ends.
      Safe-fail_if (IsValidEntry size) (ltb size end) bad_table _ λ fits.
        Safe-fail_if (IsValidEntry size) (e.offset % data_align != 0) bad_table _ λ aligned.
          Safe-ok_or (IsValidEntry size) (checked_mul e.rows e.cols) bad_table _ λ n shape.
            Safe-ok_or (IsValidEntry size) (byte_size e.dtype n) bad_table _ λ need sized.
              Safe-fail_if (IsValidEntry size) (need != e.size) bad_table _ λ exact.
                let sum = checked_add_value e.offset e.size end ends in
                let same : need ≡ e.size = ground arith in
                record {
                  no_wrap = omega (arith, sum.0, sum.1);
                  inside = ground (arith, sum.0);
                  aligned = ground arith;
                  shaped =
                      subst (λ (k : ℕ). byte_size e.dtype k ≡ some e.size)
                        (checked_mul_value e.rows e.cols n shape) (sized ∙ ap some same);
                }

abbrev pub IsEntryAt : ℕ → ℕ → TensorEntry × ℕ → Type 0
IsEntryAt size next r = IsValidEntry size r.0 × (r.1 ≡ next)

module _ (blob : List ℕ) (size : ℕ) where
  parse_entry-Safe :
      (pos : ℕ)
      → pos + entry_size ≤ length blob
      → Safe (IsEntryAt size (pos + entry_size)) (parse_entry blob size pos)
  unfolding parse_entry
  parse_entry-Safe pos h =
      rw
        (
          le16_at-lt blob pos (omega arith),
          le16_at-lt blob (pos + 2) (omega arith),
          le16_at-lt blob (pos + 2 + 2) (omega arith),
          le16_at-lt blob (pos + 2 + 2 + 2) (omega arith),
          le64_at-lt blob (pos + 2 + 2 + 2 + 2) (omega arith),
          le64_at-lt blob (pos + 2 + 2 + 2 + 2 + 8) (omega arith),
          le32_at-lt blob (pos + 2 + 2 + 2 + 2 + 8 + 8) (omega arith),
          le32_at-lt blob (pos + 2 + 2 + 2 + 2 + 8 + 8 + 4) (omega arith),
        )
        (Safe-ok_or (IsEntryAt size (pos + entry_size))
          (dtype_from_u16 (le16_of blob (pos + 2 + 2))) bad_table _
          λ dtype _.
            Safe-then (IsEntryAt size (pos + entry_size)) (IsValidEntry size)
              (check_entry size (record {
                kind = le16_of blob pos;
                layer = le16_of blob (pos + 2);
                dtype = dtype;
                offset = le64_of blob (pos + 2 + 2 + 2 + 2);
                size = le64_of blob (pos + 2 + 2 + 2 + 2 + 8);
                rows = le32_of blob (pos + 2 + 2 + 2 + 2 + 8 + 8);
                cols = le32_of blob (pos + 2 + 2 + 2 + 2 + 8 + 8 + 4);
              }))
              (λ e. ok (e, pos + 2 + 2 + 2 + 2 + 8 + 8 + 4 + 4)) (check_entry-Safe size _)
              (λ e valid. (valid, omega arith)))

  pub parse_entries-Safe :
      (n pos : ℕ)
      → pos + n * entry_size ≤ length blob
      → Safe (All (IsValidEntry size)) (parse_entries n blob size pos)
  unfolding parse_entries
  parse_entries-Safe zero pos h = tt
  parse_entries-Safe (suc n) pos h =
      Safe-then (All (IsValidEntry size)) (IsEntryAt size (pos + entry_size))
        (parse_entry blob size pos) _ (parse_entry-Safe pos (omega arith))
        λ (e, next) (valid, moved).
          Safe-then (All (IsValidEntry size)) (All (IsValidEntry size))
            (parse_entries n blob size next) (λ rest. ok (e ∷ rest))
            (parse_entries-Safe n next (omega arith)) (λ rest all. (valid, all))
