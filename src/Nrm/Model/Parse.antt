-- ===== src/Nrm/Model/Parse.antt =====
-- `Model::parse` on any bytes: it never panics, and the entries of what it accepts are valid.
use nightrun.Prelude.{
  ℕ, ◌-◌, ◌≤◌, ◌≡◌, ◌≢◌, sym, subst, false, not, ◌||◌, List, length, length-take, length-drop, take,
  drop, All, ltb, ◌!=◌, ok, panic, Safe, Safe-then, Safe-fail_if, Safe-ok_or, Safe-ok,
  Safe-ne-panic, arith,
}
use nightrun.Prelude.Bytes.{sub-fits, bytes_eq, le32_of, le32_at-lt}
use nightrun.Nrm.Types.{
  Meta, too_short, bad_table, bad_magic, bad_version, meta_crc, magic, header_size, format_version,
  entry_size, arch_from_u32, checked_add, checked_mul,
}
use nightrun.Nrm.Header.{Layout, read_meta, read_layout}
use nightrun.Nrm.Header.Reads.{EndsAt, read_meta-Safe, read_layout-Safe}
use nightrun.Nrm.Model.{Model, incoherent, meta_checksum, parse_entries, parse_regions, parse}
use nightrun.Nrm.Model.Entries.{
  IsValidEntry, parse_entries-Safe, checked_add_value, checked_mul_value,
}

-- Every entry's bytes lie inside the tensor data.
abbrev pub IsValid : Model → Type 0
IsValid m = All (IsValidEntry (length m.tensor_data)) m.entries

abbrev Anything : {A : Type 0} → A → Type 0
Anything a = Unit {0}

module _ (blob : List ℕ) (l : Layout) (long : header_size ≤ length blob) where
  meta_checksum-Safe :
      (tok_end table_end : ℕ)
      → l.tok_off ≤ tok_end
      → tok_end ≤ length blob
      → l.table_off ≤ table_end
      → table_end ≤ length blob
      → Safe Anything (meta_checksum blob l tok_end table_end)
  unfolding meta_checksum
  meta_checksum-Safe tok_end table_end h1 h2 h3 h4 =
      rw
        (
          sub-fits blob 0 (header_size - 8) (omega arith) (omega arith),
          sub-fits blob l.tok_off tok_end h1 h2,
          sub-fits blob l.table_off table_end h3 h4,
        )
        tt

  pub parse_regions-Safe : (meta : Meta) → Safe IsValid (parse_regions blob meta l)
  unfolding parse_regions
  parse_regions-Safe meta = Safe-fail_if IsValid (incoherent meta) bad_table _ λ _.
      Safe-ok_or IsValid (checked_mul l.tensor_count entry_size) bad_table _ λ table_len mul.
        Safe-ok_or IsValid (checked_add l.table_off table_len) too_short _ λ table_end add1.
          Safe-ok_or IsValid (checked_add l.data_off l.data_size) too_short _ λ data_end add2.
            Safe-ok_or IsValid (checked_add l.tok_off l.tok_size) too_short _ λ tok_end add3.
              Safe-fail_if IsValid _ too_short _ λ fits.
                let len = checked_mul_value l.tensor_count entry_size table_len mul in
                let (sum1, _) = checked_add_value l.table_off table_len table_end add1 in
                let (sum2, _) = checked_add_value l.data_off l.data_size data_end add2 in
                let (sum3, _) = checked_add_value l.tok_off l.tok_size tok_end add3 in
                let (in1, in2, in3) = within table_end data_end tok_end fits in
                Safe-then IsValid Anything (meta_checksum blob l tok_end table_end) _
                  (meta_checksum-Safe tok_end table_end (omega arith) in3 (omega arith) in1)
                  λ got _. Safe-fail_if IsValid (got != l.meta_crc) (meta_crc l.meta_crc got) _ λ _.
                    Safe-then IsValid (All (IsValidEntry l.data_size))
                      (parse_entries l.tensor_count blob l.data_size l.table_off) _
                      (parse_entries-Safe blob l.data_size l.tensor_count l.table_off (omega arith))
                      (λ entries valid.
                        rw
                          (
                            sub-fits blob l.tok_off tok_end (omega arith) in3,
                            sub-fits blob l.data_off data_end (omega arith) in2,
                          )
                          (subst (λ (k : ℕ). All (IsValidEntry k) entries)
                            (omega (
                              arith,
                              length-take (data_end - l.data_off) (drop l.data_off blob),
                              length-drop l.data_off blob,
                            ))
                            valid))
    where
      within :
          (table_end data_end tok_end : ℕ)
          → (ltb (length blob) table_end || ltb (length blob) data_end || ltb (length blob) tok_end)
            ≡ false
          → (table_end ≤ length blob) × (data_end ≤ length blob) × (tok_end ≤ length blob)
      within table_end data_end tok_end h = ground arith

parse-Safe : (blob : List ℕ) → Safe IsValid (parse blob)
unfolding parse
parse-Safe blob = Safe-fail_if IsValid (ltb (length blob) header_size) too_short _ λ long.
    let enough : header_size ≤ length blob = ground arith in
    rw
      (
        sub-fits blob 0 4 (omega arith) (omega arith),
        le32_at-lt blob 4 (omega arith),
        le32_at-lt blob 8 (omega arith),
      )
      (Safe-fail_if IsValid (not (bytes_eq (take 4 blob) magic)) bad_magic _ λ _.
        Safe-fail_if IsValid (le32_of blob 4 != format_version) (bad_version (le32_of blob 4)) _
          λ _. Safe-ok_or IsValid (arch_from_u32 (le32_of blob 8)) bad_table _ λ arch _.
            Safe-then IsValid (EndsAt 136) (read_meta arch blob 12) _
              (read_meta-Safe arch blob enough)
              λ (meta, p3) e3.
                Safe-then IsValid (EndsAt 192) (read_layout blob p3) _
                  (subst (λ (p : ℕ). Safe (EndsAt 192) (read_layout blob p)) (sym e3)
                    (read_layout-Safe blob enough))
                  λ (layout, p4) e4. parse_regions-Safe blob layout enough meta)

-- `Model::parse` never panics, whatever the bytes: every slice and every sum is in range.
pub parse-ne-panic : (blob : List ℕ) → parse blob ≢ panic
parse-ne-panic blob = Safe-ne-panic IsValid (parse blob) (parse-Safe blob)

-- In a model that `Model::parse` accepts, every entry of the table is aligned, holds as many bytes
-- as its type and shape need, and ends inside the tensor data.
pub parse-IsValid : (blob : List ℕ) (m : Model) → parse blob ≡ ok m → IsValid m
parse-IsValid blob m e = Safe-ok IsValid (parse blob) m (parse-Safe blob) e
