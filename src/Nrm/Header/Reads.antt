-- ===== src/Nrm/Header/Reads.antt =====
-- The header's reads on a file that holds a header: none is out of range.
use nightrun.Prelude.{ℕ, ◌≤◌, ◌≡◌, refl, List, length, Safe, arith}
use nightrun.Prelude.Bytes.{sub-fits, le32_at-lt, le64_at-lt}
use nightrun.Nrm.Types.{Arch, header_size}
use nightrun.Nrm.Header.{read_meta, read_layout}

-- A read that ends at `next`.
abbrev pub EndsAt : {A : Type 0} → ℕ → A × ℕ → Type 0
EndsAt next r = r.1 ≡ next

pub read_meta-Safe :
    (arch : Arch) (blob : List ℕ)
    → header_size ≤ length blob
    → Safe (EndsAt 136) (read_meta arch blob 12)
unfolding read_meta
read_meta-Safe arch blob h =
    rw
      (
        le32_at-lt blob 12 (omega arith),
        le32_at-lt blob 16 (omega arith),
        le32_at-lt blob 20 (omega arith),
        le32_at-lt blob 24 (omega arith),
        le32_at-lt blob 28 (omega arith),
        le32_at-lt blob 32 (omega arith),
        le32_at-lt blob 36 (omega arith),
        le32_at-lt blob 40 (omega arith),
        le32_at-lt blob 44 (omega arith),
        le32_at-lt blob 48 (omega arith),
        le32_at-lt blob 52 (omega arith),
        le32_at-lt blob 56 (omega arith),
        le32_at-lt blob 60 (omega arith),
        le32_at-lt blob 64 (omega arith),
        le32_at-lt blob 68 (omega arith),
        le32_at-lt blob 72 (omega arith),
        le32_at-lt blob 76 (omega arith),
        le32_at-lt blob 80 (omega arith),
        le32_at-lt blob 84 (omega arith),
        sub-fits blob 88 136 (omega arith) (omega arith),
      )
      refl

pub read_layout-Safe :
    (blob : List ℕ) → header_size ≤ length blob → Safe (EndsAt 192) (read_layout blob 136)
unfolding read_layout
read_layout-Safe blob h =
    rw
      (
        le64_at-lt blob 136 (omega arith),
        le64_at-lt blob 144 (omega arith),
        le64_at-lt blob 152 (omega arith),
        le32_at-lt blob 160 (omega arith),
        le32_at-lt blob 164 (omega arith),
        le64_at-lt blob 168 (omega arith),
        le64_at-lt blob 176 (omega arith),
        le32_at-lt blob 184 (omega arith),
        le32_at-lt blob 188 (omega arith),
      )
      refl
