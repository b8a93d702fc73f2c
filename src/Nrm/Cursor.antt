-- ===== src/Nrm/Cursor.antt =====
-- crates/nr-model/src/format.rs: `Cursor`, and the header and table entries that it reads.
-- A read past the end is a slice out of range, a panic. The position is threaded through.
use nightrun.Prelude.{ℕ, ◌+◌, List, Result, ok, err, panic}
use nightrun.Prelude.Bytes.{sub, le16_at, le32_at, le64_at}
use nightrun.Nrm.Types.{ParseError, name_len}

abbrev pub Cursor : Type 0 → Type 0
Cursor A = List ℕ → ℕ → Result ParseError (A × ℕ)

-- The value read, and the position moved on by `width`.
abbrev advance : {A : Type 0} → ℕ → ℕ → Result ParseError A → Result ParseError (A × ℕ)
advance pos width (ok a) = ok (a, pos + width)
advance pos width (err e) = err e
advance pos width panic = panic

abbrev continue :
    {A B : Type 0} → (A → Cursor B) → List ℕ → Result ParseError (A × ℕ) → Result ParseError (B × ℕ)
continue f blob (ok (a, pos)) = f a blob pos
continue f blob (err e) = err e
continue f blob panic = panic

infixl 5 ◌>>=◌
abbrev pub ◌>>=◌ : {A B : Type 0} → Cursor A → (A → Cursor B) → Cursor B
◌>>=◌ m f blob pos = continue f blob (m blob pos)

abbrev pub pure : {A : Type 0} → A → Cursor A
pure a blob pos = ok (a, pos)

abbrev pub u16 : Cursor ℕ
u16 blob pos = advance pos 2 (le16_at blob pos)

abbrev pub u32 : Cursor ℕ
u32 blob pos = advance pos 4 (le32_at blob pos)

abbrev pub u64 : Cursor ℕ
u64 blob pos = advance pos 8 (le64_at blob pos)

-- `f32::from_bits`
abbrev pub f32_bits : Cursor ℕ
f32_bits = u32

-- The copy of the name's bytes.
abbrev pub name_bytes : Cursor (List ℕ)
name_bytes blob pos = advance pos name_len (sub blob pos (pos + name_len))
