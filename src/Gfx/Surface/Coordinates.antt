-- ===== src/Gfx/Surface/Coordinates.antt =====
-- crates/nr-gfx/src/surface.rs: which columns or rows a rectangle covers.
use nightrun.Prelude.{ℕ, ◌+◌, ◌<◌, ◌≡◌, Bool, ◌&&◌, ltb, leb, arith}
use nightrun.Gfx.Surface.{ℤ, pos, negsuc, add32, max_zero}

-- `from <= i < from + size`, in the integers, for a position `i` on the screen.
abbrev pub covers : ℤ → ℕ → ℕ → Bool
covers (pos a) size i = leb a i && ltb i (a + size)
covers (negsuc a) size i = ltb (i + a + 1) size

-- `from` and `from + size` are values of an `i32`.
abbrev pub InRange : ℤ → ℕ → Type 0
InRange (pos a) size = a + size < 2147483648
InRange (negsuc a) size = (a < 2147483648) × (size < 2147483648)

pub covers_lem :
    (x : ℤ) (size i : ℕ)
    → InRange x size
    → leb (max_zero x) i && ltb i (max_zero (add32 x (pos size))) ≡ covers x size i
covers_lem (pos a) size i h = ground arith
covers_lem (negsuc a) size i h = ground arith
