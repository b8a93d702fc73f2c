-- ===== src/Gfx/Surface/Paint.antt =====
-- crates/nr-gfx/src/surface.rs: `fill_rect` and `put` on the image that a surface stands for.
use nightrun.Prelude.{
  ℕ, ◌+◌, ◌-◌, ◌*◌, min, ◌≤◌, ◌<◌, ◌≡◌, refl, ap, ap₂, ◌∙◌, inl, inr, ◌&&◌, List, length, get_elem?,
  some, ltb, leb, Bool-cases, ltb→lt, if◌then◌else◌, arith,
}
use native.Mathlib.Nat.{mul-le-mul_right}
use nightrun.Gfx.Surface.{
  ℤ, pos, negsuc, add32, max_zero, Surface, inside, get, with_buf, fill_rect,
}
use nightrun.Gfx.Surface.Coordinates.{covers, InRange, covers_lem}
use nightrun.Gfx.Surface.Rows.{painted, length-painted, fill_rows_lem, painted_pixel}

abbrev pub IsSurface : Surface → Type 0
IsSurface s = length s.buf ≡ s.width * s.height

forward : (x : ℤ) (size : ℕ) → InRange x size → max_zero x ≤ max_zero (add32 x (pos size))
forward (pos a) size h = ground arith
forward (negsuc a) size h = ground arith

-- Cutting the far side at the border changes nothing for a position inside it.
cut_range :
    (from to bound i : ℕ) → i < bound → leb from i && ltb i (min to bound) ≡ leb from i && ltb i to
cut_range from to bound i h = ground arith

cut_rows :
    (from to bound i : ℕ)
    → i < bound
    → leb from i && ltb i (from + (min to bound - from)) ≡ leb from i && ltb i to
cut_rows from to bound i h = ground arith

-- On a surface of the size that it states, a rectangle whose width and height are not negative, whose
-- corners are `i32` numbers without overflow, and whose left side is not behind the right border:
-- `fill_rect` does not fail, keeps the size, gives each pixel of the surface inside the rectangle the
-- colour, and leaves the others.
pub get-fill_rect :
    (s : Surface) (x y : ℤ) (w h color : ℕ)
    → IsSurface s
    → InRange x w
    → InRange y h
    → max_zero x ≤ s.width
    → (s' : Surface) × (fill_rect x y (pos w) (pos h) color s ≡ some s')
      × IsSurface s'
      × ((i j : ℕ)
          → get (pos i) (pos j) s' ≡ (
              if inside s (pos i) (pos j) && (covers y h j && covers x w i)
              then some color
              else get (pos i) (pos j) s))
unfolding fill_rect get inside with_buf
get-fill_rect s x y w h color ok rx ry left = (
  record s { buf = buf' },
  ap (λ t. with_buf s t) (fill_rows_lem s.width x0 x1 color ordered narrow n y0 s.buf fits),
  length-painted s.width x0 x1 color ordered narrow n y0 s.buf fits ∙ ok,
  pixel,
)
  where
    x0 : ℕ
    x0 = max_zero x

    y0 : ℕ
    y0 = max_zero y

    x1 : ℕ
    x1 = min (max_zero (add32 x (pos w))) s.width

    n : ℕ
    n = min (max_zero (add32 y (pos h))) s.height - y0

    ordered : x0 ≤ x1
    ordered = omega (arith, forward x w rx)

    narrow : x1 ≤ s.width
    narrow = omega arith

    fits : 0 < n → (y0 + n) * s.width ≤ length s.buf
    fits k =
        let below : (y0 + n) * s.width ≤ s.height * s.width =
          mul-le-mul_right s.width (omega arith) in
        let swap : s.height * s.width ≡ s.width * s.height = grind arith in
        omega (arith, below, swap, ok)

    buf' : List ℕ
    buf' = painted s.width x0 x1 color ordered narrow n y0 s.buf

    pixel :
        (i j : ℕ)
        → get (pos i) (pos j) (record s { buf = buf' }) ≡ (
            if inside s (pos i) (pos j) && (covers y h j && covers x w i)
            then some color
            else get (pos i) (pos j) s)
    pixel i j = elim (Bool-cases (ltb i s.width)) [
      | inr e ↦ rw e refl
      | inl e ↦ elim (Bool-cases (ltb j s.height)) [
        | inr f ↦ rw (e, f) refl
        | inl f ↦
            rw (e, f)
              (painted_pixel s.width x0 x1 color ordered narrow n y0 j i s.buf fits
                  (ltb→lt i s.width e)
                ∙ ap (λ b. if b then some color else get_elem? s.buf (j * s.width + i))
                    (ap₂ ◌&&◌
                      (cut_rows y0 (max_zero (add32 y (pos h))) s.height j (ltb→lt j s.height f)
                        ∙ covers_lem y h j ry)
                      (cut_range x0 (max_zero (add32 x (pos w))) s.width i (ltb→lt i s.width e)
                        ∙ covers_lem x w i rx)))
      ]
    ]
