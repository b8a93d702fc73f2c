-- ===== src/Gfx/Surface.antt =====
-- crates/nr-gfx/src/surface.rs: the back buffer and its presentation. An operation returns none
-- where an index or a slice is out of range.
pub mod Coordinates
pub mod Rows
pub mod Paint
use nightrun.Prelude.{
  ℕ, zero, suc, ◌+◌, ◌-◌, ◌*◌, ◌/◌, ◌%◌, ◌^◌, min, bit_and, bit_or, Bool, true, false, ◌&&◌, List,
  [], ◌∷◌, length, take, drop, replicate, set, get_elem?, map, Option, none, some, ltb, leb,
  if◌then◌else◌,
}
use nightrun.Prelude.Bytes.{overwrite?, overwritten}

-- The integers, of which an `i32` is one from -2^31 to 2^31 - 1.
pub data ℤ : Type 0 where
  pos : ℕ → ℤ
  negsuc : ℕ → ℤ

abbrev to_word : ℤ → ℕ
to_word (pos n) = n % 4294967296
to_word (negsuc n) = 4294967295 - n % 4294967296

abbrev of_word : ℕ → ℤ
of_word w = if ltb w 2147483648 then pos w else negsuc (4294967295 - w)

-- `a + b` on `i32`, which wraps around.
abbrev pub add32 : ℤ → ℤ → ℤ
add32 a b = of_word ((to_word a + to_word b) % 4294967296)

abbrev is_nonneg : ℤ → Bool
is_nonneg (pos n) = true
is_nonneg (negsuc n) = false

-- `x as usize`
abbrev as_usize : ℤ → ℕ
as_usize (pos n) = n
as_usize (negsuc n) = 2 ^ 64 - 1 - n

-- `x.max(0) as usize`
abbrev pub max_zero : ℤ → ℕ
max_zero (pos n) = n
max_zero (negsuc n) = 0

pub data PixelLayout : Type 0 where
  bgrx rgbx : PixelLayout

pub record Surface : Type 0 where
  pub width : ℕ
  pub height : ℕ
  pub buf : List ℕ

abbrev pub new : ℕ → ℕ → Surface
new width height = record { width = width; height = height; buf = replicate (width * height) 0 }

pub clear : ℕ → Surface → Surface
clear color s = record s { buf = replicate (length s.buf) color }

pub inside : Surface → ℤ → ℤ → Bool
inside s x y = is_nonneg x && is_nonneg y && ltb (as_usize x) s.width && ltb (as_usize y) s.height

abbrev pub index : Surface → ℤ → ℤ → ℕ
index s x y = as_usize y * s.width + as_usize x

-- `buf[i] = v`
abbrev store : ℕ → ℕ → Surface → Option Surface
store i v s = if ltb i (length s.buf) then some (record s { buf = set s.buf i v }) else none

pub put : ℤ → ℤ → ℕ → Surface → Option Surface
put x y color s = if inside s x y then store (index s x y) color s else some s

pub get : ℤ → ℤ → Surface → Option ℕ
get x y s = if inside s x y then get_elem? s.buf (index s x y) else some 0

-- The channels of a colour, from the bit `shift` on.
abbrev channel : ℕ → ℕ → ℕ
channel shift color = bit_and (color / 2 ^ shift) 0xff

blend_ch : ℕ → ℕ → ℕ → ℕ
blend_ch a s d = (s * a + d * (255 - a)) / 255

mixed : ℕ → ℕ → ℕ → ℕ
mixed a color dst =
    bit_or
      (bit_or (blend_ch a (channel 16 color) (channel 16 dst) * 2 ^ 16)
        (blend_ch a (channel 8 color) (channel 8 dst) * 2 ^ 8))
      (blend_ch a (channel 0 color) (channel 0 dst))

blend_at : ℕ → ℕ → ℕ → Option ℕ → Surface → Option Surface
blend_at i color alpha none s = none
blend_at i color alpha (some dst) s = store i (mixed (min alpha 255) color dst) s

pub blend : ℤ → ℤ → ℕ → ℕ → Surface → Option Surface
blend x y color alpha s =
    if inside s x y
    then blend_at (index s x y) color alpha (get_elem? s.buf (index s x y)) s
    else some s

-- `buf[a..b].fill(color)`
pub fill_range : ℕ → ℕ → ℕ → List ℕ → Option (List ℕ)
fill_range a b color buf =
    if leb a b && leb b (length buf)
    then some (overwritten buf a (replicate (b - a) color))
    else none

-- `for row in y0..y1`, with the number of rows.
pub fill_rows : ℕ → ℕ → ℕ → ℕ → ℕ → ℕ → List ℕ → Option (List ℕ)
fill_rows zero row width x0 x1 color buf = some buf
fill_rows (suc n) row width x0 x1 color buf =
    elim (fill_range (row * width + x0) (row * width + x1) color buf) [
      | some buf' ↦ fill_rows n (row + 1) width x0 x1 color buf'
      | none ↦ none
    ]

with_buf : Surface → Option (List ℕ) → Option Surface
with_buf s none = none
with_buf s (some buf) = some (record s { buf = buf })

unfoldable pub fill_rect : ℤ → ℤ → ℤ → ℤ → ℕ → Surface → Option Surface
unfolding fill_rows fill_range with_buf
fill_rect x y w h color s =
    let x0 = max_zero x in
    let y0 = max_zero y in
    let x1 = min (max_zero (add32 x w)) s.width in
    let y1 = min (max_zero (add32 y h)) s.height in
    with_buf s (fill_rows (y1 - y0) y0 s.width x0 x1 color s.buf)

successor : ℤ → ℤ
successor (pos n) = pos (suc n)
successor (negsuc zero) = pos 0
successor (negsuc (suc n)) = negsuc n

-- The number of integers in `a..b`, for `i32`.
range_len : ℤ → ℤ → ℕ
range_len a b = (to_word b + 2147483648) % 4294967296 - (to_word a + 2147483648) % 4294967296

blend_row : ℕ → ℤ → ℤ → ℕ → ℕ → Surface → Option Surface
blend_row zero xx yy color alpha s = some s
blend_row (suc n) xx yy color alpha s = elim (blend xx yy color alpha s) [
  | some s' ↦ blend_row n (successor xx) yy color alpha s'
  | none ↦ none
]

blend_rows : ℕ → ℕ → ℤ → ℤ → ℕ → ℕ → Surface → Option Surface
blend_rows zero n x yy color alpha s = some s
blend_rows (suc m) n x yy color alpha s = elim (blend_row n x yy color alpha s) [
  | some s' ↦ blend_rows m n x (successor yy) color alpha s'
  | none ↦ none
]

pub blend_rect : ℤ → ℤ → ℤ → ℤ → ℕ → ℕ → Surface → Option Surface
blend_rect x y w h color alpha s =
    blend_rows (range_len y (add32 y h)) (range_len x (add32 x w)) x y color alpha s

swapped : ℕ → ℕ
swapped px =
    bit_or (bit_or (bit_and px 0x0000ff00) (bit_and px 0x00ff0000 / 2 ^ 16))
      (bit_and px 0x000000ff * 2 ^ 16)

laid_out : PixelLayout → List ℕ → List ℕ
laid_out bgrx src = src
laid_out rgbx src = map swapped src

-- `for y in 0..self.height`, with the number of rows left; the framebuffer is what `fb` points to.
present_rows : ℕ → ℕ → Surface → ℕ → PixelLayout → List ℕ → Option (List ℕ)
present_rows zero y s stride layout fb = some fb
present_rows (suc n) y s stride layout fb =
    elim (overwrite? fb (y * stride) (laid_out layout (take s.width (drop (y * s.width) s.buf)))) [
      | some fb' ↦ present_rows n (y + 1) s stride layout fb'
      | none ↦ none
    ]

pub present : List ℕ → ℕ → PixelLayout → Surface → Option (List ℕ)
present fb stride layout s = present_rows s.height 0 s stride layout fb
