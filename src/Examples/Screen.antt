-- ===== src/Examples/Screen.antt =====
-- Drawing on a small surface.
use nightrun.Prelude.{ℕ, ◌≡◌, refl, ◌&&◌, [], ◌∷◌, none, some, if◌then◌else◌, arith}
use nightrun.Gfx.Surface.{pos, negsuc, Surface, new, inside, get, fill_rect}
use nightrun.Gfx.Surface.Coordinates.{covers}
use nightrun.Gfx.Surface.Paint.{IsSurface, get-fill_rect}

fill_rect-corner :
    fill_rect (negsuc 0) (pos 1) (pos 3) (pos 9) 7 (new 4 3)
    ≡ some
        (record { width = 4; height = 3; buf = 0 ∷ 0 ∷ 0 ∷ 0 ∷ 7 ∷ 7 ∷ 0 ∷ 0 ∷ 7 ∷ 7 ∷ 0 ∷ 0 ∷ [] })
unfolding fill_rect
fill_rect-corner = refl

-- A rectangle that starts behind the right border is a slice with its ends in the wrong order.
fill_rect-behind : fill_rect (pos 5) (pos 0) (pos 1) (pos 1) 7 (new 4 3) ≡ none
unfolding fill_rect
fill_rect-behind = refl

-- So is one of a negative width.
fill_rect-negative : fill_rect (pos 3) (pos 0) (negsuc 1) (pos 1) 7 (new 4 3) ≡ none
unfolding fill_rect
fill_rect-negative = refl

get-fill_rect_example :
    (s' : Surface) × (fill_rect (negsuc 0) (pos 1) (pos 3) (pos 9) 7 (new 4 3) ≡ some s')
    × IsSurface s'
    × ((i j : ℕ)
        → get (pos i) (pos j) s' ≡ (
            if inside (new 4 3) (pos i) (pos j) && (covers (pos 1) 9 j && covers (negsuc 0) 3 i)
            then some 7
            else get (pos i) (pos j) (new 4 3)))
get-fill_rect_example =
    get-fill_rect (new 4 3) (negsuc 0) (pos 1) 3 9 7 refl (omega arith, omega arith) (omega arith)
      (omega arith)
