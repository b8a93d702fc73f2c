-- ===== src/Gfx/Surface/Rows.antt =====
-- crates/nr-gfx/src/surface.rs: what filling parts of rows does to a pixel.
use nightrun.Prelude.{
  ℕ, zero, suc, ◌+◌, ◌-◌, ◌*◌, ◌≤◌, ◌<◌, ◌≡◌, refl, sym, subst, ap, ◌∙◌, inl, inr, Bool, true,
  false, ◌&&◌, ◌||◌, List, length, length-replicate, replicate, get_elem?, some, ltb, leb,
  Bool-cases, le→leb, ltb→lt, leb→le, not_ltb→le, not_leb→lt, lt→ne, gt_of_tests, ◌==◌, ==_iff,
  if◌then◌else◌, arith,
}
use nightrun.Prelude.Bytes.{overwritten, length-overwritten}
use nightrun.Prelude.Index.{
  get_elem?-overwritten_before, get_elem?-overwritten_inside, get_elem?-overwritten_after,
}
use nightrun.Gfx.Surface.{fill_range, fill_rows}

get_elem?-replicate : {A : Type 0} (n i : ℕ) (a : A) → i < n → get_elem? (replicate n a) i ≡ some a
get_elem?-replicate zero i a h = absurd (omega arith)
get_elem?-replicate (suc n) zero a h = refl
get_elem?-replicate (suc n) (suc i) a h = get_elem?-replicate n i a (omega arith)

-- A row's pixels stand behind those of the rows before it.
row_before : (j row width i : ℕ) → j < row → i < width → j * width + i < row * width
row_before j row width i h k = grind arith

row_behind : (j row width x : ℕ) → row < j → x ≤ width → row * width + x ≤ j * width
row_behind j row width x h k = grind arith

no_rows : (row j : ℕ) → leb row j && ltb j (row + 0) ≡ false
no_rows row j = ground arith

more_rows :
    (n row j : ℕ)
    → (leb (row + 1) j && ltb j (row + 1 + n)) || j == row ≡ leb row j && ltb j (row + suc n)
more_rows n row j = ground arith

if_either {ℓ} :
    {A : Type ℓ} (a b c : Bool) (x y : A)
    → (if a && c then x else (if b && c then x else y)) ≡ (if (a || b) && c then x else y)
if_either true true true x y = refl
if_either true true false x y = refl
if_either true false true x y = refl
if_either true false false x y = refl
if_either false b c x y = refl

module _ (width x0 x1 color : ℕ) (ordered : x0 ≤ x1) (narrow : x1 ≤ width) where
  run : List ℕ
  run = replicate (x1 - x0) color

  run_sized : length run ≡ x1 - x0
  unfolding run
  run_sized = length-replicate {A = ℕ} (x1 - x0) color

  -- The pixels of one row from `x0` up to `x1`.
  pub filled : ℕ → List ℕ → List ℕ
  filled row buf = overwritten buf (row * width + x0) run

  abbrev pub in_columns : ℕ → Bool
  in_columns i = leb x0 i && ltb i x1

  filled_here :
      (row i : ℕ) (buf : List ℕ)
      → row * width + x1 ≤ length buf
      → get_elem? (filled row buf) (row * width + i)
        ≡ (if in_columns i then some color else get_elem? buf (row * width + i))
  unfolding filled run
  filled_here row i buf fits =
      let room : row * width + x0 + length run ≤ length buf = omega (arith, run_sized) in
      elim (Bool-cases (leb x0 i)) [
        | inr e ↦ rw e (
            get_elem?-overwritten_before buf run (row * width + x0) room (row * width + i)
              (omega (arith, not_leb→lt x0 i e)))
        | inl e ↦ rw e (elim (Bool-cases (ltb i x1)) [
          | inl f ↦ rw f (
              get_elem?-overwritten_inside buf run (row * width + x0) room (row * width + i)
                (i - x0) (omega (arith, leb→le x0 i e))
                (omega (arith, run_sized, leb→le x0 i e, ltb→lt i x1 f))
              ∙ get_elem?-replicate (x1 - x0) (i - x0) color
                  (omega (arith, leb→le x0 i e, ltb→lt i x1 f)))
          | inr f ↦ rw f (
              get_elem?-overwritten_after buf run (row * width + x0) room (row * width + i)
                (omega (arith, run_sized, not_ltb→le i x1 f)))
        ])
      ]

  pub filled_pixel :
      (row j i : ℕ) (buf : List ℕ)
      → row * width + x1 ≤ length buf
      → i < width
      → get_elem? (filled row buf) (j * width + i)
        ≡ (if (j == row) && in_columns i then some color else get_elem? buf (j * width + i))
  unfolding filled
  filled_pixel row j i buf fits k =
      let room : row * width + x0 + length run ≤ length buf = omega (arith, run_sized) in
      elim (Bool-cases (ltb j row)) [
        | inl e ↦ rw (lt→ne j row (ltb→lt j row e)) (
            get_elem?-overwritten_before buf run (row * width + x0) room (j * width + i)
              (omega (arith, row_before j row width i (ltb→lt j row e) k)))
        | inr e ↦ elim (Bool-cases (j == row)) [
          | inl f ↦ rw (f, (==_iff j row).0 f) (filled_here row i buf fits)
          | inr f ↦ rw f (
              get_elem?-overwritten_after buf run (row * width + x0) room (j * width + i) (
                omega (arith, run_sized, row_behind j row width x1 (gt_of_tests j row e f) narrow)))
        ]
      ]

  pub length-filled :
      (row : ℕ) (buf : List ℕ)
      → row * width + x1 ≤ length buf
      → length (filled row buf) ≡ length buf
  unfolding filled
  length-filled row buf fits =
      length-overwritten buf (row * width + x0) run (omega (arith, run_sized))

  fill_range_lem :
      (row : ℕ) (buf : List ℕ)
      → row * width + x1 ≤ length buf
      → fill_range (row * width + x0) (row * width + x1) color buf ≡ some (filled row buf)
  unfolding fill_range filled run
  fill_range_lem row buf fits =
      rw
        (
          le→leb (row * width + x0) (row * width + x1) (omega arith),
          le→leb (row * width + x1) (length buf) fits,
        )
        (ap (λ (k : ℕ). some (overwritten buf (row * width + x0) (replicate k color)))
          {x = row * width + x1 - (row * width + x0)} {y = x1 - x0} (omega arith))

  pub painted : ℕ → ℕ → List ℕ → List ℕ
  painted zero row buf = buf
  painted (suc n) row buf = painted n (row + 1) (filled row buf)

  row_fits : (n row len : ℕ) → (row + suc n) * width ≤ len → row * width + x1 ≤ len
  row_fits n row len h = grind arith

  rest_fits :
      (n row : ℕ) (buf : List ℕ)
      → (row + suc n) * width ≤ length buf
      → (row + 1 + n) * width ≤ length (filled row buf)
  rest_fits n row buf h =
      subst (λ (k : ℕ). (row + 1 + n) * width ≤ k)
        (sym (length-filled row buf (row_fits n row (length buf) h)))
        (subst (λ (m : ℕ). m * width ≤ length buf) {x = row + suc n} {y = row + 1 + n} (omega arith)
          h)

  pub length-painted :
      (n row : ℕ) (buf : List ℕ)
      → (0 < n → (row + n) * width ≤ length buf)
      → length (painted n row buf) ≡ length buf
  unfolding painted
  length-painted zero row buf h = refl
  length-painted (suc n) row buf h =
      let fits : row * width + x1 ≤ length buf = row_fits n row (length buf) (h (omega arith)) in
      length-painted n (row + 1) (filled row buf) (λ _. rest_fits n row buf (h (omega arith)))
      ∙ length-filled row buf fits

  pub fill_rows_lem :
      (n row : ℕ) (buf : List ℕ)
      → (0 < n → (row + n) * width ≤ length buf)
      → fill_rows n row width x0 x1 color buf ≡ some (painted n row buf)
  unfolding fill_rows painted
  fill_rows_lem zero row buf h = refl
  fill_rows_lem (suc n) row buf h =
      let fits : row * width + x1 ≤ length buf = row_fits n row (length buf) (h (omega arith)) in
      rw (fill_range_lem row buf fits, fill_rows)
        (fill_rows_lem n (row + 1) (filled row buf) (λ _. rest_fits n row buf (h (omega arith))))

  pub painted_pixel :
      (n row j i : ℕ) (buf : List ℕ)
      → (0 < n → (row + n) * width ≤ length buf)
      → i < width
      → get_elem? (painted n row buf) (j * width + i) ≡ (
          if leb row j && ltb j (row + n) && in_columns i
          then some color
          else get_elem? buf (j * width + i))
  unfolding painted
  painted_pixel zero row j i buf h k = rw (no_rows row j) refl
  painted_pixel (suc n) row j i buf h k =
      painted_pixel n (row + 1) j i (filled row buf) (λ _. rest_fits n row buf (h (omega arith))) k
      ∙ ap (λ t. if (leb (row + 1) j && ltb j (row + 1 + n)) && in_columns i then some color else t)
          (filled_pixel row j i buf (row_fits n row (length buf) (h (omega arith))) k)
      ∙ if_either (leb (row + 1) j && ltb j (row + 1 + n)) (j == row) (in_columns i) (some color)
          (get_elem? buf (j * width + i))
      ∙ ap (λ b. if b && in_columns i then some color else get_elem? buf (j * width + i))
          (more_rows n row j)
