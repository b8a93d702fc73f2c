-- ===== src/Crc32/Classic.antt =====
-- The sliced loop against the classic one, which takes a byte at a time and uses no table.
use nightrun.Prelude.{
  ℕ, zero, suc, ◌+◌, ◌*◌, ◌/◌, ◌%◌, ◌<◌, ◌^◌, bit_and, bit_xor, ◌≡◌, refl, sym, ap, ap₂, ◌∙◌, List,
  [], ◌∷◌, ◌++◌, get_or, All, All-append, arith,
}
use nightrun.Prelude.Bytes.{IsByte}
use nightrun.Prelude.Bits.{bit_and_mask, xor_comm, xor_assoc, xor-zero, xor_byte, xor-lt}
use nightrun.Crc32.{
  bit_steps, fill, first_row, next_row, next_rows, make_tables, table, le32, lookups, update_bytes,
  update, finish, checksum,
}
use nightrun.Crc32.Linear.{byte_step, byte_step-xor, byte_step_split, bit_steps-lt}

unfoldable pub classic : ℕ → List ℕ → ℕ
classic c [] = c
classic c (b ∷ rest) = classic (byte_step (bit_xor c b)) rest

get_or-fill : (n i j : ℕ) (f : ℕ → ℕ) → j < n → get_or (fill n i f) j 0 ≡ f (i + j)
unfolding fill
get_or-fill zero i j f h = absurd (omega arith)
get_or-fill (suc n) i zero f h = ap f (omega arith)
get_or-fill (suc n) i (suc j) f h = get_or-fill n (i + 1) j f (omega arith) ∙ ap f (omega arith)

-- `rounds s c` is `s` times the eight steps.
abbrev pub rounds : ℕ → ℕ → ℕ
rounds zero c = c
rounds (suc s) c = byte_step (rounds s c)

IsRow : ℕ → List ℕ → Type 0
IsRow s row = (i : ℕ) → i < 256 → get_or row i 0 ≡ rounds (suc s) i

first_row-IsRow : IsRow 0 first_row
unfolding IsRow first_row
first_row-IsRow i h = get_or-fill 256 0 i (bit_steps 8) h ∙ ap (bit_steps 8) (omega arith)

next_row-IsRow : (s : ℕ) (prev : List ℕ) → IsRow s prev → IsRow (suc s) (next_row first_row prev)
unfolding IsRow next_row
next_row-IsRow s prev row i h =
    get_or-fill 256 0 i _ h
    ∙ ap
        (λ (j : ℕ).
          bit_xor (get_or first_row (bit_and (get_or prev j 0) 0xff) 0) (get_or prev j 0 / 256))
        (omega arith)
    ∙ ap (λ (e : ℕ). bit_xor (get_or first_row (bit_and e 0xff) 0) (e / 256)) (row i h)
    ∙ ap (λ (e : ℕ). bit_xor (get_or first_row e 0) (rounds (suc s) i / 256))
        (bit_and_mask 8 (rounds (suc s) i))
    ∙ ap (λ (e : ℕ). bit_xor e (rounds (suc s) i / 256))
        (first_row-IsRow (rounds (suc s) i % 256) (omega arith))
    ∙ sym (byte_step_split (rounds (suc s) i))

next_rows-IsRow :
    (n k s : ℕ) (prev : List ℕ)
    → k < n
    → IsRow s prev
    → IsRow (suc s + k) (get_or (next_rows n first_row prev) k [])
unfolding next_rows
next_rows-IsRow zero k s prev h row = absurd (omega arith)
next_rows-IsRow (suc n) zero s prev h row =
    let e : suc s + 0 ≡ suc s = omega arith in rw e (next_row-IsRow s prev row)
next_rows-IsRow (suc n) (suc k) s prev h row =
    let e : suc s + suc k ≡ suc (suc s) + k = omega arith in
    rw e (
      next_rows-IsRow n k (suc s) (next_row first_row prev) (omega arith)
        (next_row-IsRow s prev row))

-- What each table holds.
table-rounds : (s i : ℕ) → s < 8 → i < 256 → table s i ≡ rounds (suc s) i
unfolding table make_tables IsRow
table-rounds zero i hs hi = first_row-IsRow i hi
table-rounds (suc s) i hs hi =
    next_rows-IsRow 7 s 0 first_row (omega arith) first_row-IsRow i hi
    ∙ ap (λ (n : ℕ). rounds (suc n) i) one_more
  where
    one_more : 1 + s ≡ suc s
    one_more = omega arith

one_byte :
    (c b : ℕ)
    → b < 256
    → bit_xor (table 0 (bit_and (bit_xor c b) 0xff)) (c / 256) ≡ byte_step (bit_xor c b)
one_byte c b h =
    ap₂ bit_xor
      (ap (table 0) (bit_and_mask 8 (bit_xor c b))
        ∙ table-rounds 0 (bit_xor c b % 256) (omega arith) (omega arith))
      high
    ∙ sym (byte_step_split (bit_xor c b))
  where
    high : c / 256 ≡ bit_xor c b / 256
    high =
        let none_left : b / 256 ≡ 0 = omega arith in
        omega (arith, xor_byte c b, ap (bit_xor (c / 256)) none_left, xor-zero (c / 256))

update_bytes-classic :
    (c : ℕ) (bytes : List ℕ) → All IsByte bytes → update_bytes c bytes ≡ classic c bytes
unfolding update_bytes classic
update_bytes-classic c [] h = refl
update_bytes-classic c (b ∷ rest) h =
    ap (λ (t : ℕ). update_bytes t rest) (one_byte c b h.0)
    ∙ update_bytes-classic (byte_step (bit_xor c b)) rest h.1

-- A byte meets the low byte of `y`, and the rest of `y` moves down.
absorb_first :
    (y w : ℕ)
    → w < 256
    → byte_step (bit_xor y w) ≡ bit_xor (byte_step (bit_xor (y % 256) w)) (y / 256)
absorb_first y w h = byte_step_split (bit_xor y w) ∙ ap₂ bit_xor (ap byte_step low) high
  where
    low : bit_xor y w % 256 ≡ bit_xor (y % 256) w
    low =
        let same : w % 256 ≡ w = omega arith in
        omega (arith, xor_byte y w, ap (bit_xor (y % 256)) same)

    high : bit_xor y w / 256 ≡ y / 256
    high =
        let none_left : w / 256 ≡ 0 = omega arith in
        omega (arith, xor_byte y w, ap (bit_xor (y / 256)) none_left, xor-zero (y / 256))

-- The part `x` of the register is carried along.
absorb :
    (x y w : ℕ)
    → w < 256
    → byte_step (bit_xor (bit_xor x y) w)
      ≡ bit_xor (bit_xor (byte_step x) (byte_step (bit_xor (y % 256) w))) (y / 256)
absorb x y w h =
    ap byte_step (xor_assoc x y w)
    ∙ byte_step-xor x (bit_xor y w)
    ∙ ap (bit_xor (byte_step x)) (absorb_first y w h)
    ∙ sym (xor_assoc (byte_step x) (byte_step (bit_xor (y % 256) w)) (y / 256))

abbrev sliced : ℕ → ℕ → ℕ → ℕ → ℕ
sliced b0 b1 b2 b3 =
    bit_xor (bit_xor (bit_xor (rounds 4 b0) (rounds 3 b1)) (rounds 2 b2)) (rounds 1 b3)

four_bytes :
    (c w0 w1 w2 w3 : ℕ)
    → c < 2 ^ 32
    → All IsByte (w0 ∷ w1 ∷ w2 ∷ w3 ∷ [])
    → classic c (w0 ∷ w1 ∷ w2 ∷ w3 ∷ [])
      ≡ sliced
          (bit_xor (c % 256) w0)
          (bit_xor (c / 256 % 256) w1)
          (bit_xor (c / 256 / 256 % 256) w2)
          (bit_xor (c / 256 / 256 / 256 % 256) w3)
unfolding classic
four_bytes c w0 w1 w2 w3 hc h =
    let used_up : c / 256 / 256 / 256 / 256 ≡ 0 = omega arith in
    rw
      (
        absorb_first c w0 h.0,
        absorb (byte_step (bit_xor (c % 256) w0)) (c / 256) w1 h.1.0,
        absorb _ (c / 256 / 256) w2 h.1.1.0,
        absorb _ (c / 256 / 256 / 256) w3 h.1.1.1.0,
        used_up,
        xor-zero,
      )
      (simp byte_step-xor)

four_more :
    (x w4 w5 w6 w7 : ℕ)
    → classic x (w4 ∷ w5 ∷ w6 ∷ w7 ∷ [])
      ≡ bit_xor
          (bit_xor (bit_xor (bit_xor (rounds 4 x) (rounds 4 w4)) (rounds 3 w5)) (rounds 2 w6))
          (rounds 1 w7)
unfolding classic
four_more x w4 w5 w6 w7 = simp byte_step-xor

-- The low byte of a little-endian number combined with `c`, and the bytes above it.
peel :
    (w r c : ℕ)
    → w < 256
    → (bit_xor (w + 256 * r) c % 256 ≡ bit_xor (c % 256) w)
      × (bit_xor (w + 256 * r) c / 256 ≡ bit_xor r (c / 256))
peel w r c h =
    let low : (w + 256 * r) % 256 ≡ w = omega arith in
    let high : (w + 256 * r) / 256 ≡ r = omega arith in
    omega (
      arith,
      xor_byte (w + 256 * r) c,
      ap (λ (t : ℕ). bit_xor t (c % 256)) low,
      ap (λ (t : ℕ). bit_xor t (c / 256)) high,
      xor_comm w (c % 256),
    )

lo_bytes :
    (c w0 w1 w2 w3 : ℕ)
    → c < 2 ^ 32
    → All IsByte (w0 ∷ w1 ∷ w2 ∷ w3 ∷ [])
    → let lo = bit_xor (le32 w0 w1 w2 w3) c in
      (lo % 256 ≡ bit_xor (c % 256) w0)
      × (lo / 2 ^ 8 % 256 ≡ bit_xor (c / 256 % 256) w1)
      × (lo / 2 ^ 16 % 256 ≡ bit_xor (c / 256 / 256 % 256) w2)
      × (lo / 2 ^ 24 ≡ bit_xor (c / 256 / 256 / 256 % 256) w3)
lo_bytes c w0 w1 w2 w3 hc h =
    let r2 = w2 + 256 * w3 in
    let r1 = w1 + 256 * r2 in
    let p0 = peel w0 r1 c h.0 in
    let p1 = peel w1 r2 (c / 256) h.1.0 in
    let p2 = peel w2 w3 (c / 256 / 256) h.1.1.0 in
    let top : c / 256 / 256 / 256 % 256 ≡ c / 256 / 256 / 256 = omega arith in
    omega (
      arith,
      p0,
      p1,
      p2,
      ap (λ (t : ℕ). t % 256) p0.1,
      ap (λ (t : ℕ). t / 256) p0.1,
      ap (λ (t : ℕ). t / 256) p1.1,
      ap (λ (t : ℕ). bit_xor t w3) top,
      xor_comm w3 (c / 256 / 256 / 256),
    )

table_mask : (s x : ℕ) → s < 8 → table s (bit_and x 0xff) ≡ rounds (suc s) (x % 256)
table_mask s x h = ap (table s) (bit_and_mask 8 x) ∙ table-rounds s (x % 256) h (omega arith)

lookups_lem :
    (lo b0 b1 b2 b3 w4 w5 w6 w7 : ℕ)
    → (lo % 256 ≡ b0) × (lo / 2 ^ 8 % 256 ≡ b1) × (lo / 2 ^ 16 % 256 ≡ b2) × (lo / 2 ^ 24 ≡ b3)
    → All IsByte (b3 ∷ w4 ∷ w5 ∷ w6 ∷ w7 ∷ [])
    → lookups lo w4 w5 w6 w7
      ≡ bit_xor
          (bit_xor
            (bit_xor (bit_xor (rounds 4 (sliced b0 b1 b2 b3)) (rounds 4 w4)) (rounds 3 w5))
            (rounds 2 w6))
          (rounds 1 w7)
unfolding lookups
lookups_lem lo b0 b1 b2 b3 w4 w5 w6 w7 b h =
    rw
      (
        table_mask 7 lo (omega arith),
        table_mask 6 (lo / 2 ^ 8) (omega arith),
        table_mask 5 (lo / 2 ^ 16) (omega arith),
        b.3,
        table-rounds 4 b3 (omega arith) h.0,
        table-rounds 3 w4 (omega arith) h.1.0,
        table-rounds 2 w5 (omega arith) h.1.1.0,
        table-rounds 1 w6 (omega arith) h.1.1.1.0,
        table-rounds 0 w7 (omega arith) h.1.1.1.1.0,
        b.0,
        b.1,
        b.2,
      )
      (simp byte_step-xor)

lookups-classic :
    (c w0 w1 w2 w3 w4 w5 w6 w7 : ℕ)
    → c < 2 ^ 32
    → All IsByte (w0 ∷ w1 ∷ w2 ∷ w3 ∷ w4 ∷ w5 ∷ w6 ∷ w7 ∷ [])
    → lookups (bit_xor (le32 w0 w1 w2 w3) c) w4 w5 w6 w7
      ≡ classic c (w0 ∷ w1 ∷ w2 ∷ w3 ∷ w4 ∷ w5 ∷ w6 ∷ w7 ∷ [])
lookups-classic c w0 w1 w2 w3 w4 w5 w6 w7 hc h =
    let first : All IsByte (w0 ∷ w1 ∷ w2 ∷ w3 ∷ []) = omega arith in
    let top = xor-lt 8 (c / 256 / 256 / 256 % 256) w3 (omega arith) (omega arith) in
    lookups_lem _ _ _ _ _ w4 w5 w6 w7 (lo_bytes c w0 w1 w2 w3 hc first) (top, h.1.1.1.1)
    ∙ sym (
        eight
        ∙ four_more (classic c (w0 ∷ w1 ∷ w2 ∷ w3 ∷ [])) w4 w5 w6 w7
        ∙ rw (four_bytes c w0 w1 w2 w3 hc first))
  where
    eight :
        classic c (w0 ∷ w1 ∷ w2 ∷ w3 ∷ w4 ∷ w5 ∷ w6 ∷ w7 ∷ [])
        ≡ classic (classic c (w0 ∷ w1 ∷ w2 ∷ w3 ∷ [])) (w4 ∷ w5 ∷ w6 ∷ w7 ∷ [])
    eight = unfold classic in refl

pub classic-lt : (c : ℕ) (bytes : List ℕ) → c < 2 ^ 32 → All IsByte bytes → classic c bytes < 2 ^ 32
unfolding classic
classic-lt c [] hc h = hc
classic-lt c (b ∷ rest) hc h =
    classic-lt (byte_step (bit_xor c b)) rest
      (bit_steps-lt 8 (bit_xor c b) (xor-lt 32 c b hc (omega arith))) h.1

pub classic-append : (c : ℕ) (xs ys : List ℕ) → classic c (xs ++ ys) ≡ classic (classic c xs) ys
unfolding classic
classic-append c [] ys = refl
classic-append c (x ∷ xs) ys = classic-append (byte_step (bit_xor c x)) xs ys

classic_eight :
    (c w0 w1 w2 w3 w4 w5 w6 w7 : ℕ) (rest : List ℕ)
    → classic c (w0 ∷ w1 ∷ w2 ∷ w3 ∷ w4 ∷ w5 ∷ w6 ∷ w7 ∷ rest)
      ≡ classic (classic c (w0 ∷ w1 ∷ w2 ∷ w3 ∷ w4 ∷ w5 ∷ w6 ∷ w7 ∷ [])) rest
unfolding classic
classic_eight c w0 w1 w2 w3 w4 w5 w6 w7 rest = refl

-- For every 32-bit register and every slice of bytes, `update` computes what the classic loop over
-- single bits computes.
pub update-classic :
    (c : ℕ) (bytes : List ℕ) → c < 2 ^ 32 → All IsByte bytes → update c bytes ≡ classic c bytes
unfolding update
update-classic c (w0 ∷ w1 ∷ w2 ∷ w3 ∷ w4 ∷ w5 ∷ w6 ∷ w7 ∷ rest) hc h =
    let first : All IsByte (w0 ∷ w1 ∷ w2 ∷ w3 ∷ w4 ∷ w5 ∷ w6 ∷ w7 ∷ []) = omega arith in
    let word = lookups-classic c w0 w1 w2 w3 w4 w5 w6 w7 hc first in
    let fits = classic-lt c (w0 ∷ w1 ∷ w2 ∷ w3 ∷ w4 ∷ w5 ∷ w6 ∷ w7 ∷ []) hc first in
    ap (λ (t : ℕ). update t rest) word
    ∙ update-classic (classic c (w0 ∷ w1 ∷ w2 ∷ w3 ∷ w4 ∷ w5 ∷ w6 ∷ w7 ∷ [])) rest fits
        h.1.1.1.1.1.1.1.1
    ∙ sym (classic_eight c w0 w1 w2 w3 w4 w5 w6 w7 rest)
update-classic c rest hc h = update_bytes-classic c rest h

-- For a 32-bit register and bytes, `update` on one slice and then on another leaves what `update`
-- on the two in a row leaves.
pub update-append :
    (c : ℕ) (xs ys : List ℕ)
    → c < 2 ^ 32
    → All IsByte xs
    → All IsByte ys
    → update (update c xs) ys ≡ update c (xs ++ ys)
update-append c xs ys hc hx hy =
    rw
      (
        update-classic c xs hc hx,
        update-classic (classic c xs) ys (classic-lt c xs hc hx) hy,
        update-classic c (xs ++ ys) hc (All-append IsByte xs ys hx hy),
      )
      (sym (classic-append c xs ys))

pub update-lt : (c : ℕ) (bytes : List ℕ) → c < 2 ^ 32 → All IsByte bytes → update c bytes < 2 ^ 32
update-lt c bytes hc h = rw (update-classic c bytes hc h) (classic-lt c bytes hc h)

pub checksum-classic :
    (bytes : List ℕ)
    → All IsByte bytes
    → checksum bytes ≡ bit_xor (classic 0xffff_ffff bytes) 0xffff_ffff
unfolding checksum finish
checksum-classic bytes h =
    ap (λ (c : ℕ). bit_xor c 0xffff_ffff) (update-classic 0xffff_ffff bytes (omega arith) h)

pub update-nil : (c : ℕ) → update c [] ≡ c
unfolding update update_bytes
update-nil c = refl
