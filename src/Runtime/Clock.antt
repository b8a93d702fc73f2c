-- ===== src/Runtime/Clock.antt =====
-- crates/nr-runtime/src/clock.rs: `Clock`. The tick counter is read by the caller.
use native.Mathlib.Nat.{mod-eq_of_lt, div-lt_iff_lt-mul, div-mul-le_self}
use nightrun.Prelude.{
  ℕ, ◌+◌, ◌-◌, ◌*◌, ◌/◌, ◌%◌, ◌^◌, ◌≤◌, ◌<◌, max, ◌≡◌, inl, inr, ltb, ltb→lt, not_ltb→le,
  Bool-cases, arith,
}

pub record Clock : Type 0 where
  pub ticks_per_ms : ℕ

-- From the counter before and after the stall of 20 ms.
pub calibrate : ℕ → ℕ → Clock
calibrate t0 t1 = record { ticks_per_ms = max ((t1 - t0) / 20) 1 }

unfoldable pub ticks_to_ms : Clock → ℕ → ℕ
ticks_to_ms c dt = dt / c.ticks_per_ms

pub rate_milli : Clock → ℕ → ℕ → ℕ
rate_milli c count dt_ticks =
    let ms = max (ticks_to_ms c dt_ticks) 1 in count * 1_000_000 % 2 ^ 64 / ms % 2 ^ 32

-- A stall of `dt` ticks that lasts `ms` whole milliseconds, `ticks_per_ms` ticks each, counts as so
-- many.
elapsed-ticks_to_ms :
    (c : Clock) (dt ms : ℕ)
    → 0 < c.ticks_per_ms
    → ms * c.ticks_per_ms ≤ dt
    → dt < (ms + 1) * c.ticks_per_ms
    → ticks_to_ms c dt ≡ ms
unfolding ticks_to_ms
elapsed-ticks_to_ms c dt ms some_ticks from upto =
    let t = c.ticks_per_ms in
    let below = (div-lt_iff_lt-mul {k = t} {x = dt} {y = ms + 1} some_ticks).1 upto in
    let above : ms ≤ dt / t = elim (Bool-cases (ltb (dt / t) ms)) [
      | inl small ↦ absurd (
          omega (
            arith,
            from,
            (div-lt_iff_lt-mul {k = t} {x = dt} {y = ms} some_ticks).0 (ltb→lt _ _ small),
          ))
      | inr large ↦ not_ltb→le _ _ large
    ] in
    omega arith

-- `ms` are the whole milliseconds in `dt_ticks`, of one tick or more each. Where the count times a million fits 64 bits and the
-- rate 32, the rate is the largest number whose product with these
-- milliseconds, counted as one at least, does not exceed the count times a million.
pub rate_milli-IsQuotient :
    (c : Clock) (count dt_ticks ms : ℕ)
    → 0 < c.ticks_per_ms
    → ms * c.ticks_per_ms ≤ dt_ticks
    → dt_ticks < (ms + 1) * c.ticks_per_ms
    → count * 1_000_000 < 2 ^ 64
    → count * 1_000_000 < 2 ^ 32 * max ms 1
    → (rate_milli c count dt_ticks * max ms 1 ≤ count * 1_000_000)
      × (count * 1_000_000 < (rate_milli c count dt_ticks + 1) * max ms 1)
unfolding rate_milli
rate_milli-IsQuotient c count dt_ticks ms some_ticks from upto fits fits_rate =
    let n = count * 1_000_000 in
    let d = max ms 1 in
    let exact : n % 2 ^ 64 ≡ n = mod-eq_of_lt fits in
    let small = (div-lt_iff_lt-mul {k = d} {x = n} {y = 2 ^ 32} (omega arith)).1 fits_rate in
    let whole : n / d % 2 ^ 32 ≡ n / d = mod-eq_of_lt small in
    let above = (div-lt_iff_lt-mul {k = d} {x = n} {y = n / d + 1} (omega arith)).0 (omega arith) in
    rw (elapsed-ticks_to_ms c dt_ticks ms some_ticks from upto, exact, whole)
      (div-mul-le_self n d, above)
