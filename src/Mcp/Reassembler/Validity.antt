-- ===== src/Mcp/Reassembler/Validity.antt =====
-- The invariant of `Reassembler`, kept by `push` on every datagram.
use nightrun.Prelude.{
  ℕ, suc, ◌+◌, ◌-◌, ◌*◌, ◌%◌, ◌^◌, ◌≤◌, ◌<◌, ◌≡◌, refl, Bool-cases, inl, inr, true, false, List,
  length, take, Option, none, some, Result, ok, err, panic, ltb, ◌!=◌, ◌∙◌, length-replicate,
  length-take, Safe, arith,
}
use nightrun.Prelude.Bytes.{sub-fits, overwrite?-fits, length-overwritten}
use nightrun.Prelude.Masks.{bit_or-lt}
use native.Mathlib.Nat.{one-le-pow, pow-le-pow_right, pow-suc, mod-eq_of_lt}
use nightrun.Mcp.{
  Error, Fragment, CompleteMessage, max_fragment_payload, div_ceil, parse_fragment, crc32,
}
use nightrun.Mcp.Parse.{IsWellFormed, parse_fragment-Safe}
use nightrun.Mcp.Reassembler.{
  Reassembler, Reply, same_message, restart, deliver, complete_mask, default, check_complete, store,
  accept, push,
}

-- What is recorded of the message in flight.
pub record InFlight (max : ℕ) (r : Reassembler) : Type 0 where
  pub some_bytes : 0 < r.total_len
  pub fits : r.total_len ≤ max
  pub few : r.count ≤ 64
  pub counted : r.count ≡ div_ceil r.total_len max_fragment_payload
  pub marked : r.received < 2 ^ r.count

pub record IsValid (max : ℕ) (r : Reassembler) : Type 0 where
  pub sized : length r.buffer ≡ max
  pub in_flight : r.active ≡ true → InFlight max r

-- A message that is handed out is not empty and at most as long as the buffer.
abbrev pub IsBounded : ℕ → Option CompleteMessage → Type 0
IsBounded max none = Unit
IsBounded max (some m) = (0 < length m.payload) × (length m.payload ≤ max)

pub same_message_fields :
    (r : Reassembler) (f : Fragment)
    → same_message r f ≡ true
    → (r.active ≡ true) × (r.count ≡ f.count) × (r.total_len ≡ f.total_len)
unfolding same_message
same_message_fields r f h = ground arith

pow_pos : (n : ℕ) → 0 < 2 ^ n
pow_pos n = one-le-pow n 2 (omega arith)

module _ (max : ℕ) (r : Reassembler) (f : Fragment) (v : IsValid max r) (w : IsWellFormed f)
    (fits : f.total_len ≤ max) where
  restart-InFlight :
      (length (restart r f).buffer ≡ max)
      × InFlight max (restart r f)
      × ((restart r f).active ≡ true)
      × ((restart r f).total_len ≡ f.total_len)
      × ((restart r f).count ≡ f.count)
  unfolding restart
  restart-InFlight = elim (Bool-cases (same_message r f)) [
    | inl same ↦
        let (on, counts, totals) = same_message_fields r f same in
        rw same (v.sized, v.in_flight on, on, totals, counts)
    | inr other ↦ rw other (
      v.sized,
      record {
        some_bytes = w.some_bytes;
        fits = fits;
        few = w.few;
        counted = w.counted;
        marked = pow_pos f.count;
      },
      refl,
      refl,
      refl,
    )
  ]

pub shift-lt : (i k : ℕ) → i < k → k ≤ 64 → (2 ^ i % 2 ^ 64 ≡ 2 ^ i) × (2 ^ i < 2 ^ k)
shift-lt i k h small =
    let below : 2 ^ suc i ≤ 2 ^ k = pow-le-pow_right {n = 2} (omega arith) h in
    let top : 2 ^ k ≤ 2 ^ 64 = pow-le-pow_right {n = 2} (omega arith) small in
    let strict : 2 ^ i < 2 ^ k = omega (arith, pow-suc 2 i, pow_pos i) in
    (mod-eq_of_lt (omega arith), strict)

module _ (max : ℕ) where
  abbrev Fine : Reassembler × Reply → Type 0
  Fine p = IsValid max p.0 × Safe (IsBounded max) p.1

  deliver-Safe :
      (r : Reassembler) (bytes : List ℕ)
      → (0 < length bytes) × (length bytes ≤ max)
      → Safe (IsBounded max) (deliver r (ok bytes))
  unfolding deliver
  deliver-Safe r bytes h = elim (Bool-cases (crc32 bytes != r.checksum)) [
    | inl bad ↦ rw bad tt
    | inr good ↦ rw good h
  ]

  check_complete-Fine :
      (r : Reassembler) → length r.buffer ≡ max → InFlight max r → Fine (check_complete r)
  unfolding check_complete
  check_complete-Fine r sized i = elim (Bool-cases (r.received != complete_mask r.count)) [
    | inl more ↦ rw more (record { sized = sized; in_flight = λ _. i }, tt)
    | inr done ↦
        rw (done, sub-fits r.buffer 0 r.total_len (omega arith) (omega (arith, i.fits)))
          (
            record { sized = sized; in_flight = λ (h : false ≡ true). cc },
            deliver-Safe r (take (r.total_len - 0) r.buffer)
                (rw length-take (omega (arith, i.fits, i.some_bytes))),
          )
  ]

  store-Fine :
      (r : Reassembler) (f : Fragment)
      → length r.buffer ≡ max
      → InFlight max r
      → IsWellFormed f
      → r.total_len ≡ f.total_len
      → r.count ≡ f.count
      → Fine (store r f)
  unfolding store
  store-Fine r f sized i w totals counts =
      let fits : f.index * max_fragment_payload + length f.payload ≤ length r.buffer =
        omega (arith, w.filled, w.counted, w.in_range, i.fits) in
      let (same, strict) = shift-lt f.index f.count w.in_range w.few in
      rw (overwrite?-fits r.buffer (f.index * max_fragment_payload) f.payload fits, store, same)
        (check_complete-Fine _
          (length-overwritten r.buffer (f.index * max_fragment_payload) f.payload fits ∙ sized)
          (record {
            some_bytes = i.some_bytes;
            fits = i.fits;
            few = i.few;
            counted = i.counted;
            marked = bit_or-lt r.count r.received (2 ^ f.index) i.marked (rw counts strict);
          }))

  accept-Fine :
      (r : Reassembler) (f : Fragment) → IsValid max r → IsWellFormed f → Fine (accept max r f)
  unfolding accept
  accept-Fine r f v w = elim (Bool-cases (ltb max f.total_len)) [
    | inl large ↦ rw large (v, tt)
    | inr fits ↦
        let (sized, flight, on, totals, counts) = restart-InFlight max r f v w (ground arith) in
        rw fits (store-Fine (restart r f) f sized flight w totals counts)
  ]

  -- From a state with the invariant and whatever the datagram, `push` keeps the invariant and does
  -- not panic, and a message that it hands out is not empty and fits the buffer.
  pub push-IsValid :
      (r : Reassembler) (datagram : List ℕ)
      → IsValid max r
      → IsValid max (push max r datagram).0 × Safe (IsBounded max) (push max r datagram).1
  unfolding push
  push-IsValid r datagram v = by_result (parse_fragment datagram) (parse_fragment-Safe datagram)
    where
      by_result :
          (p : Result Error Fragment)
          → Safe IsWellFormed p
          → Fine (elim p [ ok f ↦ accept max r f | err e ↦ (r, err e) | panic ↦ (r, panic) ])
      by_result (ok f) w = accept-Fine r f v w
      by_result (err e) w = (v, tt)
      by_result panic w = absurd w

pub default-IsValid : (max : ℕ) → IsValid max (default max)
default-IsValid max = record {
  sized = length-replicate {A = ℕ} max 0;
  in_flight = λ (h : false ≡ true). cc;
}
