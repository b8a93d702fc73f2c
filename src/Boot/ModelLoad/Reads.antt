-- ===== src/Boot/ModelLoad/Reads.antt =====
-- crates/nr-boot/src/modelload.rs: what one read of the loop leaves in the buffer.
use nightrun.Prelude.{
  ℕ, ◌+◌, ◌-◌, ◌≤◌, ◌<◌, min, ◌≡◌, refl, sym, ap, ap₂, ◌∙◌, ◌⊎◌, List, [], ◌∷◌, ◌++◌, append_assoc,
  append-nil, length, length-append, length-drop, length-take, take, take-append, drop, drop-append,
  drop-append_split, drop_all, ◌==◌, Result, ok, err, panic, ◌>>=◌, ◌>>◌, fail_if, Safe,
  Safe-fail_if, arith,
}
use nightrun.Prelude.Bytes.{IsBytes, sub, sub-fits, write, write-fits}
use nightrun.Boot.ModelLoad.{Status, LoadError, read_failed, chunk_size, map_err, read_bytes}

-- What a read that has `room` answers: an error, or bytes that fit.
abbrev pub IsReading : ℕ → Result Status (List ℕ) → Type 0
IsReading room r = Safe (λ bytes. IsBytes bytes × (length bytes ≤ room)) r

abbrev pub IsAnswer : (ℕ → Result Status (List ℕ)) → Type 0
IsAnswer read = (room : ℕ) → IsReading room (read room)

-- The room of a read behind `done` of `size` bytes.
abbrev pub room_of : ℕ → ℕ → ℕ
room_of size done = min chunk_size (size - done)

-- `out` is what the reads put behind `acc`, one after the other, until there are `size` bytes.
abbrev pub Delivered : List (ℕ → Result Status (List ℕ)) → ℕ → List ℕ → List ℕ → Type 0
Delivered [] size acc out = (length acc ≡ size) × (out ≡ acc)
Delivered (read ∷ reads) size acc out =
    (length acc ≡ size) × (out ≡ acc)
    ⊎ (length acc < size)
      × (bytes : List ℕ) × (read (room_of size (length acc)) ≡ ok bytes)
      × Delivered reads size (acc ++ bytes) out

module _ {E : Type 0} where
  pub sub-front : (xs ys : List ℕ) → sub {E = E} (xs ++ ys) 0 (length xs) ≡ ok xs
  sub-front xs ys =
      sub-fits (xs ++ ys) 0 (length xs) (omega arith) (omega (arith, length-append xs ys))
      ∙ ap ok (take-append (length xs - 0) xs ys (omega arith))

  pub sub-middle :
      (xs ys zs : List ℕ) → sub {E = E} ((xs ++ ys) ++ zs) (length xs) (length (xs ++ ys)) ≡ ok ys
  sub-middle xs ys zs =
      sub-fits ((xs ++ ys) ++ zs) (length xs) (length (xs ++ ys))
        (omega (arith, length-append xs ys)) (omega (arith, length-append (xs ++ ys) zs))
      ∙ ap ok (
          ap (take (length (xs ++ ys) - length xs)) (
            ap (drop (length xs)) (append_assoc xs ys zs)
            ∙ drop-append (length xs) xs (ys ++ zs) refl)
          ∙ take-append (length (xs ++ ys) - length xs) ys zs (omega (arith, length-append xs ys)))

  -- A write behind `xs` leaves what follows it.
  write-behind :
      (xs zs ys : List ℕ)
      → length ys ≤ length zs
      → write {E = E} (xs ++ zs) (length xs) ys ≡ ok ((xs ++ ys) ++ drop (length ys) zs)
  write-behind xs zs ys h =
      write-fits (xs ++ zs) (length xs) ys (omega (arith, length-append xs zs))
      ∙ ap ok (
          ap₂ (λ s t. s ++ (ys ++ t)) (take-append (length xs) xs zs refl) behind
          ∙ sym (append_assoc xs ys (drop (length ys) zs)))
    where
      behind : drop (length xs + length ys) (xs ++ zs) ≡ drop (length ys) zs
      behind =
          drop-append_split (length xs + length ys) (length ys) xs zs (omega arith)
          ∙ ap (λ s. s ++ drop (length ys) zs) (drop_all (length xs + length ys) xs (omega arith))

-- Behind a read: its bytes follow what was there, and `done` counts them.
abbrev pub IsRead : ℕ → List ℕ → (ℕ → Result Status (List ℕ)) → List ℕ × ℕ → Type 0
IsRead size acc read (buf, done) =
    (bytes : List ℕ) × (read (room_of size (length acc)) ≡ ok bytes)
    × IsBytes bytes
    × (rest : List ℕ) × (buf ≡ (acc ++ bytes) ++ rest)
    × (length ((acc ++ bytes) ++ rest) ≡ size)
    × (done ≡ length (acc ++ bytes))

module _ (end_of_file : Status) (size : ℕ) (acc rest : List ℕ) (sized : length (acc ++ rest) ≡ size)
    (read : ℕ → Result Status (List ℕ)) where
  stored :
      (r : Result Status (List ℕ))
      → read (room_of size (length acc)) ≡ r
      → IsReading (room_of size (length acc)) r
      → Safe (IsRead size acc read) (do
        bytes ← map_err read_failed r
        buf' ← write (acc ++ rest) (length acc) bytes
        fail_if (length bytes == 0) (read_failed end_of_file)
        ok (buf', length acc + length bytes))
  stored (ok bytes) e (good, fits) =
      rw
        (write-behind {E = LoadError} acc rest bytes (omega (arith, sized, length-append acc rest)))
        (Safe-fail_if (IsRead size acc read) (length bytes == 0) (read_failed end_of_file) _
          λ some_read. (
            bytes,
            e,
            good,
            drop (length bytes) rest,
            refl,
            omega (
              arith,
              sized,
              fits,
              length-append acc rest,
              length-append (acc ++ bytes) (drop (length bytes) rest),
              length-append acc bytes,
              length-drop (length bytes) rest,
            ),
            sym (length-append acc bytes),
          ))
  stored (err s) e good = tt
  stored panic e good = absurd good

  pub read_bytes-Safe :
      length acc < size
      → IsAnswer read
      → Safe (IsRead size acc read) (read_bytes end_of_file size (length acc) (acc ++ rest) read)
  unfolding read_bytes
  read_bytes-Safe less answers =
      rw
        (
          sub-fits {E = LoadError} (acc ++ rest) (length acc) (min (length acc + chunk_size) size)
              (omega arith) (omega (arith, sized)),
          asked,
        )
        (stored (read (room_of size (length acc))) refl (answers (room_of size (length acc))))
    where
      asked :
          length (
            take
              (min (length acc + chunk_size) size - length acc)
              (drop (length acc) (acc ++ rest)))
          ≡ room_of size (length acc)
      asked = omega (
        arith,
        sized,
        length-take (min (length acc + chunk_size) size - length acc)
            (drop (length acc) (acc ++ rest)),
        length-drop (length acc) (acc ++ rest),
      )

-- Where nothing is left to read, the buffer is what was read.
pub all_read : (acc rest : List ℕ) → length (acc ++ rest) ≤ length acc → acc ++ rest ≡ acc
all_read acc [] h = append-nil acc
all_read acc (x ∷ rest) h = absurd (omega (arith, length-append acc (x ∷ rest)))
