-- ===== src/Boot/ModelLoad.antt =====
-- crates/nr-boot/src/modelload.rs: the model file is read into memory and verified meanwhile. The
-- firmware's answers are arguments, the reports of progress are left out.
pub mod Reads
pub mod Loop
pub mod Verified
use nightrun.Prelude.{
  ℕ, zero, suc, ◌+◌, ◌-◌, ◌*◌, ◌/◌, min, Bool, true, false, List, [], ◌∷◌, ◌++◌, length, take,
  Option, none, some, ltb, leb, ◌==◌, if◌then◌else◌, Result, ok, err, panic, ◌>>=◌, ◌>>◌, fail_if,
}
use nightrun.Prelude.Bytes.{sub, write}
use nightrun.Nrm.Types.{header_size}
use nightrun.Nrm.Verify.{VerifyError, StreamingVerifier, new, feed, finish}

-- `uefi::Status`, by its number.
abbrev pub Status : Type 0
Status = ℕ

pub data LoadError : Type 0 where
  fs : Status → LoadError
  not_found : LoadError
  corrupt : VerifyError → LoadError
  out_of_memory : LoadError
  read_failed : Status → LoadError

abbrev pub chunk_size : ℕ
chunk_size = 16 * 1024 * 1024

-- What the firmware answers to the calls of `load`, one after the other: `pages` to a number of pages,
-- with the memory as it is; a read to the length of its slice, with the bytes that it puts at the
-- start of the slice. Where no answer is left, a read puts none.
pub record Firmware : Type 0 where
  pub file_system : Result Status (Unit {0})
  pub volume : Result Status (Unit {0})
  pub open_file : Result Status (Unit {0})
  pub is_regular : Bool
  pub file_size : Result Status ℕ
  pub pages : ℕ → Result Status (List ℕ)
  pub reads : List (ℕ → Result Status (List ℕ))

-- `r.map_err(f)`
abbrev pub map_err {ℓ κ μ} :
    {E : Type ℓ} {F : Type κ} {A : Type μ} → (E → F) → Result E A → Result F A
map_err f (ok a) = ok a
map_err f (err e) = err (f e)
map_err f panic = panic

module _ (end_of_file : Status) where
  -- `file.read(&mut buf[done..end])` up to `done += n`: the buffer and `done` behind it. A read that
  -- puts more than fits into the buffer counts as a panic.
  pub read_bytes : ℕ → ℕ → List ℕ → (ℕ → Result Status (List ℕ)) → Result LoadError (List ℕ × ℕ)
  read_bytes size done buf read = do
    slice ← sub buf done (min (done + chunk_size) size)
    bytes ← map_err read_failed (read (length slice))
    buf' ← write buf done bytes
    fail_if (length bytes == 0) (read_failed end_of_file)
    ok (buf', done + length bytes)

  -- The verifier, once enough was read, sees what was read.
  pub absorb :
      Option StreamingVerifier → List ℕ → ℕ → ℕ → Result LoadError (Option StreamingVerifier)
  absorb none buf prev done =
      if leb header_size done
      then (do
        front ← sub buf 0 done
        v ← map_err corrupt (new front)
        v' ← map_err corrupt (feed v 0 front)
        ok (some v'))
      else ok none
  absorb (some v) buf prev done = do
    chunk ← sub buf prev done
    v' ← map_err corrupt (feed v prev chunk)
    ok (some v')

  -- `while done < size`
  pub load_loop :
      List (ℕ → Result Status (List ℕ))
      → ℕ
      → ℕ
      → List ℕ
      → Option StreamingVerifier
      → Result LoadError (List ℕ × Option StreamingVerifier)
  load_loop [] size done buf v =
      let round = (do
        slice ← sub buf done (min (done + chunk_size) size)
        err (read_failed end_of_file)) in
      if ltb done size then round else ok (buf, v)
  load_loop (read ∷ reads) size done buf v =
      let round = (do
        (buf', done') ← read_bytes size done buf read
        v' ← absorb v buf' done done'
        load_loop reads size done' buf' v') in
      if ltb done size then round else ok (buf, v)

  pub conclude : Option StreamingVerifier → Result LoadError (Unit {0})
  conclude none = err (read_failed end_of_file)
  conclude (some v) = map_err corrupt (finish v)

  -- `load`, with the flag that `seal_storage` sets.
  unfoldable pub load : Bool → Firmware → Result LoadError (List ℕ)
  unfolding load_loop read_bytes absorb conclude
  load true fw = panic
  load false fw = do
    map_err fs fw.file_system
    map_err fs fw.volume
    map_err (λ _. not_found) fw.open_file
    fail_if (if fw.is_regular then false else true) not_found
    size ← map_err fs fw.file_size
    memory ← map_err (λ _. out_of_memory) (fw.pages ((size + 4095) / 4096))
    buf ← sub memory 0 size
    loaded ← load_loop fw.reads size 0 buf none
    conclude loaded.1
    ok loaded.0
