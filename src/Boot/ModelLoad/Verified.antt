-- ===== src/Boot/ModelLoad/Verified.antt =====
-- crates/nr-boot/src/modelload.rs: what `load` as a whole returns.
use nightrun.Prelude.{
  ℕ, ◌+◌, ◌-◌, ◌*◌, ◌/◌, ◌≡◌, ◌≢◌, true, false, List, [], length, length-take, take, All, Option,
  none, some, if◌then◌else◌, Result, ok, err, panic, arith, refl, ◌∙◌, ap, subst, Safe, Safe-then,
  Safe-fail_if, Safe-ok, Safe-ne-panic, sym,
}
use nightrun.Prelude.Bytes.{sub-fits}
use nightrun.Nrm.Verify.{VerifyError, StreamingVerifier, new}
use nightrun.Nrm.Verify.Verdict.{verdict, new-IsFresh, finish-fed}
use nightrun.Boot.ModelLoad.{
  Status, LoadError, fs, not_found, corrupt, out_of_memory, Firmware, map_err, load_loop, conclude,
  load,
}
use nightrun.Boot.ModelLoad.Reads.{IsAnswer, Delivered}
use nightrun.Boot.ModelLoad.Loop.{Belongs, Safe-map_err, IsFull, load_loop-Safe}

-- An answer of the firmware is a value or a status.
abbrev IsReply {ℓ} : {A : Type ℓ} → Result Status A → Type 0
IsReply r = Safe (λ _. Unit) r

-- The firmware's side: it answers, gives as much memory as it was asked for, and a read puts no more
-- bytes than its slice holds.
pub record IsFirmware (fw : Firmware) : Type 0 where
  pub file_system_replies : IsReply fw.file_system
  pub volume_replies : IsReply fw.volume
  pub open_replies : IsReply fw.open_file
  pub size_replies : IsReply fw.file_size
  pub pages_replies : (n : ℕ) → Safe (λ memory. length memory ≡ n * 4096) (fw.pages n)
  pub reads_reply : All IsAnswer fw.reads

-- The bytes are as many as the file has and those that the reads delivered one after the other, the
-- verifier accepts their header, and the two checksums of all of them are those that the header names.
abbrev pub IsVerified : Firmware → List ℕ → Type 0
IsVerified fw buf =
    (fw.file_size ≡ ok (length buf))
    × Delivered fw.reads (length buf) [] buf
    × (v : StreamingVerifier) × (new buf ≡ ok v)
    × (verdict v buf ≡ ok tt)

verdict-ne-panic : (v : StreamingVerifier) (buf : List ℕ) → verdict v buf ≢ panic
verdict-ne-panic v buf e = ground arith

concluded :
    (v : StreamingVerifier) (buf : List ℕ)
    → new buf ≡ ok v
    → (r : Result VerifyError (Unit {0})) → verdict v buf ≡ r
    → r ≢ panic
    → Safe
        (λ _. (v₀ : StreamingVerifier) × (new buf ≡ ok v₀) × (verdict v₀ buf ≡ ok tt))
        (map_err corrupt r)
concluded v buf e (ok u) h n = (v, e, h)
concluded v buf e (err x) h n = tt
concluded v buf e panic h n = absurd (n refl)

answered : {A : Type 0} (r : Result Status A) → IsReply r → Safe (λ (a : A). r ≡ ok a) r
answered (ok a) h = refl
answered (err e) h = tt
answered panic h = absurd h

module _ (end_of_file : Status) (fw : Firmware) (f : IsFirmware fw) where
  conclude-Safe :
      (v : Option StreamingVerifier) (buf : List ℕ)
      → Belongs buf v
      → Safe
          (λ _. (v₀ : StreamingVerifier) × (new buf ≡ ok v₀) × (verdict v₀ buf ≡ ok tt))
          (conclude end_of_file v)
  unfolding conclude
  conclude-Safe none buf b = tt
  conclude-Safe (some v) buf b =
      let (enough, v₀, e, now) = b in
      rw (now, finish-fed v₀ buf (new-IsFresh buf v₀ e))
        (concluded v₀ buf e (verdict v₀ buf) refl (verdict-ne-panic v₀ buf))

  load-Safe : Safe (IsVerified fw) (load end_of_file false fw)
  unfolding load
  load-Safe = Safe-then P U _ _ (Safe-map_err U fs fw.file_system f.file_system_replies) λ _ _.
      Safe-then P U _ _ (Safe-map_err U fs fw.volume f.volume_replies) λ _ _.
        Safe-then P U _ _ (Safe-map_err U (λ _. not_found) fw.open_file f.open_replies) λ _ _.
          Safe-fail_if P (if fw.is_regular then false else true) not_found _ λ _.
            Safe-then P (λ size. fw.file_size ≡ ok size) _ _
              (Safe-map_err _ fs fw.file_size (answered fw.file_size f.size_replies))
              λ size sized.
                let n = (size + 4095) / 4096 in
                Safe-then P (λ memory. length memory ≡ n * 4096) _ _
                  (Safe-map_err _ (λ _. out_of_memory) (fw.pages n) (f.pages_replies n))
                  λ memory enough.
                    rw
                      (sub-fits {E = LoadError} memory 0 size (omega arith) (omega (arith, enough)))
                      (Safe-then P (IsFull end_of_file fw.reads size [])
                        (load_loop end_of_file fw.reads size 0 (take (size - 0) memory) none) _
                        (load_loop-Safe end_of_file fw.reads size [] (take (size - 0) memory) none
                          f.reads_reply (omega (arith, enough, length-take (size - 0) memory)) tt
                          (omega arith))
                        λ loaded full.
                          Safe-then P _ (conclude end_of_file loaded.1) _
                            (conclude-Safe loaded.1 loaded.0 full.2)
                            λ _ verified. (
                              sized ∙ ap ok (sym full.0),
                              subst (λ (k : ℕ). Delivered fw.reads k [] loaded.0) (sym full.0)
                                  full.3,
                              verified.0,
                              verified.1,
                              verified.2,
                            ))
    where
      P : List ℕ → Type 0
      P = IsVerified fw

      U : Unit {0} → Type 0
      U _ = Unit

  -- Where the firmware answers with memory of the size asked for and reads of bytes that fit their
  -- slices, and the storage is not sealed, `load` does not panic, whatever the bytes of the file.
  pub load-ne-panic : load end_of_file false fw ≢ panic
  load-ne-panic = Safe-ne-panic (IsVerified fw) (load end_of_file false fw) load-Safe

  -- Where the firmware answers with memory of the size asked for and reads of bytes that fit their
  -- slices, and `load` returns a buffer: it is as long as the file and holds what the reads
  -- delivered, one behind the other, each asked for what was left or for a chunk; the verifier accepts its header, and both checksums of the whole buffer are those that
  -- the header names.
  pub load-IsVerified : (buf : List ℕ) → load end_of_file false fw ≡ ok buf → IsVerified fw buf
  load-IsVerified buf e = Safe-ok (IsVerified fw) (load end_of_file false fw) buf load-Safe e
