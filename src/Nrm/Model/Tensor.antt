-- ===== src/Nrm/Model/Tensor.antt =====
-- `Model::tensor`, `has_tensor` and `verify_data` on a model that `parse` accepted.
use nightrun.Prelude.{
  ℕ, zero, suc, ◌+◌, ◌-◌, ◌*◌, ◌%◌, ◌^◌, ◌<◌, min, ◌≡◌, ◌≢◌, refl, sym, ap, ◌∙◌, inl, inr,
  Bool-cases, List, [], ◌∷◌, ◌++◌, length, length-take, length-drop, take, drop, drop-drop,
  take-append-drop, drop_all, All, All-take, All-drop, ltb, ◌==◌, some, ok, panic, Safe, Safe-ok,
  Safe-ok_or, Safe-ne-panic, ltb→lt, arith,
}
use nightrun.Prelude.Bytes.{IsByte, IsBytes, sub-fits}
use nightrun.Crc32
use nightrun.Crc32.Classic.{update-append, update-lt, update-nil}
use nightrun.Nrm.Types.{TensorEntry, TensorView, TensorKind, missing_tensor, kind_code, byte_size}
use nightrun.Nrm.Model.{Model, parse, find_entry, view, tensor, verify_loop, verify_data}
use nightrun.Nrm.Model.Entries.{IsValidEntry}
use nightrun.Nrm.Model.Parse.{IsValid, parse-IsValid}

-- The size that the view's shape asks for is the size it has.
abbrev pub IsSized : TensorView → Type 0
IsSized v = byte_size v.dtype (v.rows * v.cols) ≡ some (length v.bytes)

find_entry-All :
    (P : TensorEntry → Type 0) (kind layer : ℕ) (es : List TensorEntry) (e : TensorEntry)
    → All P es
    → find_entry kind layer es ≡ some e
    → P e
unfolding find_entry
find_entry-All P kind layer [] e h f = absurd (ground arith)
find_entry-All P kind layer (x ∷ xs) e h f = ground (arith, find_entry-All P kind layer xs e h.1)

module _ (m : Model) where
  view-Safe : (e : TensorEntry) → IsValidEntry (length m.tensor_data) e → Safe IsSized (view m e)
  unfolding view
  view-Safe e valid =
      let exact : (e.offset + e.size) % 2 ^ 64 ≡ e.offset + e.size = omega (arith, valid.no_wrap) in
      rw (exact, sub-fits m.tensor_data e.offset (e.offset + e.size) (omega arith) (valid.inside))
        (valid.shaped
          ∙ ap some (
              omega (
                arith,
                valid.inside,
                length-take (e.offset + e.size - e.offset) (drop e.offset m.tensor_data),
                length-drop e.offset m.tensor_data,
              )))

  tensor-Safe : IsValid m → (kind : TensorKind) (layer : ℕ) → Safe IsSized (tensor m kind layer)
  unfolding tensor
  tensor-Safe valid kind layer =
      Safe-ok_or IsSized (find_entry (kind_code kind) layer m.entries) (missing_tensor kind)
        (view m)
        λ e found. view-Safe e (find_entry-All _ (kind_code kind) layer m.entries e valid found)

module _ (blob : List ℕ) (m : Model) (parsed : parse blob ≡ ok m) (kind : TensorKind)
    (layer : ℕ) where
  -- A lookup in a model that `parse` accepted never panics: the slice of the tensor data is in range.
  pub tensor-ne-panic : tensor m kind layer ≢ panic
  tensor-ne-panic = Safe-ne-panic IsSized _ (tensor-Safe m (parse-IsValid blob m parsed) kind layer)

  -- The view that a lookup in a model that `parse` accepted returns has exactly as many bytes as its
  -- type and shape need.
  pub tensor-IsSized : (v : TensorView) → tensor m kind layer ≡ ok v → IsSized v
  tensor-IsSized v e =
      Safe-ok IsSized _ v (tensor-Safe m (parse-IsValid blob m parsed) kind layer) e

verify_loop_lem :
    (fuel : ℕ) (bytes : List ℕ) (done : ℕ) (crc : Crc32.Crc32)
    → crc < 2 ^ 32
    → IsBytes bytes
    → length bytes - done < fuel
    → verify_loop fuel bytes done crc ≡ some (Crc32.update crc (drop done bytes))
unfolding verify_loop
verify_loop_lem zero bytes done crc hc hb h = absurd (omega arith)
verify_loop_lem (suc fuel) bytes done crc hc hb h = elim (Bool-cases (ltb done (length bytes))) [
  | inl more ↦
      let open_end : done < length bytes = ltb→lt _ _ more in
      let end = min (done + 32 * 1024 * 1024) (length bytes) in
      let part = take (end - done) (drop done bytes) in
      let part_bytes =
        All-take IsByte (end - done) (drop done bytes) (All-drop IsByte done bytes hb) in
      rw more (
        verify_loop_lem fuel bytes end (Crc32.update crc part) (update-lt crc part hc part_bytes) hb
          (omega arith)
        ∙ ap some (
            update-append crc part (drop end bytes) hc part_bytes (All-drop IsByte end bytes hb)
            ∙ ap (Crc32.update crc) (
                ap (λ t. part ++ t) (sym (drop-drop (end - done) done end bytes (omega arith)))
                ∙ take-append-drop (end - done) (drop done bytes))))
  | inr over ↦
      rw over (
        ap some (sym (ap (Crc32.update crc) (drop_all done bytes (ground arith)) ∙ update-nil crc)))
]

-- Where the tensor data is of bytes, the loop of `verify_data` comes to its end, and the result
-- says whether the checksum of the whole data is the one that the model holds.
pub verify_data_lem :
    (m : Model)
    → IsBytes m.tensor_data
    → verify_data m ≡ some (Crc32.checksum m.tensor_data == m.data_crc)
unfolding verify_data
verify_data_lem m h =
    unfold Crc32.checksum in
    rw
      (verify_loop_lem (length m.tensor_data + 1) m.tensor_data 0 Crc32.new (omega arith) h
        (omega arith))
      refl
