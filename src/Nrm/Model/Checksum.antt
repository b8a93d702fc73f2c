-- ===== src/Nrm/Model/Checksum.antt =====
-- The metadata checksum of `Model::parse` and that of `StreamingVerifier` are one.
use nightrun.Prelude.{
  ℕ, ◌-◌, ◌^◌, ◌≤◌, ◌<◌, ◌≡◌, refl, sym, ap, ap₂, ◌∙◌, inr, List, ◌++◌, length, length-take, take,
  drop, replicate, take-take, drop-take, drop-drop, take-append-drop, All-take, All-drop, All,
  All-append, ok, arith,
}
use nightrun.Prelude.Bytes.{IsByte, IsBytes, sub-fits}
use nightrun.Crc32
use nightrun.Crc32.Classic.{update-append, update-lt}
use nightrun.Nrm.Types.{header_size}
use nightrun.Nrm.Header.{Layout}
use nightrun.Nrm.Model.{meta_checksum}
use nightrun.Nrm.Verify.Regions.{blank, blank_parts, take-blank}
use nightrun.Nrm.Verify.{StreamingVerifier, new, feed_all}
use nightrun.Nrm.Verify.Verdict.{new-IsFresh, IsFresh-IsWords}
use nightrun.Nrm.Verify.Whole.{flatten, fed, feed_all-fed}
use nightrun.Nrm.Verify.Streaming.{meta_part, update_three, zeros-IsBytes}

module _ (blob : List ℕ) (l : Layout) (tok_end table_end : ℕ) (bytes : IsBytes blob)
    (tok_first : l.tok_off ≡ header_size) (table_next : l.table_off ≡ tok_end)
    (tok_ordered : header_size ≤ tok_end) (table_ordered : tok_end ≤ table_end)
    (inside : table_end ≤ length blob) where
  abbrev head : List ℕ
  head = take (header_size - 8) blob

  abbrev tok : List ℕ
  tok = take (tok_end - header_size) (drop header_size blob)

  abbrev table : List ℕ
  table = take (table_end - tok_end) (drop tok_end blob)

  behind : tok ++ table ≡ drop header_size (take table_end blob)
  behind =
      ap₂ ◌++◌
        (sym (
          take-take (tok_end - header_size) (table_end - header_size) (tok_end - header_size)
            (drop header_size blob) (omega arith)))
        (sym (
          drop-table
          ∙ ap (take (table_end - tok_end))
              (drop-drop (tok_end - header_size) header_size tok_end blob (omega arith))))
      ∙ take-append-drop (tok_end - header_size)
          (take (table_end - header_size) (drop header_size blob))
      ∙ sym (drop-take header_size table_end (table_end - header_size) blob refl)
    where
      drop-table :
          drop (tok_end - header_size) (take (table_end - header_size) (drop header_size blob))
          ≡ take (table_end - tok_end) (drop (tok_end - header_size) (drop header_size blob))
      drop-table =
          drop-take (tok_end - header_size) (table_end - header_size) (table_end - tok_end)
            (drop header_size blob) (omega arith)

  abbrev zeros : List ℕ
  zeros = replicate 8 0

  blanked : head ++ (zeros ++ (tok ++ table)) ≡ meta_part table_end 0 blob
  blanked =
      ap₂ (λ s t. s ++ (zeros ++ t))
        (sym (take-take (header_size - 8) table_end (header_size - 8) blob (omega arith))) behind
      ∙ sym (
          blank_parts 0 (header_size - 8) header_size (take table_end blob) (omega arith)
            (omega (arith, length-take table_end blob)) (omega arith) (inr refl) (omega arith)
            (inr refl))
      ∙ sym (take-blank table_end 0 blob)
      ∙ ap (λ (k : ℕ). take k (blank 0 blob)) {y = table_end - 0} (omega arith)

  hashed :
      Crc32.update (Crc32.update (Crc32.update (Crc32.update Crc32.new head) zeros) tok) table
      ≡ Crc32.update Crc32.new (head ++ (zeros ++ (tok ++ table)))
  hashed =
      let head_bytes = All-take IsByte (header_size - 8) blob bytes in
      let tok_bytes =
        All-take IsByte (tok_end - header_size) _ (All-drop IsByte header_size blob bytes) in
      let table_bytes =
        All-take IsByte (table_end - tok_end) _ (All-drop IsByte tok_end blob bytes) in
      let zero_bytes : IsBytes zeros = zeros-IsBytes 8 in
      let start : Crc32.new < 2 ^ 32 = omega arith in
      let c1 = update-lt Crc32.new head start head_bytes in
      update_three (Crc32.update Crc32.new head) zeros tok table c1 zero_bytes tok_bytes table_bytes
      ∙ update-append Crc32.new head (zeros ++ (tok ++ table)) start head_bytes (
          All-append IsByte zeros (tok ++ table) zero_bytes
            (All-append IsByte tok table tok_bytes table_bytes))

  -- What the parser hashes, as one list of bytes.
  meta_checksum_lem :
      meta_checksum blob l tok_end table_end ≡ ok (Crc32.checksum (meta_part table_end 0 blob))
  unfolding meta_checksum
  meta_checksum_lem =
      rw
        (
          tok_first,
          table_next,
          sub-fits blob 0 (header_size - 8) (omega arith) (omega arith),
          sub-fits blob header_size tok_end tok_ordered (omega arith),
          sub-fits blob tok_end table_end table_ordered inside,
        )
        (unfold Crc32.checksum in
          ap (λ (c : ℕ). ok (Crc32.finish c)) (hashed ∙ ap (Crc32.update Crc32.new) blanked))

  -- The metadata checksum that `Model::parse` computes is the one in the register of
  -- `StreamingVerifier` when it was fed the file: where the file is of bytes, the tokenizer follows
  -- the header, the table follows the tokenizer, the file holds them, and `new` accepted a header
  -- whose metadata ends with the table. The file may come in chunks of any sizes.
  pub meta_checksum-feed_all :
      (header : List ℕ) (v : StreamingVerifier) (chunks : List (List ℕ))
      → new header ≡ ok v
      → v.meta_end ≡ table_end
      → All IsBytes chunks
      → flatten chunks ≡ blob
      → (streamed : StreamingVerifier) × (feed_all v 0 chunks ≡ ok streamed)
        × (meta_checksum blob l tok_end table_end ≡ ok (Crc32.finish streamed.meta))
  unfolding Crc32.checksum
  meta_checksum-feed_all header v chunks accepted ends pieces whole =
      let f = new-IsFresh header v accepted in
      (
        fed v 0 (flatten chunks),
        feed_all-fed chunks v 0 (IsFresh-IsWords v f) pieces,
        meta_checksum_lem ∙ rw (f.meta_fresh, ends, whole) refl,
      )
