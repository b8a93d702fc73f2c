-- ===== src/Net/Checksum/Sums.antt =====
-- The Internet checksum against its description: the words of a packet, summed modulo 0xffff.
use nightrun.Prelude.{
  ℕ, ◌+◌, ◌-◌, ◌*◌, ◌/◌, ◌%◌, ◌^◌, ◌≤◌, ◌<◌, ◌≡◌, ◌↔◌, refl, sym, ap, subst, ◌∙◌, List, [], ◌∷◌,
  ◌++◌, length, length-append, All-append, arith,
}
use nightrun.Prelude.Bytes.{IsByte, IsBytes, be16}
use nightrun.Net.Types.{Ipv4Address, IsIp}
use nightrun.Net.Checksum.{partial_sum, fold_sum, finalize_sum, checksum, transport_checksum}

-- The sum of the 16-bit words, an odd last byte counted as the high half of a word.
pub words : List ℕ → ℕ
words [] = 0
words (last ∷ []) = last * 256
words (a ∷ b ∷ rest) = a * 256 + b + words rest

pub words-le : (xs : List ℕ) → IsBytes xs → words xs ≤ 65535 * ((length xs + 1) / 2)
unfolding words
words-le [] h = omega arith
words-le (a ∷ []) h = omega arith
words-le (a ∷ b ∷ rest) h = omega (arith, words-le rest h.1.1)

-- Below 2 ^ 32 the sum does not wrap.
pub partial_sum_lem :
    (sum : ℕ) (xs : List ℕ) → sum + words xs < 2 ^ 32 → partial_sum sum xs ≡ sum + words xs
unfolding partial_sum words
partial_sum_lem sum [] h = omega arith
partial_sum_lem sum (a ∷ []) h = omega arith
partial_sum_lem sum (a ∷ b ∷ rest) h =
    ap (λ (t : ℕ). partial_sum t rest) {y = sum + (a * 256 + b)} (omega arith)
    ∙ partial_sum_lem (sum + (a * 256 + b)) rest (omega arith)
    ∙ omega arith

-- The loop ends in two rounds, and keeps the sum's remainder and whether it is 0.
pub fold_sum_lem :
    (sum : ℕ)
    → sum < 2 ^ 32
    → (fold_sum 2 sum < 2 ^ 16)
      × (fold_sum 2 sum % 65535 ≡ sum % 65535)
      × ((fold_sum 2 sum ≡ 0) ↔ (sum ≡ 0))
unfolding fold_sum
fold_sum_lem sum h = ground arith

pub finalize_sum_iff :
    (sum : ℕ) → sum < 2 ^ 32 → (finalize_sum sum ≡ 0) ↔ ((0 < sum) × (sum % 65535 ≡ 0))
unfolding finalize_sum
finalize_sum_iff sum h =
    let (small, same, zero_iff) = fold_sum_lem sum h in
    (
      (λ (e : 65535 - fold_sum 2 sum % 2 ^ 16 ≡ 0). (grind (arith, zero_iff.1), omega arith)),
      (λ (pos, div). grind (arith, zero_iff.0)),
    )

-- A sum and its checksum add up to a positive multiple of 0xffff.
pub finalize_sum_add :
    (sum : ℕ)
    → sum < 2 ^ 32
    → (finalize_sum sum < 2 ^ 16)
      × (0 < sum + finalize_sum sum)
      × ((sum + finalize_sum sum) % 65535 ≡ 0)
unfolding finalize_sum
finalize_sum_add sum h =
    let (small, same, zero_iff) = fold_sum_lem sum h in
    (omega arith, grind (arith, zero_iff.0, zero_iff.1), omega arith)

pub words-append : (xs ys : List ℕ) → length xs % 2 ≡ 0 → words (xs ++ ys) ≡ words xs + words ys
unfolding words
words-append [] ys h = omega arith
words-append (a ∷ []) ys h = absurd (omega arith)
words-append (a ∷ b ∷ rest) ys h = omega (arith, words-append rest ys (omega arith))

pub words-be16 : (v : ℕ) → v < 2 ^ 16 → words (be16 v) ≡ v
unfolding words
words-be16 v h = omega arith

-- The checksum of a packet of fewer than 2 ^ 16 bytes is 0 exactly where the sum of its 16-bit words
-- is positive and a multiple of 0xffff.
pub checksum_iff :
    (xs : List ℕ)
    → IsBytes xs
    → length xs < 2 ^ 16
    → (checksum xs ≡ 0) ↔ ((0 < words xs) × (words xs % 65535 ≡ 0))
unfolding checksum
checksum_iff xs bytes short =
    let small : words xs < 2 ^ 32 = omega (arith, words-le xs bytes) in
    subst (λ (k : ℕ). (finalize_sum k ≡ 0) ↔ ((0 < words xs) × (words xs % 65535 ≡ 0)))
      (sym (partial_sum_lem 0 xs (omega arith) ∙ omega arith)) (finalize_sum_iff (words xs) small)

-- A field of two bytes at an even place.
checksum_sum :
    (xs : List ℕ) → IsBytes xs → length xs < 2 ^ 16 → checksum xs ≡ finalize_sum (words xs)
unfolding checksum
checksum_sum xs bytes short =
    ap finalize_sum (partial_sum_lem 0 xs (omega (arith, words-le xs bytes)) ∙ omega arith)

module _ (front back : List ℕ) (even : length front % 2 ≡ 0) where
  pub words_field :
      (v : ℕ) → v < 2 ^ 16 → words (front ++ (be16 v ++ back)) ≡ words front + (v + words back)
  words_field v h =
      words-append front (be16 v ++ back) even
      ∙ ap (λ (k : ℕ). words front + k)
          (words-append (be16 v) back refl ∙ ap (λ (k : ℕ). k + words back) (words-be16 v h))

  -- In a packet of fewer than 2 ^ 16 bytes with a field of two bytes at an even place: where the
  -- checksum is computed with the field as 0 and then written into it, the checksum of the packet
  -- is 0, as a receiver wants it.
  pub checksum-filled :
      IsBytes front
      → IsBytes back
      → length front + 2 + length back < 2 ^ 16
      → checksum (front ++ (be16 (checksum (front ++ (be16 0 ++ back))) ++ back)) ≡ 0
  checksum-filled hf hb short =
      let zeroed = front ++ (be16 0 ++ back) in
      let long : length (be16 0 ++ back) ≡ 2 + length back = omega arith in
      let zero_bytes : IsBytes (be16 0 ++ back) = (omega arith, (omega arith, hb)) in
      let sum_eq : checksum zeroed ≡ finalize_sum (words zeroed) =
        checksum_sum zeroed (All-append IsByte front (be16 0 ++ back) hf zero_bytes)
          (omega (arith, length-append front (be16 0 ++ back))) in
      let bound : words zeroed < 2 ^ 32 = omega (
        arith,
        length-append front (be16 0 ++ back),
        words-le zeroed (All-append IsByte front (be16 0 ++ back) hf zero_bytes),
      ) in
      let (low, pos, div) = finalize_sum_add (words zeroed) bound in
      let c = checksum zeroed in
      let field-IsBytes : IsBytes (be16 c ++ back) = (omega arith, (omega arith, hb)) in
      let total : words (front ++ (be16 c ++ back)) ≡ words zeroed + finalize_sum (words zeroed) =
        omega (arith, words_field c (omega arith), words_field 0 (omega arith), sum_eq) in
      (checksum_iff (front ++ (be16 c ++ back))
          (All-append IsByte front (be16 c ++ back) hf field-IsBytes)
          (omega (arith, length-append front (be16 c ++ back)))).1
        (omega arith, rw total div)

-- The checksum of a datagram with its pseudo header, where nothing wraps.
pub transport_checksum_lem :
    (source destination : Ipv4Address) (protocol : ℕ) (packet : List ℕ)
    → IsIp source
    → IsIp destination
    → protocol < 256
    → IsBytes packet
    → length packet < 2 ^ 16
    → transport_checksum source destination protocol packet
      ≡ finalize_sum (words source + words destination + protocol + length packet + words packet)
unfolding transport_checksum
transport_checksum_lem s d protocol packet (hs, bs) (hd, bd) hp bytes short =
    let ws = words-le s bs in
    let wd = words-le d bd in
    let wp = words-le packet bytes in
    let inner : partial_sum (partial_sum 0 s) d ≡ words s + words d =
      ap (λ (k : ℕ). partial_sum k d) {y = words s}
        (partial_sum_lem 0 s (omega arith) ∙ omega arith)
      ∙ partial_sum_lem (words s) d (omega arith) in
    let sum = words s + words d + protocol + length packet in
    ap finalize_sum (
      ap (λ (k : ℕ). partial_sum k packet) {y = sum} (omega arith)
      ∙ partial_sum_lem sum packet (omega arith))
