-- ===== src/Token/Encode.antt =====
-- crates/nr-token/src/blob.rs: `encode_chunk`, the byte pair encoding of one chunk.
pub mod Lowest
pub mod Spelling
pub mod Rounds
use nightrun.Prelude.{
  ℕ, zero, suc, ◌+◌, Bool, List, [], ◌∷◌, ◌++◌, length, Option, none, some, ltb, if◌then◌else◌,
  Result, ok, err, panic, ◌>>=◌, unwrap,
}
use nightrun.Token.Blob.{Tokenizer, Error, byte_token, merge}

-- `chunk.iter().map(|&b| self.byte_token(b)).collect()`
pub byte_tokens : Tokenizer → List ℕ → Result Error (List ℕ)
byte_tokens t [] = ok []
byte_tokens t (b ∷ rest) = do id ← byte_token t b; ids ← byte_tokens t rest; ok (id ∷ ids)

-- Index, result and rank of the best pair so far.
abbrev pub Best : Type 0
Best = Option (ℕ × ℕ × ℕ)

abbrev pub better : Best → ℕ → Option (ℕ × ℕ) → Best
better best i none = best
better none i (some (result, rank)) = some (i, result, rank)
better (some (j, other, best_rank)) i (some (result, rank)) =
    if ltb rank best_rank then some (i, result, rank) else some (j, other, best_rank)

-- The scan of the adjacent pairs of `ids`, which start at index `i` of the list.
pub best_from : Tokenizer → ℕ → List ℕ → Best → Result Error Best
best_from t i [] best = ok best
best_from t i (a ∷ []) best = ok best
best_from t i (a ∷ b ∷ rest) best = do
  m ← merge t a b
  best_from t (i + 1) (b ∷ rest) (better best i m)

-- `ids[i] = result; ids.remove(i + 1)`, none where an index is out of range.
abbrev keep : ℕ → Option (List ℕ) → Option (List ℕ)
keep a none = none
keep a (some rest) = some (a ∷ rest)

pub merge_at : ℕ → ℕ → List ℕ → Option (List ℕ)
merge_at i result [] = none
merge_at zero result (a ∷ []) = none
merge_at zero result (a ∷ b ∷ rest) = some (result ∷ rest)
merge_at (suc i) result (a ∷ rest) = keep a (merge_at i result rest)

-- The loop; to run out of fuel counts as a panic, and does not happen.
pub encode_loop : ℕ → Tokenizer → List ℕ → Result Error (List ℕ)
encode_loop zero t ids = panic
encode_loop (suc fuel) t ids = do
  best ← best_from t 0 ids none
  elim best [
    | none ↦ ok ids
    | some (i, result, rank) ↦ do ids' ← unwrap (merge_at i result ids); encode_loop fuel t ids'
  ]

-- The ids that are appended to `out`.
unfoldable pub encode_chunk : Tokenizer → List ℕ → Result Error (List ℕ)
unfolding byte_tokens best_from merge_at encode_loop
encode_chunk t chunk = do ids ← byte_tokens t chunk; encode_loop (length ids + 1) t ids
