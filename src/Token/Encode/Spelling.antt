-- ===== src/Token/Encode/Spelling.antt =====
-- crates/nr-token/src/blob.rs: what the encoding of a chunk is to be, apart from how `encode_chunk` works.
use nightrun.Prelude.{
  ℕ, ◌+◌, ◌^◌, ◌<◌, ◌≡◌, List, [], ◌∷◌, ◌++◌, take, drop, none, some, Result, ok, err, panic,
}
use nightrun.Token.Blob.{Tokenizer, Error, byte_token, token_bytes, merge}
use nightrun.Token.Encode.Lowest.{Lowest}

abbrev bytes_of : Result Error (List ℕ) → List ℕ
bytes_of (ok bytes) = bytes
bytes_of (err e) = []
bytes_of panic = []

-- The bytes of a token, and of a list of them.
abbrev pub text : Tokenizer → ℕ → List ℕ
text t id = bytes_of (token_bytes t id)

unfoldable pub spelled : Tokenizer → List ℕ → List ℕ
spelled t [] = []
spelled t (id ∷ rest) = text t id ++ spelled t rest

-- What the converter promises: the token of a byte is that byte, and a merge joins two tokens.
pub record IsConsistent (t : Tokenizer) : Type 0 where
  pub byte_text : (b id : ℕ) → b < 256 → byte_token t b ≡ ok id → text t id ≡ b ∷ []
  pub merge_text :
      (left right result rank : ℕ)
      → left < 2 ^ 32
      → right < 2 ^ 32
      → merge t left right ≡ ok (some (result, rank))
      → text t result ≡ text t left ++ text t right

-- No two neighbors have a merge.
unfoldable pub NoMerge : Tokenizer → List ℕ → Type 0
NoMerge t [] = Unit
NoMerge t (a ∷ []) = Unit
NoMerge t (a ∷ b ∷ rest) = (merge t a b ≡ ok none) × NoMerge t (b ∷ rest)

-- Byte pair encoding: while two neighbors have a merge, the pair of the lowest rank, the leftmost of
-- them, gives way to its result.
pub data Encodes (t : Tokenizer) : List ℕ → List ℕ → Type 0 where
  finished : (ids : List ℕ) → NoMerge t ids → Encodes t ids ids
  merged :
      (ids out : List ℕ) (i result rank : ℕ)
      → Lowest t i result rank ids
      → Encodes t (take i ids ++ (result ∷ drop (i + 2) ids)) out
      → Encodes t ids out
