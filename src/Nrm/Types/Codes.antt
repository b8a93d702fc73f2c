-- ===== src/Nrm/Types/Codes.antt =====
-- The codes of `TensorKind` and `TensorKind::from_u16`, which are inverse to each other.
use nightrun.Prelude.{ℕ, ◌≡◌, ◌↔◌, refl, sym, subst, some, arith}
use nightrun.Nrm.Types.{
  TensorKind, kind_code, kind_from_u16, tok_embed, output_norm, output, rope_freqs, attn_norm,
  attn_q, attn_k, attn_v, attn_o, ffn_norm, ffn_gate, ffn_up, ffn_down, attn_q_norm, attn_k_norm,
}

kind_from_u16-kind_code : (kind : TensorKind) → kind_from_u16 (kind_code kind) ≡ some kind
unfolding kind_from_u16 kind_code
kind_from_u16-kind_code tok_embed = refl
kind_from_u16-kind_code output_norm = refl
kind_from_u16-kind_code output = refl
kind_from_u16-kind_code rope_freqs = refl
kind_from_u16-kind_code attn_norm = refl
kind_from_u16-kind_code attn_q = refl
kind_from_u16-kind_code attn_k = refl
kind_from_u16-kind_code attn_v = refl
kind_from_u16-kind_code attn_o = refl
kind_from_u16-kind_code ffn_norm = refl
kind_from_u16-kind_code ffn_gate = refl
kind_from_u16-kind_code ffn_up = refl
kind_from_u16-kind_code ffn_down = refl
kind_from_u16-kind_code attn_q_norm = refl
kind_from_u16-kind_code attn_k_norm = refl

kind_code-kind_from_u16 :
    (v : ℕ) (kind : TensorKind) → kind_from_u16 v ≡ some kind → v ≡ kind_code kind
unfolding kind_from_u16 kind_code
kind_code-kind_from_u16 v kind h = ground arith

-- A number reads as a kind exactly where it is that kind's code.
pub kind_from_u16_iff :
    (v : ℕ) (kind : TensorKind) → (kind_from_u16 v ≡ some kind) ↔ (v ≡ kind_code kind)
kind_from_u16_iff v kind = (
  kind_code-kind_from_u16 v kind,
  (λ e. subst (λ (k : ℕ). kind_from_u16 k ≡ some kind) (sym e) (kind_from_u16-kind_code kind)),
)
