-- ===== src/Requests/Origin.antt =====
-- tools/nrmcp-gateway/src/main.rs: which origins pass the test of `origin_allowed`.
use nightrun.Prelude.{
  ℕ, ◌≡◌, refl, sym, ap, ◌∙◌, ◌⊎◌, inl, inr, true, Bool-cases, List, [], ◌∷◌, ◌++◌, length, take,
  drop, take-append-drop, Option, none, some, arith,
}
use nightrun.Prelude.Bytes.{bytes_eq, bytes_eq_iff}
use nightrun.Requests.{
  Request, origin_name, header_value, loopback_address, loopback_name, starts_with, loopback,
  origin_allowed,
}

-- No origin, or http://127.0.0.1 or http://localhost, alone or with a colon and what follows it.
abbrev pub IsLocal : Option (List ℕ) → Type 0
IsLocal none = Unit
IsLocal (some origin) =
    (host : List ℕ) × ((host ≡ loopback_address) ⊎ (host ≡ loopback_name))
    × ((origin ≡ host) ⊎ (port : List ℕ) × (origin ≡ host ++ (58 ∷ port)))

starts_with_lem :
    (s prefix : List ℕ) → starts_with s prefix ≡ true → s ≡ prefix ++ drop (length prefix) s
unfolding starts_with
starts_with_lem s prefix e =
    sym (take-append-drop (length prefix) s)
    ∙ ap (λ front. front ++ drop (length prefix) s)
        ((bytes_eq_iff (take (length prefix) s) prefix).0 e)

loopback-IsLocal : (origin : Option (List ℕ)) → loopback origin ≡ true → IsLocal origin
unfolding loopback
loopback-IsLocal none e = tt
loopback-IsLocal (some origin) e =
    elim (Bool-cases (starts_with origin (loopback_address ++ (58 ∷ [])))) [
      | inl h ↦ (
        loopback_address,
        inl refl,
        inr (drop 17 origin, starts_with_lem origin (loopback_address ++ (58 ∷ [])) h),
      )
      | inr no_address ↦ elim (Bool-cases (starts_with origin (loopback_name ++ (58 ∷ [])))) [
        | inl h ↦ (
          loopback_name,
          inr refl,
          inr (drop 17 origin, starts_with_lem origin (loopback_name ++ (58 ∷ [])) h),
        )
        | inr no_name ↦ elim (Bool-cases (bytes_eq origin loopback_address)) [
          | inl h ↦ (loopback_address, inl refl, inl ((bytes_eq_iff origin loopback_address).0 h))
          | inr other ↦
              (loopback_name, inr refl, inl ((bytes_eq_iff origin loopback_name).0 (ground arith)))
        ]
      ]
    ]

pub origin_allowed-IsLocal :
    (request : Request) → origin_allowed request ≡ true → IsLocal (header_value request origin_name)
unfolding origin_allowed
origin_allowed-IsLocal request e = loopback-IsLocal (header_value request origin_name) e
