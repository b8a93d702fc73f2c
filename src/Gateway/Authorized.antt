-- ===== src/Gateway/Authorized.antt =====
-- tools/nrmcp-gateway/src/main.rs: which requests `handle_http` lets through.
use nightrun.Prelude.{
  ℕ, ◌+◌, ◌≤◌, ◌≡◌, refl, sym, ap, ◌∙◌, not_ltb→le, Bool, true, false, not, ◌||◌, List, ◌++◌,
  length, take, Option, none, some, ltb, Bool-cases, inl, inr, take_all, length-take, arith,
}
use nightrun.Prelude.Bytes.{bytes_eq, bytes_eq_iff}
use nightrun.Requests.{
  Request, Response, text, json, empty, endpoint, bearer, authorization_name, header_value,
  origin_allowed, origin_name,
}
use nightrun.Requests.Origin.{IsLocal, origin_allowed-IsLocal}
use nightrun.Gateway.{
  SocketAddr, Gateway, max_message, answer, admit, read_request, with_peer, authorized, handle_http,
}

abbrev pub status_of : Response → ℕ
status_of (text status) = status
status_of (json status body) = status
status_of (empty status) = status

both : (a b : Bool) → not a || not b ≡ false → (a ≡ true) × (b ≡ true)
both true true e = (refl, refl)
both true false e = absurd (ground arith)
both false b e = absurd (ground arith)

module _ (valid_json_rpc : List ℕ → Bool) (json_rpc_has_id : List ℕ → Bool)
    (invalid_request : List ℕ) (token : List ℕ) where
  -- What a request must show to be let through, with the body that is read.
  pub record IsAuthorized (request : Request) (body : List ℕ) : Type 0 where
    pub to_endpoint : request.url ≡ endpoint
    pub posted : request.is_post ≡ true
    pub local_origin : IsLocal (header_value request origin_name)
    pub has_token : header_value request authorization_name ≡ some (bearer ++ token)
    pub read_whole : request.body ≡ some body
    pub bounded : length body ≤ max_message
    pub valid : valid_json_rpc body ≡ true

  -- A request is refused with an error status and nothing else happens, or it is admitted.
  pub data Fate (request : Request) (g : Gateway) : Gateway → Type 0 where
    refused : (r : Response) → 400 ≤ status_of r → Fate request g (answer none r g)
    admitted :
        (peer : SocketAddr) (body : List ℕ)
        → g.device_peer ≡ some peer
        → IsAuthorized request body
        → Fate request g (admit valid_json_rpc json_rpc_has_id invalid_request token peer body g)

  read_request-Fate :
      (request : Request) (g : Gateway) (peer : SocketAddr) (body : Option (List ℕ))
      → request.url ≡ endpoint
      → request.is_post ≡ true
      → origin_allowed request ≡ true
      → header_value request authorization_name ≡ some (bearer ++ token)
      → g.device_peer ≡ some peer
      → request.body ≡ body
      → Fate request g
          (read_request valid_json_rpc json_rpc_has_id invalid_request token peer body g)
  unfolding read_request
  read_request-Fate request g peer none u p o h d e = refused (text 413) (omega arith)
  read_request-Fate request g peer (some bytes) u p o h d e =
      let body = take (max_message + 1) bytes in
      elim (Bool-cases (ltb max_message (length body))) [
        | inl long ↦ rw long (refused (text 413) (omega arith))
        | inr short ↦
            let bound : length body ≤ max_message = not_ltb→le max_message (length body) short in
            rw short (elim (Bool-cases (valid_json_rpc body)) [
              | inl good ↦ rw good (
                  admitted peer body d (record {
                    to_endpoint = u;
                    posted = p;
                    local_origin = origin_allowed-IsLocal request o;
                    has_token = h;
                    read_whole =
                        e
                        ∙ ap some (
                            sym (
                              take_all (max_message + 1) bytes
                                (omega (arith, length-take (max_message + 1) bytes, bound))));
                    bounded = bound;
                    valid = good;
                  }))
              | inr bad ↦ rw bad (refused (json 400 invalid_request) (omega arith))
            ])
      ]

  authorized-value :
      (value : Option (List ℕ))
      → authorized valid_json_rpc json_rpc_has_id invalid_request token value ≡ true
      → value ≡ some (bearer ++ token)
  unfolding authorized
  authorized-value none e = absurd (ground arith)
  authorized-value (some value) e = ap some ((bytes_eq_iff value (bearer ++ token)).0 e)

  with_peer-Fate :
      (request : Request) (g : Gateway) (connected : Option SocketAddr)
      → request.url ≡ endpoint
      → request.is_post ≡ true
      → origin_allowed request ≡ true
      → header_value request authorization_name ≡ some (bearer ++ token)
      → g.device_peer ≡ connected
      → Fate request g
          (with_peer valid_json_rpc json_rpc_has_id invalid_request token connected request g)
  unfolding with_peer
  with_peer-Fate request g none u p o h d = refused (text 503) (omega arith)
  with_peer-Fate request g (some peer) u p o h d =
      read_request-Fate request g peer request.body u p o h d refl

  -- `handle_http` up to `send_message`: either it answers at once, with an error status, and has
  -- changed nothing else; or the request is a POST to /mcp whose Origin header, if it has one, is http://127.0.0.1 or http://localhost,
  -- alone or with a colon and what follows,
  -- shows the bearer token, its whole body is within the bound and a valid JSON-RPC message, the
  -- appliance has connected, and that body goes to it.
  pub handle_http-Fate :
      (request : Request) (g : Gateway)
      → Fate request g (handle_http valid_json_rpc json_rpc_has_id invalid_request token request g)
  unfolding handle_http
  handle_http-Fate request g =
      elim (Bool-cases (not (bytes_eq request.url endpoint) || not request.is_post)) [
        | inl other ↦ rw other (refused (text 405) (omega arith))
        | inr there ↦ rw there (elim (Bool-cases (origin_allowed request)) [
          | inr foreign ↦ rw foreign (refused (text 403) (omega arith))
          | inl local ↦
              rw local
                (elim (Bool-cases (
                  authorized valid_json_rpc json_rpc_has_id invalid_request token
                    (header_value request authorization_name))) [
                      | inr stranger ↦ rw stranger (refused (text 401) (omega arith))
                      | inl known ↦ rw known (
                          with_peer-Fate request g g.device_peer
                            ((bytes_eq_iff request.url endpoint).0 (both _ _ there).0)
                            (both _ _ there).1 local
                            (authorized-value (header_value request authorization_name) known) refl)
                    ])
        ])
      ]
