-- ===== src/Gateway/Exchange.antt =====
-- tools/nrmcp-gateway/src/main.rs: the threads of the gateway together, and what holds in every
-- state that they can reach.
use nightrun.Prelude.{
  ℕ, ◌≤◌, ◌+◌, ◌≡◌, refl, sym, ap, ◌∙◌, subst, ◌⊎◌, inl, inr, Bool-cases, Bool, List, [], ◌∷◌,
  length, Option, none, some, Result, ok, err, panic, All, ==_self, arith,
}
use mathlib.Core.List.{Memᴰ}
use nightrun.Mcp.{host_request, device_response, CompleteMessage}
use nightrun.Requests.{Request, Response, text, json, empty}
use nightrun.Gateway.{
  SocketAddr, Http, idle, notifying, sending, waiting, Answer, Gateway, SendError, remove, answer,
  admit, notified, forwarded, forward, returned, received, send_message,
}
use nightrun.Gateway.Authorized.{status_of, Fate, refused, admitted}

-- A response of the appliance that the main thread took.
abbrev pub Routed : ℕ → List ℕ → List CompleteMessage → Type 0
Routed id body routed =
    Memᴰ (record { kind = device_response; message_id = id; payload = body }) routed

-- A result that is handed to the HTTP client is one that the appliance gave for that request; an
-- error status comes from the gateway itself.
abbrev pub IsJust : List CompleteMessage → Option ℕ → Response → Type 0
IsJust routed about (text status) = Unit
IsJust routed about (empty status) = Unit
IsJust routed about (json status body) =
    (400 ≤ status) ⊎ ((id : ℕ) × (about ≡ some id) × Routed id body routed)

abbrev pub Justified : List CompleteMessage → Answer → Type 0
Justified routed a = IsJust routed a.about a.response

-- While a request waits for its result, the map holds its sender, or the result is in the channel.
abbrev pub Open : ℕ → List (ℕ × ℕ) → ℕ → Option (List ℕ) → List CompleteMessage → Type 0
Open id pending channel mail routed =
    ((pending ≡ (id, channel) ∷ []) × (mail ≡ none))
    ⊎ ((pending ≡ []) × ((body : List ℕ) × (mail ≡ some body) × Routed id body routed))

abbrev pub IsOpen : Http → List (ℕ × ℕ) → ℕ → Option (List ℕ) → List CompleteMessage → Type 0
IsOpen idle pending channel mail routed = pending ≡ []
IsOpen (notifying id peer body) pending channel mail routed = pending ≡ []
IsOpen (sending id peer body) pending channel mail routed = Open id pending channel mail routed
IsOpen (waiting id) pending channel mail routed = Open id pending channel mail routed

-- The requests that are not answered yet.
abbrev pub unanswered : Http → ℕ
unanswered idle = 0
unanswered (notifying id peer body) = 1
unanswered (sending id peer body) = 1
unanswered (waiting id) = 1

-- After a number of requests.
pub record IsServing (n : ℕ) (g : Gateway) : Type 0 where
  pub counted : length g.answers + unanswered g.http ≡ n
  pub justified : All (Justified g.routed) g.answers
  pub exchange : IsOpen g.http g.pending g.channel g.mail g.routed

refused-IsJust :
    (routed : List CompleteMessage) (r : Response) → 400 ≤ status_of r → IsJust routed none r
refused-IsJust routed (text status) h = tt
refused-IsJust routed (empty status) h = tt
refused-IsJust routed (json status body) h = inl h

some_eq : {a b : List ℕ} → some a ≡ some b → a ≡ b
some_eq e = cc

-- The handler returns: the map must be empty then.
answered :
    (n : ℕ) (about : Option ℕ) (r : Response) (g : Gateway)
    → length g.answers + 1 ≡ n
    → All (Justified g.routed) g.answers
    → Justified g.routed (record { about = about; response = r })
    → g.pending ≡ []
    → IsServing n (answer about r g)
answered n about r g c js j p = record { counted = omega arith; justified = (j, js); exchange = p }

remove-single : (id channel : ℕ) → remove id ((id, channel) ∷ []) ≡ []
unfolding remove
remove-single id channel = rw (==_self id) refl

-- Nothing is left in the map once the sender of an open exchange is removed.
removed :
    (id : ℕ) (g : Gateway) → Open id g.pending g.channel g.mail g.routed → remove id g.pending ≡ []
unfolding remove
removed id g (inl h) = ap (remove id) h.0 ∙ remove-single id g.channel
removed id g (inr h) = ap (remove id) h.0

module _ (valid_json_rpc : List ℕ → Bool) (json_rpc_has_id : List ℕ → Bool)
    (invalid_request : List ℕ) (token : List ℕ)
    (accepts : List (SocketAddr × List ℕ) → List ℕ → Bool) where
  pub handle_http-IsServing :
      (n : ℕ) (r : Request) (g h : Gateway)
      → g.http ≡ idle
      → IsServing n g
      → Fate valid_json_rpc json_rpc_has_id invalid_request token r g h
      → IsServing (n + 1) h
  unfolding remove
  handle_http-IsServing n r g h e s (refused response bad) =
      answered (n + 1) none response g (omega (arith, s.counted, ap unanswered e)) s.justified
        (refused-IsJust g.routed response bad)
        (subst (λ http. IsOpen http g.pending g.channel g.mail g.routed) e s.exchange)
  handle_http-IsServing n r g h e s (admitted peer body d a) =
      elim (Bool-cases (json_rpc_has_id body)) [
        | inl y ↦
            unfold admit in
            rw y (record {
              counted = omega (arith, s.counted, ap unanswered e);
              justified = s.justified;
              exchange = inl (ap (λ p. (g.ids, g.channel + 1) ∷ remove g.ids p) none_open, refl);
            })
        | inr y ↦
            unfold admit in
            rw y (record {
              counted = omega (arith, s.counted, ap unanswered e);
              justified = s.justified;
              exchange = none_open;
            })
      ]
    where
      none_open : g.pending ≡ []
      none_open = subst (λ http. IsOpen http g.pending g.channel g.mail g.routed) e s.exchange

  notified-IsServing :
      (n id : ℕ) (g : Gateway) (r : Result SendError (Unit {0}))
      → unanswered g.http ≡ 1
      → IsServing n g
      → g.pending ≡ []
      → IsServing n (notified id g r)
  unfolding notified
  notified-IsServing n id g (ok u) one s p =
      answered n (some id) (empty 202) g (omega (arith, s.counted)) s.justified tt p
  notified-IsServing n id g (err x) one s p =
      answered n (some id) (text 502) g (omega (arith, s.counted)) s.justified tt p
  notified-IsServing n id g panic one s p = record {
    counted = s.counted;
    justified = s.justified;
    exchange = s.exchange;
  }

  forwarded-IsServing :
      (n id : ℕ) (g : Gateway) (r : Result SendError (Unit {0}))
      → unanswered g.http ≡ 1
      → IsServing n g
      → Open id g.pending g.channel g.mail g.routed
      → IsServing n (forwarded id g r)
  unfolding forwarded
  forwarded-IsServing n id g (ok u) one s p = record {
    counted = omega (arith, s.counted);
    justified = s.justified;
    exchange = p;
  }
  forwarded-IsServing n id g (err x) one s p =
      answered n (some id) (text 502) (record g { pending = remove id g.pending })
        (omega (arith, s.counted)) s.justified tt (removed id g p)
  forwarded-IsServing n id g panic one s p = record {
    counted = s.counted;
    justified = s.justified;
    exchange = s.exchange;
  }

  pub forward-IsServing :
      (n : ℕ) (g : Gateway) (http : Http)
      → g.http ≡ http
      → IsServing n g
      → IsServing n (forward accepts http g)
  unfolding forward
  forward-IsServing n g idle e s = s
  forward-IsServing n g (waiting id) e s = s
  forward-IsServing n g (notifying id peer body) e s =
      let r = send_message accepts peer host_request id body g.sent in
      notified-IsServing n id (record g { sent = r.0 }) r.1 (ap unanswered e)
        (record { counted = s.counted; justified = s.justified; exchange = s.exchange })
        (subst (λ http. IsOpen http g.pending g.channel g.mail g.routed) e s.exchange)
  forward-IsServing n g (sending id peer body) e s =
      let r = send_message accepts peer host_request id body g.sent in
      forwarded-IsServing n id (record g { sent = r.0 }) r.1 (ap unanswered e)
        (record { counted = s.counted; justified = s.justified; exchange = s.exchange })
        (subst (λ http. IsOpen http g.pending g.channel g.mail g.routed) e s.exchange)

  returned-IsServing :
      (n id : ℕ) (m : Option (List ℕ)) (g : Gateway)
      → g.mail ≡ m
      → length g.answers + 1 ≡ n
      → All (Justified g.routed) g.answers
      → Open id g.pending g.channel g.mail g.routed
      → IsServing n (returned id m g)
  unfolding returned
  returned-IsServing n id none g e one js o =
      answered n (some id) (text 504) (record g { pending = remove id g.pending }) one js tt
        (removed id g o)
  returned-IsServing n id (some body) g e one js (inl h) =
      absurd (let k : some body ≡ none = sym e ∙ h.1 in cc)
  returned-IsServing n id (some body) g e one js (inr h) =
      answered n (some id) (json 200 body) (record g { mail = none }) one js
        (inr (id, refl, subst (λ c. Routed id c g.routed) (some_eq (sym h.1.1 ∙ e)) h.1.2)) h.0

  pub received-IsServing :
      (n : ℕ) (g : Gateway) (http : Http)
      → g.http ≡ http
      → IsServing n g
      → IsServing n (received http g)
  unfolding received
  received-IsServing n g idle e s = s
  received-IsServing n g (waiting id) e s =
      returned-IsServing n id g.mail g refl (omega (arith, s.counted, ap unanswered e)) s.justified
        (subst (λ http. IsOpen http g.pending g.channel g.mail g.routed) e s.exchange)
  received-IsServing n g (notifying id peer body) e s = s
  received-IsServing n g (sending id peer body) e s = s
