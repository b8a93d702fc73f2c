-- ===== src/Gateway/Routing.antt =====
-- tools/nrmcp-gateway/src/main.rs: what the main thread does with a message, and the invariant of the
-- exchange.
use nightrun.Prelude.{
  ℕ, ◌≡◌, refl, sym, ap, ap₂, ◌∙◌, subst, inl, inr, Bool-cases, Bool, List, [], ◌∷◌, Option, none,
  some, Result, ok, err, panic, ◌==◌, ==_self, ==_iff,
}
use mathlib.Core.List.{Memᴰ}
use mathlib.Core.List.Memᴰ
use nightrun.Mcp.{
  Kind, host_request, device_response, device_request, host_response, hello, CompleteMessage,
}
use nightrun.Gateway.{
  SocketAddr, Http, idle, notifying, sending, waiting, Gateway, SendError, remove, get, post_to,
  replied, route, send_message,
}
use nightrun.Gateway.Exchange.{Open, IsOpen, IsServing}

module _ (accepts : List (SocketAddr × List ℕ) → List ℕ → Bool) where
  response_eq :
      (m : CompleteMessage) {k : Kind} {id : ℕ}
      → k ≡ m.kind
      → id ≡ m.message_id
      → record { kind = k; message_id = id; payload = m.payload } ≡ m
  response_eq m e f = ap₂ (λ k i. record { kind = k; message_id = i; payload = m.payload }) e f

  -- A response of the appliance while a request is open.
  posted-Open :
      (n id : ℕ) (m : CompleteMessage) (g : Gateway)
      → m.kind ≡ device_response
      → Memᴰ m g.routed
      → IsServing n g
      → ((pending : List (ℕ × ℕ)) (mail : Option (List ℕ))
          → Open id pending g.channel mail g.routed
          → IsOpen g.http pending g.channel mail g.routed)
      → Open id g.pending g.channel g.mail g.routed
      → IsServing n (
          post_to
            (get m.message_id g.pending)
            m.payload
            (record g { pending = remove m.message_id g.pending }))
  unfolding get remove post_to
  posted-Open n id m g e r s back (inr h) =
      subst
        (λ c.
          IsServing n (post_to c m.payload (record g { pending = remove m.message_id g.pending })))
        (sym (ap (get m.message_id) h.0))
        (record {
          counted = s.counted;
          justified = s.justified;
          exchange =
              back (remove m.message_id g.pending) g.mail (inr (ap (remove m.message_id) h.0, h.1));
        })
  posted-Open n id m g e r s back (inl h) = elim (Bool-cases (id == m.message_id)) [
    | inl same ↦
        let hit : get m.message_id ((id, g.channel) ∷ []) ≡ some g.channel = rw same refl in
        let gone : remove m.message_id ((id, g.channel) ∷ []) ≡ [] = rw same refl in
        let it = Memᴰ.cast (response_eq m (sym e) ((==_iff id m.message_id).0 same)) r in
        subst
          (λ c.
            IsServing n
              (post_to c m.payload (record g { pending = remove m.message_id g.pending })))
          {x = some g.channel} (sym (ap (get m.message_id) h.0 ∙ hit))
          (rw (==_self g.channel) (record {
            counted = s.counted;
            justified = s.justified;
            exchange =
                back (remove m.message_id g.pending) (some m.payload)
                  (inr (ap (remove m.message_id) h.0 ∙ gone, (m.payload, refl, it)));
          }))
    | inr other ↦
        let miss : get m.message_id ((id, g.channel) ∷ []) ≡ none = rw other refl in
        let kept : remove m.message_id ((id, g.channel) ∷ []) ≡ (id, g.channel) ∷ [] =
          rw other refl in
        subst
          (λ c.
            IsServing n
              (post_to c m.payload (record g { pending = remove m.message_id g.pending })))
          {x = none} (sym (ap (get m.message_id) h.0 ∙ miss))
          (record {
            counted = s.counted;
            justified = s.justified;
            exchange =
                back (remove m.message_id g.pending) g.mail
                  (inl (ap (remove m.message_id) h.0 ∙ kept, h.1));
          })
  ]

  posted-closed :
      (n : ℕ) (m : CompleteMessage) (g : Gateway)
      → IsServing n g
      → ((pending : List (ℕ × ℕ)) → pending ≡ [] → IsOpen g.http pending g.channel g.mail g.routed)
      → g.pending ≡ []
      → IsServing n (
          post_to
            (get m.message_id g.pending)
            m.payload
            (record g { pending = remove m.message_id g.pending }))
  unfolding get remove post_to
  posted-closed n m g s back o =
      subst
        (λ c.
          IsServing n (post_to c m.payload (record g { pending = remove m.message_id g.pending })))
        (sym (ap (get m.message_id) o))
        (record {
          counted = s.counted;
          justified = s.justified;
          exchange = back (remove m.message_id g.pending) (ap (remove m.message_id) o);
        })

  posted_to-IsServing :
      (n : ℕ) (m : CompleteMessage) (g : Gateway) (http : Http)
      → m.kind ≡ device_response
      → Memᴰ m g.routed
      → IsServing n g
      → g.http ≡ http
      → IsOpen http g.pending g.channel g.mail g.routed
      → IsServing n (
          post_to
            (get m.message_id g.pending)
            m.payload
            (record g { pending = remove m.message_id g.pending }))
  posted_to-IsServing n m g idle e r s h o =
      posted-closed n m g s (λ p k. subst (λ t. IsOpen t p g.channel g.mail g.routed) (sym h) k) o
  posted_to-IsServing n m g (notifying id peer body) e r s h o =
      posted-closed n m g s (λ p k. subst (λ t. IsOpen t p g.channel g.mail g.routed) (sym h) k) o
  posted_to-IsServing n m g (sending id peer body) e r s h o =
      posted-Open n id m g e r s
        (λ p mail k. subst (λ t. IsOpen t p g.channel mail g.routed) (sym h) k) o
  posted_to-IsServing n m g (waiting id) e r s h o =
      posted-Open n id m g e r s
        (λ p mail k. subst (λ t. IsOpen t p g.channel mail g.routed) (sym h) k) o

  replied-IsServing :
      (n : ℕ) (g : Gateway) (r : Result SendError (Unit {0}))
      → IsServing n g
      → IsServing n (replied g r)
  unfolding replied
  replied-IsServing n g (ok u) s = s
  replied-IsServing n g (err x) s = record {
    counted = s.counted;
    justified = s.justified;
    exchange = s.exchange;
  }
  replied-IsServing n g panic s = record {
    counted = s.counted;
    justified = s.justified;
    exchange = s.exchange;
  }

  pub route-IsServing :
      (n : ℕ) (peer : SocketAddr) (response : List ℕ) (k : Kind) (m : CompleteMessage) (g : Gateway)
      → m.kind ≡ k
      → Memᴰ m g.routed
      → IsServing n g
      → IsServing n (route accepts peer response k m g)
  unfolding route
  route-IsServing n peer response hello m g e r s = record {
    counted = s.counted;
    justified = s.justified;
    exchange = s.exchange;
  }
  route-IsServing n peer response device_response m g e r s =
      posted_to-IsServing n m (record g { device_peer = some peer }) g.http e r
        (record { counted = s.counted; justified = s.justified; exchange = s.exchange }) refl
        s.exchange
  route-IsServing n peer response device_request m g e r s =
      replied-IsServing n _ (send_message accepts peer host_response m.message_id response g.sent).1
        (record { counted = s.counted; justified = s.justified; exchange = s.exchange })
  route-IsServing n peer response host_request m g e r s = s
  route-IsServing n peer response host_response m g e r s = s
