-- ===== src/Gateway/Threads.antt =====
-- tools/nrmcp-gateway/src/main.rs: the threads of the gateway together, and what holds in every state that
-- its threads can reach.
use nightrun.Prelude.{
  ℕ, ◌+◌, ◌≡◌, refl, subst, inl, inr, Bool, false, List, [], ◌∷◌, Option, none, some, ok, err,
  panic, All, arith,
}
use mathlib.Core.List.{Memᴰ}
use nightrun.Mcp.{CompleteMessage}
use nightrun.Mcp.Reassembler.{Reassembler, Reply}
use nightrun.Requests.{Response, text, json, empty, Request}
use nightrun.Gateway.{
  SocketAddr, Http, idle, notifying, sending, waiting, Answer, Gateway, start, handle_http, forward,
  received, take_reply, receive_datagram,
}
use nightrun.Gateway.Authorized.{handle_http-Fate}
use nightrun.Gateway.Exchange.{
  IsJust, Justified, IsOpen, IsServing, handle_http-IsServing, forward-IsServing,
  received-IsServing,
}
use nightrun.Gateway.Routing.{route-IsServing}

module _ (valid_json_rpc : List ℕ → Bool) (json_rpc_has_id : List ℕ → Bool)
    (invalid_request : List ℕ) (token : List ℕ)
    (accepts : List (SocketAddr × List ℕ) → List ℕ → Bool) where
  -- The steps that the threads can take while the gateway runs; the first index counts the requests
  -- that are taken.
  pub data Step : ℕ → Gateway → Gateway → Type 0 where
    request :
        (r : Request) (g : Gateway)
        → g.stopped ≡ false
        → g.http ≡ idle
        → Step 1 g (handle_http valid_json_rpc json_rpc_has_id invalid_request token r g)
    send : (g : Gateway) → g.stopped ≡ false → Step 0 g (forward accepts g.http g)
    receive : (g : Gateway) → g.stopped ≡ false → Step 0 g (received g.http g)
    datagram :
        (peer : SocketAddr) (response bytes : List ℕ) (g : Gateway)
        → g.stopped ≡ false
        → Step 0 g (receive_datagram accepts peer response bytes g)

  pub data Reach (g : Gateway) : ℕ → Gateway → Type 0 where
    here : Reach g 0 g
    next : {k n : ℕ} {h i : Gateway} → Reach g n h → Step k h i → Reach g (n + k) i

  IsJust-cons :
      (m : CompleteMessage) (routed : List CompleteMessage) (about : Option ℕ) (r : Response)
      → IsJust routed about r
      → IsJust (m ∷ routed) about r
  IsJust-cons m routed about (text status) j = tt
  IsJust-cons m routed about (empty status) j = tt
  IsJust-cons m routed about (json status body) (inl h) = inl h
  IsJust-cons m routed about (json status body) (inr (id, e, r)) = inr (id, e, Memᴰ.tail r)

  -- A message that the main thread takes only adds to what it took before.
  Justified-cons :
      (m : CompleteMessage) (routed : List CompleteMessage) (answers : List Answer)
      → All (Justified routed) answers
      → All (Justified (m ∷ routed)) answers
  Justified-cons m routed [] js = tt
  Justified-cons m routed (a ∷ answers) js =
      (IsJust-cons m routed a.about a.response js.0, Justified-cons m routed answers js.1)

  IsOpen-cons :
      (m : CompleteMessage) (http : Http) (pending : List (ℕ × ℕ)) (channel : ℕ)
      (mail : Option (List ℕ)) (routed : List CompleteMessage)
      → IsOpen http pending channel mail routed
      → IsOpen http pending channel mail (m ∷ routed)
  IsOpen-cons m idle p c mail routed o = o
  IsOpen-cons m (notifying id peer body) p c mail routed o = o
  IsOpen-cons m (sending id peer body) p c mail routed (inl h) = inl h
  IsOpen-cons m (sending id peer body) p c mail routed (inr h) =
      inr (h.0, (h.1.0, h.1.1, Memᴰ.tail h.1.2))
  IsOpen-cons m (waiting id) p c mail routed (inl h) = inl h
  IsOpen-cons m (waiting id) p c mail routed (inr h) = inr (h.0, (h.1.0, h.1.1, Memᴰ.tail h.1.2))

  plus : {n : ℕ} {g : Gateway} → IsServing n g → IsServing (n + 0) g
  plus {n} {g} s = subst (λ (k : ℕ). IsServing k g) (omega arith) s

  take_reply-IsServing :
      (n : ℕ) (peer : SocketAddr) (response : List ℕ) (r : Reassembler × Reply) (g : Gateway)
      → IsServing n g
      → IsServing n (take_reply accepts peer response r g)
  unfolding take_reply
  take_reply-IsServing n peer response (r, ok (some m)) g s =
      route-IsServing accepts n peer response m.kind m
        (record g { reassembler = r; routed = m ∷ g.routed }) refl (Memᴰ.head refl)
        (record {
          counted = s.counted;
          justified = Justified-cons m g.routed g.answers s.justified;
          exchange = IsOpen-cons m g.http g.pending g.channel g.mail g.routed s.exchange;
        })
  take_reply-IsServing n peer response (r, ok none) g s = record {
    counted = s.counted;
    justified = s.justified;
    exchange = s.exchange;
  }
  take_reply-IsServing n peer response (r, err e) g s = record {
    counted = s.counted;
    justified = s.justified;
    exchange = s.exchange;
  }
  take_reply-IsServing n peer response (r, panic) g s = record {
    counted = s.counted;
    justified = s.justified;
    exchange = s.exchange;
  }

  Step-IsServing : (n k : ℕ) (g h : Gateway) → IsServing n g → Step k g h → IsServing (n + k) h
  unfolding receive_datagram
  Step-IsServing n k g h s (request r i on free) =
      handle_http-IsServing valid_json_rpc json_rpc_has_id invalid_request token accepts n r g _
        free s (handle_http-Fate valid_json_rpc json_rpc_has_id invalid_request token r g)
  Step-IsServing n k g h s (send i on) = plus (
      forward-IsServing valid_json_rpc json_rpc_has_id invalid_request token accepts n g g.http refl
        s)
  Step-IsServing n k g h s (receive i on) = plus (
      received-IsServing valid_json_rpc json_rpc_has_id invalid_request token accepts n g g.http
        refl s)
  Step-IsServing n k g h s (datagram peer response bytes i on) =
      plus (take_reply-IsServing n peer response _ g s)

  -- Whatever the threads do, in whatever order, after `n` requests were taken: as many are answered,
  -- one fewer while one is unanswered; a JSON body without an error status is a response of the
  -- appliance with the id of that very request; and the map of the waiting requests is empty, but
  -- for the sender of the request that waits while its result has not come.
  pub Reach-IsServing : (n : ℕ) (g : Gateway) → Reach start n g → IsServing n g
  Reach-IsServing n g here = record { counted = omega arith; justified = tt; exchange = refl }
  Reach-IsServing n g (next {k = k} {n = m} {h = h} r st) =
      Step-IsServing m k h g (Reach-IsServing m h r) st
