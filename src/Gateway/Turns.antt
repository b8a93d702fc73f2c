-- ===== src/Gateway/Turns.antt =====
-- tools/nrmcp-gateway/src/main.rs: the threads of the gateway by turns, while no request is taken.
use nightrun.Prelude.{
  ℕ, ◌+◌, ◌≡◌, refl, ◌⊎◌, inl, inr, Bool, true, List, [], ◌∷◌, take, Option, none, some, ◌==◌,
  Result, ok, err, panic, Bool-cases,
}
use nightrun.Mcp.{
  Kind, host_request, host_response, device_request, device_response, hello, CompleteMessage,
  max_datagram,
}
use nightrun.Mcp.Reassembler.{Reassembler, Reply, push}
use nightrun.Gateway.{
  SocketAddr, Http, idle, notifying, sending, waiting, Gateway, SendError, max_message, forward,
  received, send_message, get, remove, post_to, replied, route, take_reply, receive_datagram,
}

-- What the HTTP thread does next with the request that it serves: the call of `send_message`, or
-- `recv_timeout`.
abbrev pub step_of : (List (SocketAddr × List ℕ) → List ℕ → Bool) → Http → Gateway → Gateway
step_of accepts idle g = g
step_of accepts (notifying id peer body) g = forward accepts (notifying id peer body) g
step_of accepts (sending id peer body) g = forward accepts (sending id peer body) g
step_of accepts (waiting id) g = received (waiting id) g

-- A turn of one of the two threads; the main thread's is a datagram that arrives, with the sender
-- and the response of the upstream endpoint.
pub data Turn : Type 0 where
  http_turn : Turn
  main_turn : SocketAddr → List ℕ → List ℕ → Turn

abbrev pub http_turns : List Turn → ℕ
http_turns [] = 0
http_turns (http_turn ∷ turns) = http_turns turns + 1
http_turns (main_turn peer response bytes ∷ turns) = http_turns turns

module _ (accepts : List (SocketAddr × List ℕ) → List ℕ → Bool) where
  abbrev pub run_turns : List Turn → Gateway → Gateway
  run_turns [] g = g
  run_turns (http_turn ∷ turns) g = run_turns turns (step_of accepts g.http g)
  run_turns (main_turn peer response bytes ∷ turns) g =
      run_turns turns (receive_datagram accepts peer response bytes g)

  -- A turn of the main thread ends the program.
  abbrev pub MainStops : List Turn → Gateway → Type 0
  MainStops [] g = ⊥
  MainStops (http_turn ∷ turns) g = MainStops turns (step_of accepts g.http g)
  MainStops (main_turn peer response bytes ∷ turns) g =
      ((receive_datagram accepts peer response bytes g).stopped ≡ true)
      ⊎ MainStops turns (receive_datagram accepts peer response bytes g)

-- The main thread leaves the HTTP thread and its answers alone.
abbrev pub Same : Gateway → Gateway → Type 0
Same g h = (h.http ≡ g.http) × (h.answers ≡ g.answers)

post_to-Same :
    (channel : Option ℕ) (payload : List ℕ) (g : Gateway) → Same g (post_to channel payload g)
unfolding post_to
post_to-Same none payload g = (refl, refl)
post_to-Same (some channel) payload g = elim (Bool-cases (channel == g.channel)) [
  | inl newest ↦ rw newest (refl, refl)
  | inr older ↦ rw older (refl, refl)
]

replied-Same : (g : Gateway) (r : Result SendError (Unit {0})) → Same g (replied g r)
unfolding replied
replied-Same g (ok u) = (refl, refl)
replied-Same g (err e) = (refl, refl)
replied-Same g panic = (refl, refl)

module _ (accepts : List (SocketAddr × List ℕ) → List ℕ → Bool) where
  route-Same :
      (peer : SocketAddr) (response : List ℕ) (kind : Kind) (m : CompleteMessage) (g : Gateway)
      → Same g (route accepts peer response kind m g)
  unfolding route
  route-Same peer response hello m g = (refl, refl)
  route-Same peer response device_response m g =
      post_to-Same (get m.message_id g.pending) m.payload
        (record g { device_peer = some peer; pending = remove m.message_id g.pending })
  route-Same peer response device_request m g =
      let r = send_message accepts peer host_response m.message_id response g.sent in
      replied-Same (record g { device_peer = some peer; sent = r.0 }) r.1
  route-Same peer response host_request m g = (refl, refl)
  route-Same peer response host_response m g = (refl, refl)

  take_reply-Same :
      (peer : SocketAddr) (response : List ℕ) (r : Reassembler × Reply) (g : Gateway)
      → Same g (take_reply accepts peer response r g)
  unfolding take_reply
  take_reply-Same peer response (r, ok (some m)) g =
      route-Same peer response m.kind m (record g { reassembler = r; routed = m ∷ g.routed })
  take_reply-Same peer response (r, ok none) g = (refl, refl)
  take_reply-Same peer response (r, err e) g = (refl, refl)
  take_reply-Same peer response (r, panic) g = (refl, refl)

  pub receive_datagram-Same :
      (peer : SocketAddr) (response bytes : List ℕ) (g : Gateway)
      → Same g (receive_datagram accepts peer response bytes g)
  unfolding receive_datagram
  receive_datagram-Same peer response bytes g =
      take_reply-Same peer response (push max_message g.reassembler (take max_datagram bytes)) g
