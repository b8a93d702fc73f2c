-- ===== src/Gateway/Liveness.antt =====
-- tools/nrmcp-gateway/src/main.rs: the HTTP thread never gets stuck with a request.
use nightrun.Prelude.{
  ℕ, zero, suc, ◌+◌, ◌≤◌, ◌<◌, ◌≡◌, ◌≢◌, refl, sym, ap, ◌∙◌, subst, ◌⊎◌, inl, inr, Bool, List, [],
  ◌∷◌, length, replicate, Option, none, some, Result, ok, err, panic, Bool-cases, length-replicate,
  arith,
}
use nightrun.Mcp.{Kind, host_request, max_datagram}
use nightrun.Mcp.Codec.{
  IsSendable, count_of, datagram_of, encode_fragment_lem, fragment_count_sendable,
  fragment_count-cases,
}
use nightrun.Gateway.{
  SocketAddr, Http, idle, notifying, sending, waiting, Gateway, SendError, notified, forwarded,
  forward, returned, received, send_fragments, send_message, receive_datagram,
}
use nightrun.Gateway.Delivery.{piece_room, written, written_whole}
use nightrun.Gateway.Exchange.{unanswered}
use nightrun.Gateway.Turns.{
  Turn, http_turn, main_turn, http_turns, step_of, run_turns, MainStops, Same,
  receive_datagram-Same,
}

module _ (accepts : List (SocketAddr × List ℕ) → List ℕ → Bool) where
  send_fragments-ne-panic :
      (n i : ℕ) (peer : SocketAddr) (kind : Kind) (id : ℕ) (message datagram : List ℕ)
      (sent : List (SocketAddr × List ℕ))
      → IsSendable message
      → i + n ≡ count_of message
      → length datagram ≡ max_datagram
      → (send_fragments accepts n peer kind id message i datagram sent).1 ≢ panic
  unfolding send_fragments
  send_fragments-ne-panic zero i peer kind id message datagram sent h e size = λ k. cc
  send_fragments-ne-panic (suc n) i peer kind id message datagram sent h e size =
      let bytes = datagram_of kind id message i in
      let (full, whole) = written_whole kind id message i datagram size in
      rw
        (
          encode_fragment_lem kind id message i datagram h (omega arith)
              (omega (arith, piece_room message i)),
          send_fragments,
          whole,
        )
        (elim (Bool-cases (accepts sent bytes)) [
          | inl taken ↦ rw taken (
              send_fragments-ne-panic n (i + 1) peer kind id message
                (written kind id message i datagram) ((peer, bytes) ∷ sent) h (omega arith) full)
          | inr refused ↦ rw refused (λ k. cc)
        ])

  send_message-ne-panic :
      (peer : SocketAddr) (kind : Kind) (id : ℕ) (message : List ℕ)
      (sent : List (SocketAddr × List ℕ))
      → (send_message accepts peer kind id message sent).1 ≢ panic
  unfolding send_message
  send_message-ne-panic peer kind id message sent = elim (fragment_count-cases message) [
    | inl h ↦
        rw (fragment_count_sendable message h, send_message)
          (send_fragments-ne-panic (count_of message) 0 peer kind id message
            (replicate max_datagram 0) sent h (omega arith)
            (length-replicate {A = ℕ} max_datagram 0))
    | inr h ↦ rw (h.1, send_message) (λ k. cc)
  ]

-- The steps that the HTTP thread has left.
abbrev steps_left : Http → ℕ
steps_left idle = 0
steps_left (notifying id peer body) = 1
steps_left (sending id peer body) = 2
steps_left (waiting id) = 1

-- The request is answered: the handler returned, and there is one answer more than `n`.
abbrev pub Answered : ℕ → Gateway → Type 0
Answered n h = (h.http ≡ idle) × (length h.answers ≡ n + 1)

-- The request is answered, or the HTTP thread has at most `k` steps left.
abbrev Owes : ℕ → ℕ → Gateway → Type 0
Owes n k h =
    Answered n h ⊎ (length h.answers ≡ n) × (0 < steps_left h.http) × (steps_left h.http ≤ k)

returned-Answered :
    (id : ℕ) (m : Option (List ℕ)) (g : Gateway) → Answered (length g.answers) (returned id m g)
unfolding returned
returned-Answered id none g = (refl, omega arith)
returned-Answered id (some body) g = (refl, omega arith)

notified-Answered :
    (id : ℕ) (g : Gateway) (r : Result SendError (Unit {0}))
    → r ≢ panic
    → Answered (length g.answers) (notified id g r)
unfolding notified
notified-Answered id g (ok u) k = (refl, omega arith)
notified-Answered id g (err e) k = (refl, omega arith)
notified-Answered id g panic k = absurd (k refl)

forwarded-Owes :
    (id k : ℕ) (g : Gateway) (r : Result SendError (Unit {0}))
    → r ≢ panic
    → 1 ≤ k
    → Owes (length g.answers) k (forwarded id g r)
unfolding forwarded
forwarded-Owes id k g (ok u) sent some_left = inr (refl, omega arith, omega arith)
forwarded-Owes id k g (err e) sent some_left = inl (refl, omega arith)
forwarded-Owes id k g panic sent some_left = absurd (sent refl)

module _ (accepts : List (SocketAddr × List ℕ) → List ℕ → Bool) where
  Same-Owes : (n k : ℕ) (g h : Gateway) → Same g h → Owes n k g → Owes n k h
  Same-Owes n k g h (same_http, same_answers) (inl (free, count)) =
      inl (same_http ∙ free, ap length same_answers ∙ count)
  Same-Owes n k g h (same_http, same_answers) (inr (count, some_left, few)) =
      let same = ap steps_left same_http in
      inr (ap length same_answers ∙ count, omega arith, omega arith)

  step-Owes :
      (k : ℕ) (http : Http) (g : Gateway)
      → 0 < steps_left http
      → steps_left http ≤ suc k
      → Owes (length g.answers) k (step_of accepts http g)
  unfolding forward received
  step-Owes k idle g some_left few = absurd (omega arith)
  step-Owes k (notifying id peer body) g some_left few =
      inl
        (notified-Answered id _ _ (send_message-ne-panic accepts peer host_request id body g.sent))
  step-Owes k (sending id peer body) g some_left few =
      forwarded-Owes id k _ _ (send_message-ne-panic accepts peer host_request id body g.sent)
        (omega arith)
  step-Owes k (waiting id) g some_left few = inl (returned-Answered id g.mail g)

  Owes-step : (n k : ℕ) (g : Gateway) → Owes n (suc k) g → Owes n k (step_of accepts g.http g)
  Owes-step n k g (inl (free, count)) =
      inl (subst (λ t. Answered n (step_of accepts t g)) (sym free) (free, count))
  Owes-step n k g (inr (count, some_left, few)) =
      subst (λ m. Owes m k (step_of accepts g.http g)) count (step-Owes k g.http g some_left few)

  run_turns-Owes :
      (turns : List Turn) (n k : ℕ) (g : Gateway)
      → Owes n k g
      → k ≤ http_turns turns
      → MainStops accepts turns g ⊎ Answered n (run_turns accepts turns g)
  run_turns-Owes [] n k g (inl done) h = inr done
  run_turns-Owes [] n k g (inr (count, some_left, few)) h = absurd (omega arith)
  run_turns-Owes (http_turn ∷ turns) n zero g owed h =
      run_turns-Owes turns n zero (step_of accepts g.http g) (Owes-step n zero g (more owed))
        (omega arith)
    where
      more : Owes n zero g → Owes n 1 g
      more (inl done) = inl done
      more (inr (count, some_left, few)) = absurd (omega arith)
  run_turns-Owes (http_turn ∷ turns) n (suc k) g owed h =
      run_turns-Owes turns n k (step_of accepts g.http g) (Owes-step n k g owed) (omega arith)
  run_turns-Owes (main_turn peer response bytes ∷ turns) n k g owed h =
      let next = receive_datagram accepts peer response bytes g in
      elim (run_turns-Owes turns n k next
        (Same-Owes n k g next (receive_datagram-Same accepts peer response bytes g) owed) h) [
          | inl stops ↦ inl (inr stops)
          | inr done ↦ inr done
        ]

  busy : (http : Http) → unanswered http ≡ 1 → (0 < steps_left http) × (steps_left http ≤ 2)
  busy idle e = absurd (omega arith)
  busy (notifying id peer body) e = (omega arith, omega arith)
  busy (sending id peer body) e = (omega arith, omega arith)
  busy (waiting id) e = (omega arith, omega arith)

  -- From a state in which a request was taken and not yet answered: after any turns of the two
  -- threads, whatever datagrams the main thread takes and whatever the socket accepts, of which two
  -- or more are the HTTP thread's own, and while no request is taken anew, the handler has returned
  -- and exactly one answer more is given, unless one of the main thread's turns ended the program.
  pub unanswered-Answered :
      (g : Gateway) (turns : List Turn)
      → unanswered g.http ≡ 1
      → 2 ≤ http_turns turns
      → MainStops accepts turns g ⊎ Answered (length g.answers) (run_turns accepts turns g)
  unanswered-Answered g turns one enough =
      let left = busy g.http one in
      run_turns-Owes turns (length g.answers) 2 g (inr (refl, left.0, left.1)) enough
