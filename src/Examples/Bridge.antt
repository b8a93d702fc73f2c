-- ===== src/Examples/Bridge.antt =====
-- The gateway at concrete requests and datagrams.
use nightrun.Prelude.{ℕ, ◌≡◌, refl, ◌⊎◌, Bool, true, false, List, [], ◌∷◌, ◌++◌, some, ok, arith}
use nightrun.Mcp.{fragment_count, hello, host_request, device_request, CompleteMessage}
use nightrun.Mcp.Codec.{datagram_of}
use nightrun.Mcp.Reassembler.{default, run}
use nightrun.Mcp.Reassembler.Order.{replies}
use nightrun.Requests.{Request, endpoint, bearer, origin_name, loopback_name}
use nightrun.Gateway.{
  SocketAddr, sending, Gateway, start, handle_http, receive_datagram, route, send_message,
}
use nightrun.Gateway.Authorized.{Fate, handle_http-Fate}
use nightrun.Gateway.Delivery.{arrivals, upto, run-send_message}
use nightrun.Gateway.Exchange.{IsServing}
use nightrun.Gateway.Threads.{here, next, request, datagram, Reach-IsServing}
use nightrun.Gateway.Turns.{Turn, http_turn, main_turn, run_turns, MainStops}
use nightrun.Gateway.Liveness.{Answered, unanswered-Answered}

abbrev accepts_all : List (SocketAddr × List ℕ) → List ℕ → Bool
accepts_all sent bytes = true

abbrev not_empty : List ℕ → Bool
not_empty [] = false
not_empty (b ∷ bs) = true

abbrev secret : List ℕ
secret = 115 ∷ 51 ∷ []

abbrev object : List ℕ
object = 0x7b ∷ 0x7d ∷ []

-- "authorization" in lower case
abbrev authorization_lower : List ℕ
authorization_lower = 97 ∷ 117 ∷ 116 ∷ 104 ∷ 111 ∷ 114 ∷ 105 ∷ 122 ∷ 97 ∷ 116 ∷ 105 ∷ 111 ∷ 110 ∷ []

abbrev call : Request
call = record {
  url = endpoint;
  is_post = true;
  headers =
      record { field = origin_name; value = loopback_name }
      ∷ record { field = authorization_lower; value = bearer ++ secret }
      ∷ [];
  body = some object;
}

abbrev connected : Gateway
connected = record start { device_peer = some 7 }

handle_http-call :
    (handle_http not_empty not_empty [] secret call connected).http ≡ sending 1 7 object
unfolding handle_http
handle_http-call = refl

-- A request of the appliance that the upstream endpoint answers with an empty body, as it does for a
-- notification, ends the gateway.
abbrev notification : CompleteMessage
notification = record { kind = device_request; message_id = 1; payload = object }

route-empty : (route accepts_all 7 [] device_request notification connected).stopped ≡ true
unfolding route fragment_count
route-empty = refl

handle_http-Fate_example :
    Fate not_empty not_empty [] secret call connected
      (handle_http not_empty not_empty [] secret call connected)
handle_http-Fate_example = handle_http-Fate not_empty not_empty [] secret call connected

run-send_message_example :
    ((send_message accepts_all 7 host_request 5 object []).1 ≡ ok tt)
    × (run 100 (default 100) (arrivals (send_message accepts_all 7 host_request 5 object []).0)
        ≡ replies host_request 5 object
            (omega arith, omega arith)
            (omega arith)
            100
            (omega arith)
            (upto 0))
run-send_message_example =
    run-send_message accepts_all (λ sent bytes. refl) 7 host_request 5 object
      (omega arith, omega arith) (omega arith) 100 (omega arith) (default 100) refl (omega arith)

-- A request before the appliance has connected, and then its hello.
abbrev refused_once : Gateway
refused_once = handle_http not_empty not_empty [] secret call start

refused_once-runs : refused_once.stopped ≡ false
unfolding handle_http
refused_once-runs = refl

Reach-IsServing_example :
    IsServing 1 (receive_datagram accepts_all 7 [] (datagram_of hello 0 object 0) refused_once)
Reach-IsServing_example =
    Reach-IsServing not_empty not_empty [] secret accepts_all 1
      (receive_datagram accepts_all 7 [] (datagram_of hello 0 object 0) refused_once)
      (next (next here (request call start refl refl))
        (datagram 7 [] (datagram_of hello 0 object 0) refused_once refused_once-runs))

abbrev in_flight : Gateway
in_flight = record connected { http = sending 1 7 object; pending = (1, 1) ∷ []; channel = 1 }

-- Two datagrams that are too short come in between.
abbrev both_threads : List Turn
both_threads = main_turn 8 [] (1 ∷ 2 ∷ []) ∷ http_turn ∷ main_turn 7 [] [] ∷ http_turn ∷ []

unanswered-Answered_example :
    MainStops accepts_all both_threads in_flight
    ⊎ Answered 0 (run_turns accepts_all both_threads in_flight)
unanswered-Answered_example =
    unanswered-Answered accepts_all in_flight both_threads refl (omega arith)
