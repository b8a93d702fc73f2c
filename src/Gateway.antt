-- ===== src/Gateway.antt =====
-- tools/nrmcp-gateway/src/main.rs: the host bridge between MCP over HTTP and the datagrams of the
-- appliance. The main thread takes datagrams, another thread serves one HTTP request after the
-- other; a step is what a thread does between two points at which the other may come in.
pub mod Authorized
pub mod Delivery
pub mod Exchange
pub mod Routing
pub mod Threads
pub mod Turns
pub mod Liveness
use nightrun.Prelude.{
  ℕ, zero, suc, ◌+◌, ◌-◌, ◌*◌, ◌%◌, ◌^◌, Bool, true, false, not, ◌&&◌, ◌||◌, List, [], ◌∷◌, ◌++◌,
  length, take, replicate, Option, none, some, ltb, leb, ◌==◌, if◌then◌else◌, Result, ok, err,
  panic,
}
use nightrun.Prelude.Bytes.{sub, bytes_eq}
use nightrun.Requests.{
  Request, Response, text, json, empty, header_value, endpoint, authorization_name, bearer,
  origin_allowed,
}
use nightrun.Mcp.{
  Kind, host_request, device_response, device_request, host_response, hello, Error, CompleteMessage,
  fragment_count, encode_fragment, max_datagram,
}
use nightrun.Mcp.Reassembler.{Reassembler, Reply, default, push}

abbrev pub max_message : ℕ
max_message = 64 * 1024

-- A socket address, by some number.
abbrev pub SocketAddr : Type 0
SocketAddr = ℕ

-- The HTTP thread: between two requests, before `send_message` for a notification or for a request
-- that waits for its answer, and in `recv_timeout`.
pub data Http : Type 0 where
  idle : Http
  notifying : ℕ → SocketAddr → List ℕ → Http
  sending : ℕ → SocketAddr → List ℕ → Http
  waiting : ℕ → Http

-- A response, and the message id where the request was given one.
pub record Answer : Type 0 where
  pub about : Option ℕ
  pub response : Response

-- `pending` maps message ids to senders, a sender by the number of its channel. `channel` is the
-- newest channel, `mail` what its receiver holds. `answers` are the responses, `routed` the messages
-- that the main thread took, `sent` the datagrams that the socket accepted, all newest first.
pub record Gateway : Type 0 where
  pub pending : List (ℕ × ℕ)
  pub device_peer : Option SocketAddr
  pub ids : ℕ
  pub channel : ℕ
  pub mail : Option (List ℕ)
  pub http : Http
  pub reassembler : Reassembler
  pub stopped : Bool
  pub answers : List Answer
  pub routed : List CompleteMessage
  pub sent : List (SocketAddr × List ℕ)

abbrev pub start : Gateway
start = record {
  pending = [];
  device_peer = none;
  ids = 1;
  channel = 0;
  mail = none;
  http = idle;
  reassembler = default max_message;
  stopped = false;
  answers = [];
  routed = [];
  sent = [];
}

pub remove : ℕ → List (ℕ × ℕ) → List (ℕ × ℕ)
remove id [] = []
remove id ((key, channel) ∷ rest) =
    let others = remove id rest in if key == id then others else (key, channel) ∷ others

abbrev pub insert : ℕ → ℕ → List (ℕ × ℕ) → List (ℕ × ℕ)
insert id channel pending = (id, channel) ∷ remove id pending

pub get : ℕ → List (ℕ × ℕ) → Option ℕ
get id [] = none
get id ((key, channel) ∷ rest) =
    let other = get id rest in if key == id then some channel else other

-- What `send_message` fails with: an error of the codec, or of the socket.
pub data SendError : Type 0 where
  codec : Error → SendError
  socket : SendError

-- The handler returns with this response.
abbrev answer : Option ℕ → Response → Gateway → Gateway
answer id response g = record g {
  http = idle;
  answers = record { about = id; response = response } ∷ g.answers;
}

module _ (valid_json_rpc : List ℕ → Bool) (json_rpc_has_id : List ℕ → Bool)
    (invalid_request : List ℕ) (token : List ℕ) where
  -- From `ids.fetch_add` to the call of `send_message`.
  pub admit : SocketAddr → List ℕ → Gateway → Gateway
  admit peer body g =
      let id = g.ids in
      let next = record g { ids = (g.ids + 1) % 2 ^ 32 } in
      if json_rpc_has_id body
      then record next {
        channel = g.channel + 1;
        mail = none;
        pending = insert id (g.channel + 1) g.pending;
        http = sending id peer body;
      }
      else record next { http = notifying id peer body }

  -- The body is read up to one byte more than is allowed.
  pub read_request : SocketAddr → Option (List ℕ) → Gateway → Gateway
  read_request peer none g = answer none (text 413) g
  read_request peer (some bytes) g =
      let body = take (max_message + 1) bytes in
      if ltb max_message (length body)
      then answer none (text 413) g
      else if not (valid_json_rpc body)
      then answer none (json 400 invalid_request) g
      else admit peer body g

  pub with_peer : Option SocketAddr → Request → Gateway → Gateway
  with_peer none request g = answer none (text 503) g
  with_peer (some peer) request g = read_request peer request.body g

  authorized : Option (List ℕ) → Bool
  authorized none = false
  authorized (some value) = bytes_eq value (bearer ++ token)

  -- `handle_http` up to the call of `send_message`.
  unfoldable pub handle_http : Request → Gateway → Gateway
  unfolding with_peer read_request admit authorized origin_allowed header_value
  handle_http request g =
      if not (bytes_eq request.url endpoint) || not request.is_post
      then answer none (text 405) g
      else if not (origin_allowed request)
      then answer none (text 403) g
      else if not (authorized (header_value request authorization_name))
      then answer none (text 401) g
      else with_peer g.device_peer request g

-- What `handle_http` does with the result of `send_message`.
pub notified : ℕ → Gateway → Result SendError (Unit {0}) → Gateway
notified id g (ok u) = answer (some id) (empty 202) g
notified id g (err e) = answer (some id) (text 502) g
notified id g panic = record g { stopped = true }

pub forwarded : ℕ → Gateway → Result SendError (Unit {0}) → Gateway
forwarded id g (ok u) = record g { http = waiting id }
forwarded id g (err e) = answer (some id) (text 502) (record g { pending = remove id g.pending })
forwarded id g panic = record g { stopped = true }

-- `receiver.recv_timeout` returns: with what was sent, or after the timeout.
pub returned : ℕ → Option (List ℕ) → Gateway → Gateway
returned id (some body) g = answer (some id) (json 200 body) (record g { mail = none })
returned id none g = answer (some id) (text 504) (record g { pending = remove id g.pending })

pub received : Http → Gateway → Gateway
received (waiting id) g = returned id g.mail g
received idle g = g
received (notifying id peer body) g = g
received (sending id peer body) g = g

-- `sender.send` on a channel: an older channel has lost its receiver.
pub post_to : Option ℕ → List ℕ → Gateway → Gateway
post_to none payload g = g
post_to (some channel) payload g =
    if channel == g.channel then record g { mail = some payload } else g

-- A failure of `send_message` ends `main`.
pub replied : Gateway → Result SendError (Unit {0}) → Gateway
replied g (ok u) = g
replied g (err e) = record g { stopped = true }
replied g panic = record g { stopped = true }

-- The socket takes a datagram for a peer or refuses it; it may go by what it took before.
module _ (accepts : List (SocketAddr × List ℕ) → List ℕ → Bool) where
  -- The rounds of `send_message` from `index` on, with the datagram buffer and what was sent before.
  pub send_fragments :
      ℕ
      → SocketAddr
      → Kind
      → ℕ
      → List ℕ
      → ℕ
      → List ℕ
      → List (SocketAddr × List ℕ)
      → List (SocketAddr × List ℕ) × Result SendError (Unit {0})
  send_fragments zero peer kind id message index datagram sent = (sent, ok tt)
  send_fragments (suc n) peer kind id message index datagram sent =
      elim (encode_fragment kind id message index datagram) [
        | ok (len, bytes) ↦ elim (sub {E = SendError} bytes 0 len) [
          | ok payload ↦ elim (accepts sent payload) [
            | true ↦
                send_fragments n peer kind id message (index + 1) bytes ((peer, payload) ∷ sent)
            | false ↦ (sent, err socket)
          ]
          | err e ↦ (sent, err e)
          | panic ↦ (sent, panic)
        ]
        | err e ↦ (sent, err (codec e))
        | panic ↦ (sent, panic)
      ]

  pub send_message :
      SocketAddr
      → Kind
      → ℕ
      → List ℕ
      → List (SocketAddr × List ℕ)
      → List (SocketAddr × List ℕ) × Result SendError (Unit {0})
  send_message peer kind id message sent = elim (fragment_count (length message)) [
    | ok count ↦ send_fragments count peer kind id message 0 (replicate max_datagram 0) sent
    | err e ↦ (sent, err (codec e))
    | panic ↦ (sent, panic)
  ]

  -- The calls of `send_message` in `handle_http`.
  pub forward : Http → Gateway → Gateway
  forward idle g = g
  forward (waiting id) g = g
  forward (notifying id peer body) g =
      let r = send_message peer host_request id body g.sent in
      notified id (record g { sent = r.0 }) r.1
  forward (sending id peer body) g =
      let r = send_message peer host_request id body g.sent in
      forwarded id (record g { sent = r.0 }) r.1

  -- A complete message in `main`; `response` is what the upstream endpoint, or the error in its
  -- place, comes to for a request of the device.
  unfoldable pub route : SocketAddr → List ℕ → Kind → CompleteMessage → Gateway → Gateway
  unfolding send_message send_fragments replied post_to get remove
  route peer response hello m g = record g { device_peer = some peer }
  route peer response device_response m g =
      post_to (get m.message_id g.pending) m.payload
        (record g { device_peer = some peer; pending = remove m.message_id g.pending })
  route peer response device_request m g =
      let r = send_message peer host_response m.message_id response g.sent in
      replied (record g { device_peer = some peer; sent = r.0 }) r.1
  route peer response host_request m g = g
  route peer response host_response m g = g

  pub take_reply : SocketAddr → List ℕ → Reassembler × Reply → Gateway → Gateway
  take_reply peer response (r, ok (some m)) g =
      route peer response m.kind m (record g { reassembler = r; routed = m ∷ g.routed })
  take_reply peer response (r, ok none) g = record g { reassembler = r }
  take_reply peer response (r, err e) g = record g { reassembler = r }
  take_reply peer response (r, panic) g = record g { reassembler = r; stopped = true }

  -- One round of the loop of `main`; `recv_from` cuts a datagram at the length of the buffer.
  pub receive_datagram : SocketAddr → List ℕ → List ℕ → Gateway → Gateway
  receive_datagram peer response bytes g =
      take_reply peer response (push max_message g.reassembler (take max_datagram bytes)) g
