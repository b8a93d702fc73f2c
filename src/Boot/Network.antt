-- ===== src/Boot/Network.antt =====
-- crates/nr-boot/src/network.rs, with the feature `mcp`: the adapter between the firmware's network
-- interface, `nr-net` and `nr-mcp`. What the firmware answers is an argument; `sent` are the
-- frames that it accepted. The log lines are left out.
pub mod Running
pub mod Polling
pub mod Session
use nightrun.Prelude.{
  ℕ, ◌+◌, ◌*◌, ◌%◌, ◌^◌, max, Bool, true, false, not, ◌&&◌, ◌||◌, List, [], ◌∷◌, ◌++◌, length, take,
  replicate, Option, none, some, ltb, leb, ◌==◌, ◌!=◌, if◌then◌else◌, Result, ok, err, panic, ◌>>=◌,
}
use nightrun.Prelude.Bytes.{sub}
use nightrun.Net.Types.{
  Config, MacAddress, Ipv4Address, Stack, Error, SendOutcome, datagram, neighbor_discovery,
  ReceiveEvent, no_event, reply, neighbor_learned, udp,
}
use nightrun.Net.Cache
use nightrun.Net.Receive.{Io, receive}
use nightrun.Net.Send.{send_udp}
use nightrun.Mcp.{
  Kind, hello, device_response, device_request, CompleteMessage, fragment_count, encode_fragment,
  max_datagram,
}
use nightrun.Mcp.Reassembler.{Reassembler, Reply, default, push}

abbrev pub frame_bytes : ℕ
frame_bytes = 1536

abbrev pub max_mcp_message : ℕ
max_mcp_message = 32 * 1024

abbrev pub mcp_port : ℕ
mcp_port = 9000

abbrev pub address : Ipv4Address
address = 10 ∷ 0 ∷ 2 ∷ 15 ∷ []

abbrev pub subnet : Ipv4Address
subnet = 255 ∷ 255 ∷ 255 ∷ 0 ∷ []

abbrev pub gateway : Ipv4Address
gateway = 10 ∷ 0 ∷ 2 ∷ 2 ∷ []

pub record PendingMessage : Type 0 where
  pub kind : Kind
  pub message_id : ℕ
  pub json : List ℕ
  pub fragment : ℕ

-- `McpMessage` has the fields of the reassembler's `CompleteMessage`.
pub record Network : Type 0 where
  pub stack : Stack
  pub reassembler : Reassembler
  pub pending : List PendingMessage
  pub inbox : Option CompleteMessage
  pub tx : List ℕ
  pub mcp_datagram : List ℕ
  pub tx_busy : Bool
  pub next_message_id : ℕ
  pub sent : List (List ℕ)

-- What the interface reports when networking starts, and whether each call succeeds.
pub data NicState : Type 0 where
  stopped started initialized other : NicState

pub record Nic : Type 0 where
  pub found : Bool
  pub state : NicState
  pub starts : Bool
  pub initializes : Bool
  pub hw_address_size : ℕ
  pub media_header_size : ℕ
  pub filters : Bool
  pub current_address : List ℕ

is_up : Nic → Bool
is_up nic = elim (nic.state) [
  | stopped ↦ nic.starts && nic.initializes
  | started ↦ nic.initializes
  | initialized ↦ true
  | other ↦ false
]

-- A message that is empty or too long is refused.
pub queue : Kind → ℕ → List ℕ → Network → Network
queue kind message_id json n =
    if leb (length json) max_mcp_message && not (length json == 0)
    then record n {
      pending =
          n.pending
          ++ (record { kind = kind; message_id = message_id; json = json; fragment = 0 } ∷ []);
    }
    else n

-- b"{}"
abbrev empty_object : List ℕ
empty_object = 0x7b ∷ 0x7d ∷ []

abbrev pub offline : MacAddress → Network
offline mac = record {
  stack =
      Cache.new 8
        (record { mac = mac; address = address; subnet_mask = subnet; gateway = gateway });
  reassembler = default max_mcp_message;
  pending = [];
  inbox = none;
  tx = replicate frame_bytes 0;
  mcp_datagram = replicate max_datagram 0;
  tx_busy = false;
  next_message_id = 1;
  sent = [];
}

unfoldable pub init : Nic → Option Network
unfolding is_up queue
init nic =
    if nic.found
      && is_up nic
      && nic.hw_address_size == 6
      && nic.media_header_size == 14
      && nic.filters
    then some (queue hello 0 empty_object (offline (take 6 nic.current_address)))
    else none

pub queue_response : ℕ → List ℕ → Network → Network
queue_response message_id json n = queue device_response message_id json n

-- The id that the request was given, and the state behind.
pub queue_upstream_request : List ℕ → Network → ℕ × Network
queue_upstream_request json n = (
  n.next_message_id,
  queue device_request n.next_message_id json
      (record n { next_message_id = max ((n.next_message_id + 1) % 2 ^ 32) 1 }),
)

pub reclaim_transmit : Bool → Network → Network
reclaim_transmit recycled n = if n.tx_busy && recycled then record n { tx_busy = false } else n

-- What a receive call of the interface answers; a frame is no longer than the buffer.
pub data Received : Type 0 where
  frame : List ℕ → Received
  not_ready failed : Received

-- The interface takes a frame or refuses it; it may go by what it took before.
module _ (accepts : List (List ℕ) → List ℕ → Bool) where
  pub transmit : ℕ → Network → Result Error Network
  transmit len n = do
    bytes ← sub n.tx 0 len
    ok (if accepts n.sent bytes then record n { tx_busy = true; sent = bytes ∷ n.sent } else n)

  -- The front of `pending` was sent, or an error drops it.
  pub conclude_send :
      Network
      → PendingMessage
      → List PendingMessage
      → ℕ
      → Result Error (SendOutcome × (Stack × List ℕ))
      → Result Error Network
  conclude_send n m rest count (ok (neighbor_discovery len, (s, o))) =
      transmit len (record n { stack = s; tx = o })
  conclude_send n m rest count (ok (datagram len, (s, o))) = do
    n' ← transmit len (record n { stack = s; tx = o })
    let fragment = (m.fragment + 1) % 2 ^ 16
    ok (record n' {
      pending = if fragment == count then rest else record m { fragment = fragment } ∷ rest;
    })
  conclude_send n m rest count (err e) = ok (record n { pending = rest })
  conclude_send n m rest count panic = panic

  -- `fragment_count(..).unwrap_or(1)`
  abbrev count_or_one : {E : Type 0} → Result E ℕ → ℕ
  count_or_one (ok count) = count
  count_or_one (err e) = 1
  count_or_one panic = 1

  pub send_front : Network → List PendingMessage → Result Error Network
  send_front n [] = ok n
  send_front n (m ∷ rest) =
      let count = count_or_one (fragment_count (length m.json)) in
      elim (encode_fragment m.kind m.message_id m.json m.fragment n.mcp_datagram) [
        | ok (len, bytes) ↦ do
          payload ← sub bytes 0 len
          conclude_send (record n { mcp_datagram = bytes }) m rest count
              (send_udp n.stack gateway mcp_port mcp_port payload n.tx)
        | err e ↦ ok (record n { pending = rest })
        | panic ↦ panic
      ]

  pub send_pending : Network → Result Error Network
  send_pending n = if n.tx_busy then ok n else send_front n n.pending

  -- What a datagram for MCP leads to, and whether the loop ends.
  pub take_datagram : Reassembler × Reply → Network → Result Error (Network × Bool)
  take_datagram (r, ok (some m)) n = ok (record n { reassembler = r; inbox = some m }, true)
  take_datagram (r, ok none) n = ok (record n { reassembler = r }, false)
  take_datagram (r, err e) n = ok (record n { reassembler = r }, false)
  take_datagram (r, panic) n = panic

  pub handle : Result Error ReceiveEvent → Network → Result Error (Network × Bool)
  handle (ok (reply len)) n =
      if n.tx_busy then ok (n, false) else (do n' ← transmit len n; ok (n', false))
  handle (ok (udp d)) n =
      if d.destination_port == mcp_port
      then take_datagram (push max_mcp_message n.reassembler d.payload) n
      else ok (n, false)
  handle (ok (neighbor_learned ip mac)) n = ok (n, false)
  handle (ok no_event) n = ok (n, false)
  handle (err e) n = ok (n, false)
  handle panic n = panic

  abbrev received : Network → List ℕ → Io × Result Error ReceiveEvent
  received n bytes = receive (take frame_bytes bytes) (record { stack = n.stack; response = n.tx })

  pub receive_loop : List Received → Network → Result Error Network
  receive_loop [] n = ok n
  receive_loop (not_ready ∷ rest) n = ok n
  receive_loop (failed ∷ rest) n = ok n
  receive_loop (frame bytes ∷ rest) n = do
    let r = received n bytes
    (n', stop) ← handle r.1 (record n { stack = r.0.stack; tx = r.0.response })
    elim stop [ true ↦ ok n' | false ↦ receive_loop rest n' ]

  pub poll_stack : Bool → List Received → Network → Result Error Network
  poll_stack recycled frames n = do
    n' ← send_pending (reclaim_transmit recycled n)
    receive_loop frames n'

  pub poll_mcp : Bool → List Received → Network → Result Error (Option CompleteMessage × Network)
  poll_mcp recycled frames n = do
    n' ← poll_stack recycled frames n
    ok (n'.inbox, record n' { inbox = none })
