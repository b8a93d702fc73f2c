-- ===== src/Boot/Network/Running.antt =====
-- What holds of the adapter between its calls, whatever the firmware answers.
use nightrun.Prelude.{
  ℕ, ◌^◌, ◌≤◌, ◌<◌, ◌≡◌, ap, ◌∙◌, Bool, not, ◌&&◌, Bool-cases, inl, inr, List, length, All,
  All-append, Option, leb, ◌==◌, arith,
}
use nightrun.Net.Types.{Config, Stack}
use nightrun.Net.Receive.Handlers.{IsSound}
use nightrun.Mcp.{Kind, CompleteMessage, max_datagram}
use nightrun.Mcp.Codec.{count_of}
use nightrun.Mcp.Reassembler.{Reassembler}
use nightrun.Mcp.Reassembler.Validity.{IsValid, IsBounded}
use nightrun.Boot.Network.{
  Network, PendingMessage, frame_bytes, max_mcp_message, gateway, queue, queue_upstream_request,
}

-- A message that waits: its size is within the bounds, and fragments are left to send.
abbrev pub IsWaiting : PendingMessage → Type 0
IsWaiting m =
    (0 < length m.json) × (length m.json ≤ max_mcp_message) × (m.fragment < count_of m.json)

pub record IsRunning (n : Network) : Type 0 where
  pub sound : IsSound n.stack
  pub gateway_set : n.stack.config.gateway ≡ gateway
  pub assembling : IsValid max_mcp_message n.reassembler
  pub waiting : All IsWaiting n.pending
  pub tx_sized : length n.tx ≡ frame_bytes
  pub datagram_sized : length n.mcp_datagram ≡ max_datagram
  pub id_set : (0 < n.next_message_id) × (n.next_message_id < 2 ^ 32)
  pub bounded : IsBounded max_mcp_message n.inbox

-- Changes of the fields that the invariant is about, one at a time.
module _ {n : Network} (r : IsRunning n) where
  pub with_pending :
      (ms : List PendingMessage) → All IsWaiting ms → IsRunning (record n { pending = ms })
  with_pending ms h = record {
    sound = r.sound;
    gateway_set = r.gateway_set;
    assembling = r.assembling;
    waiting = h;
    tx_sized = r.tx_sized;
    datagram_sized = r.datagram_sized;
    id_set = r.id_set;
    bounded = r.bounded;
  }

  pub with_stack :
      (s : Stack) (o : List ℕ)
      → IsSound s
      → s.config ≡ n.stack.config
      → length o ≡ length n.tx
      → IsRunning (record n { stack = s; tx = o })
  with_stack s o h e l = record {
    sound = h;
    gateway_set = ap (λ (c : Config). c.gateway) e ∙ r.gateway_set;
    assembling = r.assembling;
    waiting = r.waiting;
    tx_sized = l ∙ r.tx_sized;
    datagram_sized = r.datagram_sized;
    id_set = r.id_set;
    bounded = r.bounded;
  }

  pub with_reassembler :
      (a : Reassembler) (i : Option CompleteMessage)
      → IsValid max_mcp_message a
      → IsBounded max_mcp_message i
      → IsRunning (record n { reassembler = a; inbox = i })
  with_reassembler a i h b = record {
    sound = r.sound;
    gateway_set = r.gateway_set;
    assembling = h;
    waiting = r.waiting;
    tx_sized = r.tx_sized;
    datagram_sized = r.datagram_sized;
    id_set = r.id_set;
    bounded = b;
  }

  pub with_transmit :
      (bytes : List ℕ) (busy : Bool) (sent : List (List ℕ)) (id : ℕ)
      → length bytes ≡ max_datagram
      → (0 < id) × (id < 2 ^ 32)
      → IsRunning
          (record n { mcp_datagram = bytes; tx_busy = busy; sent = sent; next_message_id = id })
  with_transmit bytes busy sent id l i = record {
    sound = r.sound;
    gateway_set = r.gateway_set;
    assembling = r.assembling;
    waiting = r.waiting;
    tx_sized = r.tx_sized;
    datagram_sized = l;
    id_set = i;
    bounded = r.bounded;
  }

-- `queue` and its callers keep the invariant.
pub queue-IsRunning :
    (kind : Kind) (message_id : ℕ) (json : List ℕ) {n : Network}
    → IsRunning n
    → IsRunning (queue kind message_id json n)
unfolding queue
queue-IsRunning kind id json {n = n} r =
    elim (Bool-cases (leb (length json) max_mcp_message && not (length json == 0))) [
      | inl taken ↦ rw taken (
          with_pending r _ (
            All-append IsWaiting n.pending _ r.waiting
              ((ground arith, ground arith, ground arith), tt)))
      | inr refused ↦ rw refused r
    ]

pub queue_upstream_request-IsRunning :
    (json : List ℕ) {n : Network} → IsRunning n → IsRunning (queue_upstream_request json n).1
unfolding queue_upstream_request
queue_upstream_request-IsRunning json {n = n} r =
    queue-IsRunning _ _ json
      (with_transmit r n.mcp_datagram n.tx_busy n.sent _ r.datagram_sized (omega arith))
