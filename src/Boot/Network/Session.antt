-- ===== src/Boot/Network/Session.antt =====
-- The adapter from its start on, through any sequence of calls.
use nightrun.Prelude.{
  ℕ, ◌≤◌, ◌≡◌, refl, subst, Bool, Bool-cases, inl, inr, ◌&&◌, List, [], ◌∷◌, length, length-take,
  length-replicate, take, All-take, none, some, ◌==◌, Result, ok, ◌>>=◌, Returns, Returns-then,
  arith,
}
use nightrun.Prelude.Bytes.{IsByte, IsBytes}
use nightrun.Net.Types.{MacAddress, Error}
use nightrun.Net.Cache
use nightrun.Net.Cache.Lookup.{new-IsReady}
use nightrun.Mcp.{hello, max_datagram}
use nightrun.Mcp.Reassembler.Validity.{default-IsValid}
use nightrun.Boot.Network.{
  Network, Nic, Received, frame_bytes, max_mcp_message, offline, is_up, init, queue, queue_response,
  queue_upstream_request, poll_mcp, empty_object,
}
use nightrun.Boot.Network.Running.{IsRunning, queue-IsRunning, queue_upstream_request-IsRunning}
use nightrun.Boot.Network.Polling.{poll_mcp-Returns}

-- The calls of the application; a poll with what the firmware answers to it.
pub data Event : Type 0 where
  respond : ℕ → List ℕ → Event
  request : List ℕ → Event
  poll : Bool → List Received → Event

module _ (accepts : List (List ℕ) → List ℕ → Bool) where
  abbrev pub run_event : Event → Network → Result Error Network
  run_event (respond id json) n = ok (queue_response id json n)
  run_event (request json) n = ok (queue_upstream_request json n).1
  run_event (poll recycled frames) n = do p ← poll_mcp accepts recycled frames n; ok p.1

  abbrev pub run_events : List Event → Network → Result Error Network
  run_events [] n = ok n
  run_events (e ∷ es) n = do n' ← run_event e n; run_events es n'

  run_event-Returns : (e : Event) (n : Network) → IsRunning n → Returns IsRunning (run_event e n)
  unfolding queue_response
  run_event-Returns (respond id json) n r = queue-IsRunning _ id json r
  run_event-Returns (request json) n r = queue_upstream_request-IsRunning json r
  run_event-Returns (poll recycled frames) n r =
      Returns-then IsRunning _ (poll_mcp accepts recycled frames n) _
        (poll_mcp-Returns accepts recycled frames n r) λ p _ h. h.1

  run_events-IsRunning :
      (es : List Event) (n : Network) → IsRunning n → Returns IsRunning (run_events es n)
  run_events-IsRunning [] n r = r
  run_events-IsRunning (e ∷ es) n r =
      Returns-then IsRunning IsRunning (run_event e n) (run_events es) (run_event-Returns e n r)
        λ n' _ h. run_events-IsRunning es n' h

offline-IsRunning : (mac : MacAddress) → length mac ≡ 6 → IsBytes mac → IsRunning (offline mac)
unfolding Cache.new
offline-IsRunning mac six bytes = record {
  sound = record {
    ready = unfold Cache.new in new-IsReady 8 _;
    config_ok = record { mac_ok = (six, bytes); address_ok = (refl, omega arith) };
    macs = (refl, (refl, (refl, (refl, (refl, (refl, (refl, (refl, tt))))))));
  };
  gateway_set = refl;
  assembling = default-IsValid max_mcp_message;
  waiting = tt;
  tx_sized = length-replicate {A = ℕ} frame_bytes 0;
  datagram_sized = length-replicate {A = ℕ} max_datagram 0;
  id_set = (omega arith, omega arith);
  bounded = tt;
}

init-IsRunning :
    (nic : Nic) (n : Network)
    → 6 ≤ length nic.current_address
    → IsBytes nic.current_address
    → init nic ≡ some n
    → IsRunning n
unfolding init
init-IsRunning nic n six bytes e =
    elim (Bool-cases (
      nic.found
      && is_up nic
      && nic.hw_address_size == 6
      && nic.media_header_size == 14
      && nic.filters)) [
        | inl up ↦ started (rw up at e)
        | inr down ↦ absurd (let e' : none ≡ some n = rw down at e in cc)
      ]
  where
    mac : MacAddress
    mac = take 6 nic.current_address

    started : some (queue hello 0 empty_object (offline mac)) ≡ some n → IsRunning n
    started h =
        let same : queue hello 0 empty_object (offline mac) ≡ n = cc in
        subst IsRunning same (
          queue-IsRunning hello 0 empty_object (
            offline-IsRunning mac (omega (arith, length-take 6 nic.current_address))
              (All-take IsByte 6 nic.current_address bytes)))

-- From a start on an interface that reports a hardware address of six bytes or more, through any
-- responses, requests and polls, whatever frames the interface delivers, accepts or refuses: no
-- call panics, and the invariant holds behind them. It keeps the ARP cache and the reassembler
-- well formed, every waiting message within the size bounds and short of its last fragment, the
-- message ids nonzero words and a received message within its bounds.
pub run_events-Returns :
    (accepts : List (List ℕ) → List ℕ → Bool) (es : List Event) (nic : Nic) (n : Network)
    → 6 ≤ length nic.current_address
    → IsBytes nic.current_address
    → init nic ≡ some n
    → Returns IsRunning (run_events accepts es n)
run_events-Returns accepts es nic n six bytes e =
    run_events-IsRunning accepts es n (init-IsRunning nic n six bytes e)
