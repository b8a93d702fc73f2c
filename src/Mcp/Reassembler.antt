-- ===== src/Mcp/Reassembler.antt =====
-- crates/nr-mcp/src/lib.rs: `Reassembler`, which collects the fragments of one message at a time.
-- `buffer` has the `MAX` bytes of the type's parameter; `received` is the `u64` of arrived indices.
pub mod Validity
pub mod Delivery
pub mod Order
use nightrun.Prelude.{
  ℕ, zero, suc, ◌+◌, ◌-◌, ◌*◌, ◌%◌, ◌^◌, bit_or, Bool, true, false, ◌&&◌, List, [], ◌∷◌, length,
  replicate, Option, none, some, ltb, ◌==◌, ◌!=◌, if◌then◌else◌, Result, ok, err, panic,
}
use nightrun.Prelude.Bytes.{sub, overwrite?}
use nightrun.Mcp.{
  Kind, host_request, kind_code, Error, message_too_large, checksum_mismatch, Fragment,
  CompleteMessage, parse_fragment, crc32, max_fragment_payload,
}

pub record Reassembler : Type 0 where
  pub buffer : List ℕ
  pub active : Bool
  pub kind : Kind
  pub message_id : ℕ
  pub count : ℕ
  pub total_len : ℕ
  pub checksum : ℕ
  pub received : ℕ

abbrev pub default : ℕ → Reassembler
default max = record {
  buffer = replicate max 0;
  active = false;
  kind = host_request;
  message_id = 0;
  count = 0;
  total_len = 0;
  checksum = 0;
  received = 0;
}

abbrev pub Reply : Type 0
Reply = Result Error (Option CompleteMessage)

pub same_message : Reassembler → Fragment → Bool
same_message r f =
    r.active
    && kind_code r.kind == kind_code f.kind
    && r.message_id == f.message_id
    && r.count == f.count
    && r.total_len == f.total_len
    && r.checksum == f.checksum

-- A fragment of another message replaces the one in flight.
pub restart : Reassembler → Fragment → Reassembler
restart r f = if same_message r f then r else record r {
  active = true;
  kind = f.kind;
  message_id = f.message_id;
  count = f.count;
  total_len = f.total_len;
  checksum = f.checksum;
  received = 0;
}

pub complete_mask : ℕ → ℕ
complete_mask count = if count == 64 then 2 ^ 64 - 1 else 2 ^ count % 2 ^ 64 - 1

-- The checksum test on a message whose fragments are all there.
pub deliver : Reassembler → Result Error (List ℕ) → Reply
deliver r (ok bytes) =
    if crc32 bytes != r.checksum
    then err checksum_mismatch
    else ok (some (record { kind = r.kind; message_id = r.message_id; payload = bytes }))
deliver r (err e) = err e
deliver r panic = panic

pub check_complete : Reassembler → Reassembler × Reply
check_complete r =
    if r.received != complete_mask r.count
    then (r, ok none)
    else (record r { active = false }, deliver r (sub r.buffer 0 r.total_len))

pub store : Reassembler → Fragment → Reassembler × Reply
store r f = elim (overwrite? r.buffer (f.index * max_fragment_payload) f.payload) [
  | none ↦ (r, panic)
  | some bytes ↦
      check_complete
        (record r { buffer = bytes; received = bit_or r.received (2 ^ f.index % 2 ^ 64) })
]

pub accept : ℕ → Reassembler → Fragment → Reassembler × Reply
accept max r f = if ltb max f.total_len then (r, err message_too_large) else store (restart r f) f

pub push : ℕ → Reassembler → List ℕ → Reassembler × Reply
push max r datagram = elim (parse_fragment datagram) [
  | ok f ↦ accept max r f
  | err e ↦ (r, err e)
  | panic ↦ (r, panic)
]

-- The replies to a sequence of datagrams.
pub run : ℕ → Reassembler → List (List ℕ) → List Reply
run max r [] = []
run max r (d ∷ rest) = (push max r d).1 ∷ run max (push max r d).0 rest
