-- ===== src/Examples/Messages.antt =====
-- The checksums and the datagrams of MCP messages at concrete inputs.
use nightrun.Prelude.{
  ℕ, ◌*◌, ◌<◌, ◌≤◌, ◌≡◌, ◌≢◌, refl, true, List, [], ◌∷◌, ◌++◌, map, length, take, drop, replicate,
  ok, Safe, arith,
}
use nightrun.Crc32
use nightrun.Crc32.Classic.{classic, update-classic, update-append}
use nightrun.Mcp.{hello, crc32, parse_fragment, encode_fragment}
use nightrun.Mcp.Checksum.{crc32-checksum}
use nightrun.Mcp.Parse.{IsWellFormed, parse_fragment-Safe}
use nightrun.Mcp.Codec.{fragment_of, datagram_of, parse_fragment-encode_fragment}
use nightrun.Mcp.Reassembler.{default, push, run}
use nightrun.Mcp.Reassembler.Validity.{IsValid, IsBounded, push-IsValid, default-IsValid}
use nightrun.Mcp.Reassembler.Order.{contains, replies, run-any_order}

abbrev digits : List ℕ
digits = 49 ∷ 50 ∷ 51 ∷ 52 ∷ 53 ∷ 54 ∷ 55 ∷ 56 ∷ 57 ∷ []

update-classic_example : Crc32.update Crc32.new digits ≡ classic Crc32.new digits
update-classic_example = update-classic Crc32.new digits (omega arith) (omega arith)

update-append_example :
    Crc32.update (Crc32.update Crc32.new digits) digits ≡ Crc32.update Crc32.new (digits ++ digits)
update-append_example =
    update-append Crc32.new digits digits (omega arith) (omega arith) (omega arith)

crc32-checksum_example : crc32 digits ≡ Crc32.checksum digits
crc32-checksum_example = crc32-checksum digits (omega arith)

parse_fragment-Safe_example : Safe IsWellFormed (parse_fragment (datagram_of hello 7 digits 0))
parse_fragment-Safe_example = parse_fragment-Safe (datagram_of hello 7 digits 0)

parse_fragment-encode_fragment_example :
    (len : ℕ) × (o : List ℕ) × (encode_fragment hello 7 digits 0 (replicate 40 0) ≡ ok (len, o))
    × (parse_fragment (take len o) ≡ ok (fragment_of hello 7 digits 0))
    × (drop len o ≡ drop len (replicate 40 0))
parse_fragment-encode_fragment_example =
    parse_fragment-encode_fragment hello 7 digits 0 (replicate 40 0) (omega arith, omega arith)
      (omega arith) (omega arith) (omega arith)

push-IsValid_example :
    IsValid 16 (push 16 (default 16) (datagram_of hello 7 digits 0)).0
    × Safe (IsBounded 16) (push 16 (default 16) (datagram_of hello 7 digits 0)).1
push-IsValid_example =
    push-IsValid 16 (default 16) (datagram_of hello 7 digits 0) (default-IsValid 16)

-- A message of two fragments.
abbrev long : List ℕ
long = replicate 1180 7

long-sendable : (0 < length long) × (length long ≤ 64 * 1176)
long-sendable = (omega arith, omega arith)

first_there : (j : ℕ) → j < 2 → j ≢ 1 → contains j (0 ∷ 0 ∷ []) ≡ true
first_there j h ne = ground arith

run-any_order_example :
    run 2000 (default 2000) (map (datagram_of hello 7 long) (0 ∷ 0 ∷ 1 ∷ []))
    ≡ replies hello 7 long long-sendable (omega arith) 2000 (omega arith) (0 ∷ 0 ∷ [])
run-any_order_example =
    run-any_order hello 7 long long-sendable (omega arith) 2000 (omega arith) (default 2000)
      (0 ∷ 0 ∷ []) 1 refl (omega arith) (omega arith)
      (
        (omega arith, λ (e : 0 ≡ 1). absurd (omega arith)),
        ((omega arith, λ (e : 0 ≡ 1). absurd (omega arith)), tt),
      )
      first_there
