-- ===== src/Examples/Boot.antt =====
-- The loader on a small model file that arrives in three reads.
use nightrun.Prelude.{
  ℕ, ◌*◌, ◌≡◌, ◌≢◌, refl, true, false, List, [], ◌∷◌, length-replicate, length-take, replicate,
  Result, ok, panic, take, drop, All-take, arith,
}
use nightrun.Prelude.Bytes.{IsByte, IsBytes}
use nightrun.Examples.Checks.{all_bytes, all_bytes-IsBytes}
use nightrun.Examples.File.{file}
use nightrun.Crc32
use nightrun.Nrm.Verify.{new, feed, finish}
use nightrun.Prelude.{some, Returns}
use nightrun.Mcp.{hello}
use nightrun.Boot.Network.{Network, Nic, initialized, frame, not_ready, offline, init}
use nightrun.Boot.Network.Running.{IsRunning}
use nightrun.Boot.Network.Session.{respond, request, poll, run_events, run_events-Returns}
use nightrun.Boot.ModelLoad.{Status, Firmware, load}
use nightrun.Boot.ModelLoad.Reads.{IsAnswer}
use nightrun.Boot.ModelLoad.Verified.{IsFirmware, IsVerified, load-ne-panic, load-IsVerified}

abbrev end_of_file : ℕ
end_of_file = 31

-- A read of at most `n` bytes.
abbrev slow_read : ℕ → List ℕ → ℕ → Result Status (List ℕ)
slow_read n bytes room = ok (take room (take n bytes))

slow_read-IsAnswer : (n : ℕ) (bytes : List ℕ) → IsBytes bytes → IsAnswer (slow_read n bytes)
slow_read-IsAnswer n bytes h = λ room. (
  All-take IsByte room (take n bytes) (All-take IsByte n bytes h),
  omega (arith, length-take room (take n bytes)),
)

abbrev three_reads : Firmware
three_reads = record {
  file_system = ok tt;
  volume = ok tt;
  open_file = ok tt;
  is_regular = true;
  file_size = ok 230;
  pages = λ n. ok (replicate (n * 4096) 0xaf);
  reads = slow_read 10 file ∷ slow_read 200 (drop 10 file) ∷ slow_read 300 (drop 210 file) ∷ [];
}

three_reads-IsFirmware : IsFirmware three_reads
three_reads-IsFirmware = record {
  file_system_replies = tt;
  volume_replies = tt;
  open_replies = tt;
  size_replies = tt;
  pages_replies = λ n. length-replicate (n * 4096) 0xaf;
  reads_reply = (
    slow_read-IsAnswer 10 file (all_bytes-IsBytes file (unfold all_bytes in refl)),
    (
      slow_read-IsAnswer 200 (drop 10 file)
          (all_bytes-IsBytes (drop 10 file) (unfold all_bytes in refl)),
      (
        slow_read-IsAnswer 300 (drop 210 file)
            (all_bytes-IsBytes (drop 210 file) (unfold all_bytes in refl)),
        tt,
      ),
    ),
  );
}

load-file : load end_of_file false three_reads ≡ ok file
unfolding load new feed finish Crc32.update Crc32.update_bytes Crc32.lookups Crc32.table
    Crc32.make_tables Crc32.next_rows Crc32.next_row Crc32.first_row Crc32.fill Crc32.bit_steps
    Crc32.bit_step Crc32.finish
load-file = refl

load-ne-panic_example : load end_of_file false three_reads ≢ panic
load-ne-panic_example = load-ne-panic end_of_file three_reads three_reads-IsFirmware

load-IsVerified_example : IsVerified three_reads file
load-IsVerified_example =
    load-IsVerified end_of_file three_reads three_reads-IsFirmware file load-file

abbrev nic : Nic
nic = record {
  found = true;
  state = initialized;
  starts = true;
  initializes = true;
  hw_address_size = 6;
  media_header_size = 14;
  filters = true;
  current_address = 82 ∷ 84 ∷ 0 ∷ 18 ∷ 52 ∷ 86 ∷ 0 ∷ 0 ∷ [];
}

abbrev started : Network
started = record (offline (82 ∷ 84 ∷ 0 ∷ 18 ∷ 52 ∷ 86 ∷ [])) {
  pending = record { kind = hello; message_id = 0; json = 0x7b ∷ 0x7d ∷ []; fragment = 0 } ∷ [];
}

init-started : init nic ≡ some started
unfolding init
init-started = refl

-- The interface takes every frame; a request is queued, and two polls see a short frame.
run_events-Returns_example : Returns IsRunning (
    run_events
      (λ sent bytes. true)
      (request (0x7b ∷ 0x7d ∷ [])
        ∷ poll false (frame (1 ∷ 2 ∷ []) ∷ not_ready ∷ [])
        ∷ respond 4 (0x31 ∷ [])
        ∷ poll true []
        ∷ [])
      started)
run_events-Returns_example =
    run_events-Returns (λ sent bytes. true)
      (request (0x7b ∷ 0x7d ∷ [])
        ∷ poll false (frame (1 ∷ 2 ∷ []) ∷ not_ready ∷ [])
        ∷ respond 4 (0x31 ∷ [])
        ∷ poll true []
        ∷ [])
      nic started (omega arith) (omega arith) init-started
