-- ===== src/Examples/Memory.antt =====
-- The arena and the clock at concrete inputs.
use nightrun.Prelude.{◌+◌, ◌*◌, ◌^◌, ◌≤◌, ◌<◌, ◌≡◌, refl, [], ◌∷◌, some, arith}
use nightrun.Runtime.Arena.{Arena, alloc_bytes}
use nightrun.Runtime.Arena.Blocks.{IsBlock, alloc_bytes-IsBlock, InOrder, blocks, blocks-InOrder}
use nightrun.Runtime.Clock.{Clock, rate_milli, rate_milli-IsQuotient}

abbrev half_used : Arena
half_used = record { size = 4096; offset = 1000 }

-- A block of 10 bytes at the next multiple of 64.
block : alloc_bytes half_used 10 (2 ^ 6) ≡ some (1024, record { size = 4096; offset = 1034 })
unfolding alloc_bytes
block = refl

alloc_bytes-IsBlock_example : IsBlock half_used 10 6 (1024, record { size = 4096; offset = 1034 })
alloc_bytes-IsBlock_example =
    alloc_bytes-IsBlock half_used 10 6 (1024, record { size = 4096; offset = 1034 }) (omega arith)
      block

blocks-InOrder_example : InOrder 1000 4096 (blocks half_used ((10, 6) ∷ (100, 3) ∷ (5000, 0) ∷ []))
blocks-InOrder_example =
    blocks-InOrder half_used ((10, 6) ∷ (100, 3) ∷ (5000, 0) ∷ [])
      (omega arith, (omega arith, (omega arith, tt)))

abbrev clock : Clock
clock = record { ticks_per_ms = 1000 }

rate_milli-IsQuotient_example :
    (rate_milli clock 7 3_000_500 * 3000 ≤ 7 * 1_000_000)
    × (7 * 1_000_000 < (rate_milli clock 7 3_000_500 + 1) * 3000)
rate_milli-IsQuotient_example =
    rate_milli-IsQuotient clock 7 3_000_500 3000 (omega arith) (omega arith) (omega arith)
      (omega arith) (omega arith)
