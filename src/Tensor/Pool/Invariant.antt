-- ===== src/Tensor/Pool/Invariant.antt =====
-- What holds of the pool at every point of a schedule.
mod Quiet
mod Busy
mod Workers
mod Caller
pub mod Covered
use nightrun.Prelude.{
  ℕ, zero, suc, ◌+◌, ◌≤◌, ◌<◌, ◌≡◌, min, Bool, true, false, ◌&&◌, List, [], ◌∷◌, length, All, ltb,
  leb, ◌==◌, if◌then◌else◌,
}
use nightrun.Tensor.Pool.{
  Shared, Call, Drain, entered, sized, claiming, calling, drained, Worker, starting, joined,
  polling, fetching, draining, Main, idle, inline, set_total, set_cursor, set_chunk, set_done,
  set_task, set_seq, main_drains, waiting, System, chunk_size,
}
use nightrun.Tensor.Pool.Counts.{sum_of}

-- How often a range, a call that returned and a thread's call cover an index: once or not at all.
abbrev pub covers : ℕ → ℕ → ℕ → ℕ
covers i start stop = if leb start i && ltb i stop then 1 else 0

abbrev pub call_hits : ℕ → Call → ℕ
call_hits i c = covers i c.start c.stop

abbrev pub drain_hits : ℕ → Drain → ℕ
drain_hits i entered = 0
drain_hits i (sized total) = 0
drain_hits i (claiming total chunk) = 0
drain_hits i (calling total chunk start) = covers i start (min (start + chunk) total)
drain_hits i drained = 0

abbrev pub worker_hits : ℕ → Worker → ℕ
worker_hits i starting = 0
worker_hits i joined = 0
worker_hits i (polling last) = 0
worker_hits i (fetching last) = 0
worker_hits i (draining last task d) = drain_hits i d

-- How often the calls that returned cover an index.
abbrev pub hits : ℕ → List Call → ℕ
hits i calls = sum_of (call_hits i) calls

-- The thread holds no task and has seen all that was posted.
abbrev pub IsParked : ℕ → Worker → Type 0
IsParked seq starting = ⊥
IsParked seq joined = ⊥
IsParked seq (polling last) = last ≡ seq
IsParked seq (fetching last) = ⊥
IsParked seq (draining last task d) = ⊥

abbrev pub parked : ℕ → Worker → ℕ
parked seq starting = 0
parked seq joined = 0
parked seq (polling last) = if last == seq then 1 else 0
parked seq (fetching last) = 0
parked seq (draining last task d) = 0

-- What a thread in `drain` has read is what `run` has stored.
abbrev pub DrainFits : ℕ → ℕ → Drain → Type 0
DrainFits total chunk entered = Unit
DrainFits total chunk (sized t) = t ≡ total
DrainFits total chunk (claiming t c) = (t ≡ total) × (c ≡ chunk)
DrainFits total chunk (calling t c start) = (t ≡ total) × (c ≡ chunk)
DrainFits total chunk drained = Unit

abbrev pub WorkerFits : ℕ → ℕ → ℕ → ℕ → Worker → Type 0
WorkerFits seq task total chunk starting = ⊥
WorkerFits seq task total chunk joined = ⊥
WorkerFits seq task total chunk (polling last) = (last ≤ seq) × (seq ≤ last + 1)
WorkerFits seq task total chunk (fetching last) = last ≡ seq
WorkerFits seq task total chunk (draining last t d) =
    (last ≡ seq) × (t ≡ task) × DrainFits total chunk d

-- Outside `run`, and in it before `seq` is counted up.
pub record IsQuiet (p : Shared) (ws : List Worker) : Type 0 where
  pub counted : length ws ≡ p.workers
  pub all_parked : All (IsParked p.seq) ws

-- While the threads drain; `d` is what the main thread does.
pub record IsBusy (p : Shared) (ws : List Worker) (calls : List Call) (total task chunk : ℕ)
    (d : Drain) : Type 0 where
  pub counted : length ws ≡ p.workers
  pub total_stored : p.total ≡ total
  pub task_stored : p.task ≡ task
  pub chunk_stored : p.chunk ≡ chunk
  pub chunk_pos : 0 < chunk
  pub fits : All (WorkerFits p.seq task total chunk) ws
  pub done_counted : p.done ≡ sum_of (parked p.seq) ws
  pub of_task : All (λ (c : Call). c.of ≡ task) calls
  pub hit_once :
      (i : ℕ)
      → hits i calls + sum_of (worker_hits i) ws + drain_hits i d
        ≡ (if ltb i (min p.cursor total) then 1 else 0)

-- The main thread's own part of the invariant.
pub Phase : Shared → List Worker → List Call → Main → Type 0
Phase p ws calls (idle total task) =
    IsQuiet p ws
    × All (λ (c : Call). c.of ≡ task) calls
    × ((i : ℕ) → hits i calls ≡ (if ltb i total then 1 else 0))
Phase p ws calls (inline total task) = IsQuiet p ws × (calls ≡ [])
Phase p ws calls (set_total total task) = IsQuiet p ws × (calls ≡ [])
Phase p ws calls (set_cursor total task) = IsQuiet p ws × (calls ≡ []) × (p.total ≡ total)
Phase p ws calls (set_chunk total task) =
    IsQuiet p ws × (calls ≡ []) × (p.total ≡ total) × (p.cursor ≡ 0)
Phase p ws calls (set_done total task) =
    IsQuiet p ws × (calls ≡ []) × (p.total ≡ total) × (p.cursor ≡ 0) × (0 < p.chunk)
Phase p ws calls (set_task total task) =
    IsQuiet p ws × (calls ≡ []) × (p.total ≡ total) × (p.cursor ≡ 0) × (0 < p.chunk) × (p.done ≡ 0)
Phase p ws calls (set_seq total task) =
    IsQuiet p ws
    × (calls ≡ [])
    × (p.total ≡ total)
    × (p.cursor ≡ 0)
    × (0 < p.chunk)
    × (p.done ≡ 0)
    × (p.task ≡ task)
Phase p ws calls (main_drains total task drained) = ⊥
Phase p ws calls (main_drains total task d) =
    (chunk : ℕ) × IsBusy p ws calls total task chunk d × DrainFits total chunk d
Phase p ws calls (waiting total task) =
    (chunk : ℕ) × IsBusy p ws calls total task chunk drained × (total ≤ p.cursor)
