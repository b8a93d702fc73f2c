-- ===== src/Tensor/Pool.antt =====
-- crates/nr-tensor/src/parallel.rs: the pool and its threads. Each step of a thread is one access
-- to the shared atomics, and a schedule says which thread takes the next step. The counters are
-- read as numbers without a bound.
mod Counts
pub mod Invariant
use nightrun.Prelude.{
  ℕ, zero, suc, ◌+◌, ◌*◌, ◌/◌, min, max, Bool, true, false, ◌&&◌, ◌||◌, List, [], ◌∷◌, ◌++◌, length,
  replicate, get_elem?, set, Option, none, some, ltb, leb, ◌==◌, ◌≡◌, if◌then◌else◌,
}

-- `Pool`
pub record Shared : Type 0 where
  pub seq : ℕ
  pub cursor : ℕ
  pub total : ℕ
  pub chunk : ℕ
  pub done : ℕ
  pub task : ℕ
  pub workers : ℕ
  pub ready : ℕ

abbrev pub new : Shared
new = record {
  seq = 0;
  cursor = 0;
  total = 0;
  chunk = 1;
  done = 0;
  task = 0;
  workers = 0;
  ready = 0;
}

-- `activate`; none where its assertion fails.
pub activate : ℕ → Shared → Option Shared
activate n p = if leb n p.ready then some (record p { workers = n }) else none

-- One call of `run` of a task: the task's address and the range.
pub record Call : Type 0 where
  pub of : ℕ
  pub start : ℕ
  pub stop : ℕ

-- A thread in `drain`, with the values that it has read: about to load `total`, to load `chunk`, to
-- claim a range, in the middle of a call, or at the end.
pub data Drain : Type 0 where
  entered : Drain
  sized : ℕ → Drain
  claiming : ℕ → ℕ → Drain
  calling : ℕ → ℕ → ℕ → Drain
  drained : Drain

-- One step of `drain` for the task at an address; a call is recorded when it returns.
pub drain_step : Shared → ℕ → Drain → Shared × Drain × List Call
drain_step p task entered = (p, sized p.total, [])
drain_step p task (sized total) = (p, claiming total (max p.chunk 1), [])
drain_step p task (claiming total chunk) = (
  record p { cursor = p.cursor + chunk },
  if leb total p.cursor then drained else calling total chunk p.cursor,
  [],
)
drain_step p task (calling total chunk start) = (
  p,
  claiming total chunk,
  record { of = task; start = start; stop = min (start + chunk) total } ∷ [],
)
drain_step p task drained = (p, drained, [])

-- A thread in `worker_loop`: before `ready` is counted up, before the first load of `seq`, at the
-- head of the loop with `last`, before the load of `task`, and in `drain`.
pub data Worker : Type 0 where
  starting : Worker
  joined : Worker
  polling : ℕ → Worker
  fetching : ℕ → Worker
  draining : ℕ → ℕ → Drain → Worker

pub worker_drains : ℕ → ℕ → Shared × Drain × List Call → Shared × Worker × List Call
worker_drains last task (p, d, calls) = (p, draining last task d, calls)

pub worker_step : Shared → Worker → Shared × Worker × List Call
worker_step p starting = (record p { ready = p.ready + 1 }, joined, [])
worker_step p joined = (p, polling p.seq, [])
worker_step p (polling last) = (p, if p.seq == last then polling last else fetching p.seq, [])
worker_step p (fetching last) = (p, draining last p.task entered, [])
worker_step p (draining last task drained) = (record p { done = p.done + 1 }, polling last, [])
worker_step p (draining last task entered) = worker_drains last task (drain_step p task entered)
worker_step p (draining last task (sized total)) =
    worker_drains last task (drain_step p task (sized total))
worker_step p (draining last task (claiming total chunk)) =
    worker_drains last task (drain_step p task (claiming total chunk))
worker_step p (draining last task (calling total chunk start)) =
    worker_drains last task (drain_step p task (calling total chunk start))

-- The main thread: outside `run`, with what the last call of `run` was about, before each of the six
-- stores of `run`, in its own `drain`, and in the loop that waits.
pub data Main : Type 0 where
  idle : ℕ → ℕ → Main
  inline : ℕ → ℕ → Main
  set_total : ℕ → ℕ → Main
  set_cursor : ℕ → ℕ → Main
  set_chunk : ℕ → ℕ → Main
  set_done : ℕ → ℕ → Main
  set_task : ℕ → ℕ → Main
  set_seq : ℕ → ℕ → Main
  main_drains : ℕ → ℕ → Drain → Main
  waiting : ℕ → ℕ → Main

-- `(total / ((n + 1) * 4)).max(16)`
abbrev pub chunk_size : ℕ → ℕ → ℕ
chunk_size total n = max (total / ((n + 1) * 4)) 16

-- The entry of `run` for a task at an address, and its first test.
unfoldable pub enter : Shared → ℕ → ℕ → Main
enter p total task =
    if p.workers == 0 || ltb total 128 then inline total task else set_total total task

pub drains_on : ℕ → ℕ → Shared × Drain × List Call → Shared × Main × List Call
drains_on total task (p, drained, calls) = (p, waiting total task, calls)
drains_on total task (p, d, calls) = (p, main_drains total task d, calls)

pub main_step : Shared → Main → Shared × Main × List Call
main_step p (idle total task) = (p, idle total task, [])
main_step p (inline total task) =
    (p, idle total task, record { of = task; start = 0; stop = total } ∷ [])
main_step p (set_total total task) = (record p { total = total }, set_cursor total task, [])
main_step p (set_cursor total task) = (record p { cursor = 0 }, set_chunk total task, [])
main_step p (set_chunk total task) =
    (record p { chunk = chunk_size total p.workers }, set_done total task, [])
main_step p (set_done total task) = (record p { done = 0 }, set_task total task, [])
main_step p (set_task total task) = (record p { task = task }, set_seq total task, [])
main_step p (set_seq total task) =
    (record p { seq = p.seq + 1 }, main_drains total task entered, [])
main_step p (main_drains total task d) = drains_on total task (drain_step p task d)
main_step p (waiting total task) =
    (p, if ltb p.done p.workers then waiting total task else idle total task, [])

-- The threads together; `calls` are those that returned since `run` was last entered.
pub record System : Type 0 where
  pub shared : Shared
  pub main : Main
  pub workers : List Worker
  pub calls : List Call

abbrev main_stepped : System → Shared × Main × List Call → System
main_stepped s (p, m, calls) = record s { shared = p; main = m; calls = calls ++ s.calls }

abbrev worker_stepped : System → ℕ → Shared × Worker × List Call → System
worker_stepped s i (p, w, calls) = record s {
  shared = p;
  workers = set s.workers i w;
  calls = calls ++ s.calls;
}

unfoldable pub turn_main : System → System
unfolding main_step drains_on drain_step
turn_main s = main_stepped s (main_step s.shared s.main)

abbrev turn_of : System → ℕ → Option Worker → System
turn_of s i none = s
turn_of s i (some w) = worker_stepped s i (worker_step s.shared w)

unfoldable pub turn_worker : ℕ → System → System
unfolding worker_step worker_drains drain_step
turn_worker i s = turn_of s i (get_elem? s.workers i)

-- What can happen: any thread takes a step, or the main thread, outside `run`, enters it.
pub data Step : System → System → Type 0 where
  main_turn : (s : System) → Step s (turn_main s)
  worker_turn : (i : ℕ) (s : System) → Step s (turn_worker i s)
  run :
      (s : System) (total task old_total old_task : ℕ)
      → s.main ≡ idle old_total old_task
      → Step s (record s { main = enter s.shared total task; calls = [] })

pub data Reach (s : System) : System → Type 0 where
  here : Reach s s
  next : {t u : System} → Reach s t → Step t u → Reach s u

-- A pool of `n` workers, all at the head of their loop, activated for `n`.
abbrev pub activated : ℕ → System
activated n = record {
  shared = record new { workers = n; ready = n };
  main = idle 0 0;
  workers = replicate n (polling 0);
  calls = [];
}
