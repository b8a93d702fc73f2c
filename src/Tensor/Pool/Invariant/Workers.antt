-- ===== src/Tensor/Pool/Invariant/Workers.antt =====
-- A turn of a worker.
use nightrun.Prelude.{ℕ, ◌≤◌, ◌≡◌, List, [], ◌++◌, set, get_elem?, some, arith}
use nightrun.Tensor.Pool.{
  Shared, Call, Drain, entered, sized, claiming, calling, drained, Worker, Main, idle, inline,
  set_total, set_cursor, set_chunk, set_done, set_task, set_seq, main_drains, waiting, worker_step,
}
use nightrun.Tensor.Pool.Counts.{set_self, All-get_elem?}
use nightrun.Tensor.Pool.Invariant.{IsQuiet, IsBusy, Phase}
use nightrun.Tensor.Pool.Invariant.Quiet.{worker_step-IsParked}
use nightrun.Tensor.Pool.Invariant.Busy.{worker_step-IsBusy}

module _ (p : Shared) (ws : List Worker) (calls : List Call) (i : ℕ) (w : Worker)
    (at : get_elem? ws i ≡ some w) where
  quiet_turn : IsQuiet p ws → worker_step p w ≡ (p, w, [])
  quiet_turn q = worker_step-IsParked p w (All-get_elem? _ ws i w q.all_parked at)

  IsBusy-turn :
      (total task chunk : ℕ) (d : Drain)
      → IsBusy p ws calls total task chunk d
      → let r = worker_step p w in
        IsBusy r.0 (set ws i r.1) (r.2 ++ calls) total task chunk d × (p.cursor ≤ r.0.cursor)
  IsBusy-turn total task chunk d b =
      worker_step-IsBusy p ws calls total task chunk d b i w at (All-get_elem? _ ws i w b.fits at)

  -- A turn of a worker; a worker that is parked changes nothing.
  pub worker_turn-Phase :
      (m : Main)
      → Phase p ws calls m
      → let r = worker_step p w in Phase r.0 (set ws i r.1) (r.2 ++ calls) m
  unfolding Phase
  worker_turn-Phase (idle total task) h = rw (quiet_turn h.0, set_self ws i w at) h
  worker_turn-Phase (inline total task) h = rw (quiet_turn h.0, set_self ws i w at) h
  worker_turn-Phase (set_total total task) h = rw (quiet_turn h.0, set_self ws i w at) h
  worker_turn-Phase (set_cursor total task) h = rw (quiet_turn h.0, set_self ws i w at) h
  worker_turn-Phase (set_chunk total task) h = rw (quiet_turn h.0, set_self ws i w at) h
  worker_turn-Phase (set_done total task) h = rw (quiet_turn h.0, set_self ws i w at) h
  worker_turn-Phase (set_task total task) h = rw (quiet_turn h.0, set_self ws i w at) h
  worker_turn-Phase (set_seq total task) h = rw (quiet_turn h.0, set_self ws i w at) h
  worker_turn-Phase (main_drains total task drained) h = h
  worker_turn-Phase (main_drains total task entered) h =
      (h.0, (IsBusy-turn total task h.0 entered h.1).0, h.2)
  worker_turn-Phase (main_drains total task (sized t)) h =
      (h.0, (IsBusy-turn total task h.0 (sized t) h.1).0, h.2)
  worker_turn-Phase (main_drains total task (claiming t c)) h =
      (h.0, (IsBusy-turn total task h.0 (claiming t c) h.1).0, h.2)
  worker_turn-Phase (main_drains total task (calling t c start)) h =
      (h.0, (IsBusy-turn total task h.0 (calling t c start) h.1).0, h.2)
  worker_turn-Phase (waiting total task) h =
      let (b, le) = IsBusy-turn total task h.0 drained h.1 in (h.0, b, omega arith)
