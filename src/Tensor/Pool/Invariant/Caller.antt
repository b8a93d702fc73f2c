-- ===== src/Tensor/Pool/Invariant/Caller.antt =====
-- A turn of the main thread.
use nightrun.Prelude.{
  ℕ, ◌+◌, ◌≤◌, ◌<◌, ◌≡◌, min, max, List, [], ◌∷◌, ◌++◌, ltb, leb, ◌==◌, if◌then◌else◌, arith, refl,
  Bool-cases, inl, inr, ◌||◌,
}
use nightrun.Tensor.Pool.{
  Shared, Call, Drain, entered, sized, claiming, calling, drained, Worker, Main, idle, inline,
  set_total, set_cursor, set_chunk, set_done, set_task, set_seq, main_drains, waiting, drain_step,
  main_step, drains_on, enter,
}
use nightrun.Tensor.Pool.Invariant.{hits, DrainFits, IsQuiet, IsBusy, Phase}
use nightrun.Tensor.Pool.Invariant.Quiet.{
  posted-WorkerFits, posted-parked, no_hits, all_counted-IsParked,
}
use nightrun.Tensor.Pool.Invariant.Busy.{drain_replace-IsBusy}

-- `seq.fetch_add`: from here on the threads drain.
posted-IsBusy :
    (p : Shared) (ws : List Worker) (total task : ℕ)
    → IsQuiet p ws
    → p.total ≡ total
    → p.cursor ≡ 0
    → 0 < p.chunk
    → p.done ≡ 0
    → p.task ≡ task
    → IsBusy (record p { seq = p.seq + 1 }) ws [] total task p.chunk entered
posted-IsBusy p ws total task q st sc pos sd sk = record {
  counted = q.counted;
  total_stored = st;
  task_stored = sk;
  chunk_stored = refl;
  chunk_pos = pos;
  fits = posted-WorkerFits p.seq task total p.chunk ws q.all_parked;
  done_counted = omega (arith, posted-parked p.seq ws q.all_parked);
  of_task = tt;
  hit_once = λ i. ground (arith, no_hits p.seq i ws q.all_parked);
}

-- The loop that waits ends only when all are parked; every index was covered once.
returned-IsQuiet :
    (p : Shared) (ws : List Worker) (calls : List Call) (total task chunk : ℕ)
    → IsBusy p ws calls total task chunk drained
    → p.workers ≤ p.done
    → IsQuiet p ws
returned-IsQuiet p ws calls total task chunk b le = record {
  counted = b.counted;
  all_parked = all_counted-IsParked p.seq ws (omega (arith, b.counted, b.done_counted));
}

returned-hits :
    (p : Shared) (ws : List Worker) (calls : List Call) (total task chunk : ℕ)
    → IsBusy p ws calls total task chunk drained
    → total ≤ p.cursor
    → IsQuiet p ws
    → (i : ℕ) → hits i calls ≡ (if ltb i total then 1 else 0)
returned-hits p ws calls total task chunk b le q i =
    ground (arith, b.hit_once i, no_hits p.seq i ws q.all_parked)

-- A step of the main thread in `drain`.
main_drain-Phase :
    (p : Shared) (ws : List Worker) (calls : List Call) (total task chunk : ℕ) (d : Drain)
    → IsBusy p ws calls total task chunk d
    → DrainFits total chunk d
    → (d ≡ drained → ⊥)
    → let r = drains_on total task (drain_step p task d) in Phase r.0 ws (r.2 ++ calls) r.1
unfolding Phase drains_on drain_step
main_drain-Phase p ws calls total task chunk entered b f n = (
  chunk,
  drain_replace-IsBusy p ws calls total task chunk entered b (sized p.total) p.cursor [] tt
      (λ j. omega arith),
  b.total_stored,
)
main_drain-Phase p ws calls total task chunk (sized t) b f n = (
  chunk,
  drain_replace-IsBusy p ws calls total task chunk (sized t) b (claiming t (max p.chunk 1)) p.cursor
      [] tt (λ j. omega arith),
  (f, omega (arith, b.chunk_stored, b.chunk_pos)),
)
main_drain-Phase p ws calls total task chunk (claiming t c) b f n =
    elim (Bool-cases (leb t p.cursor)) [
      | inl over ↦ rw over (
        chunk,
        drain_replace-IsBusy p ws calls total task chunk (claiming t c) b drained (p.cursor + c) []
            tt (λ j. ground arith),
        ground arith,
      )
      | inr more ↦ rw more (
        chunk,
        drain_replace-IsBusy p ws calls total task chunk (claiming t c) b (calling t c p.cursor)
            (p.cursor + c) [] tt (λ j. ground arith),
        f,
      )
    ]
main_drain-Phase p ws calls total task chunk (calling t c start) b f n = (
  chunk,
  drain_replace-IsBusy p ws calls total task chunk (calling t c start) b (claiming t c) p.cursor
      (record { of = task; start = start; stop = min (start + c) t } ∷ []) (refl, tt)
      (λ j. ground arith),
  f,
)
main_drain-Phase p ws calls total task chunk drained b f n = absurd (n refl)

-- A turn of the main thread.
pub main_turn-Phase :
    (p : Shared) (ws : List Worker) (calls : List Call) (m : Main)
    → Phase p ws calls m
    → let r = main_step p m in Phase r.0 ws (r.2 ++ calls) r.1
unfolding Phase main_step
main_turn-Phase p ws calls (idle total task) h = h
main_turn-Phase p ws calls (inline total task) h = rw h.1 (h.0, (refl, tt), λ i. ground arith)
main_turn-Phase p ws calls (set_total total task) h =
    (record { counted = h.0.counted; all_parked = h.0.all_parked }, h.1, refl)
main_turn-Phase p ws calls (set_cursor total task) h =
    (record { counted = h.0.counted; all_parked = h.0.all_parked }, h.1, h.2, refl)
main_turn-Phase p ws calls (set_chunk total task) h =
    (record { counted = h.0.counted; all_parked = h.0.all_parked }, h.1, h.2, h.3, omega arith)
main_turn-Phase p ws calls (set_done total task) h =
    (record { counted = h.0.counted; all_parked = h.0.all_parked }, h.1, h.2, h.3, h.4, refl)
main_turn-Phase p ws calls (set_task total task) h =
    (record { counted = h.0.counted; all_parked = h.0.all_parked }, h.1, h.2, h.3, h.4, h.5, refl)
main_turn-Phase p ws calls (set_seq total task) h =
    rw h.1 (p.chunk, posted-IsBusy p ws total task h.0 h.2 h.3 h.4 h.5 h.6, tt)
main_turn-Phase p ws calls (main_drains total task entered) h =
    main_drain-Phase p ws calls total task h.0 entered h.1 h.2 (λ e. cc)
main_turn-Phase p ws calls (main_drains total task (sized t)) h =
    main_drain-Phase p ws calls total task h.0 (sized t) h.1 h.2 (λ e. cc)
main_turn-Phase p ws calls (main_drains total task (claiming t c)) h =
    main_drain-Phase p ws calls total task h.0 (claiming t c) h.1 h.2 (λ e. cc)
main_turn-Phase p ws calls (main_drains total task (calling t c start)) h =
    main_drain-Phase p ws calls total task h.0 (calling t c start) h.1 h.2 (λ e. cc)
main_turn-Phase p ws calls (main_drains total task drained) h = absurd h
main_turn-Phase p ws calls (waiting total task) h = elim (Bool-cases (ltb p.done p.workers)) [
  | inl more ↦ rw more h
  | inr over ↦
      let q = returned-IsQuiet p ws calls total task h.0 h.1 (ground arith) in
      rw over (q, h.1.of_task, returned-hits p ws calls total task h.0 h.1 h.2 q)
]

-- `run` is entered.
pub enter-Phase :
    (p : Shared) (ws : List Worker) (total task : ℕ)
    → IsQuiet p ws
    → Phase p ws [] (enter p total task)
unfolding Phase enter
enter-Phase p ws total task q = elim (Bool-cases (p.workers == 0 || ltb total 128)) [
  | inl alone ↦ rw alone (q, refl)
  | inr more ↦ rw more (q, refl)
]
