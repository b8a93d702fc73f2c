-- ===== src/Tensor/Pool/Invariant/Busy.antt =====
-- A step of any thread while the threads drain.
use nightrun.Prelude.{
  ℕ, ◌+◌, ◌≤◌, ◌≡◌, min, max, List, [], ◌∷◌, ◌++◌, set, get_elem?, some, All, All-append, ltb, leb,
  ◌==◌, if◌then◌else◌, Bool-cases, inl, inr, arith, refl, ◌∙◌, length-set,
}
use nightrun.Tensor.Pool.{
  Shared, Call, Drain, entered, sized, claiming, calling, drained, Worker, starting, joined,
  polling, fetching, draining, drain_step, worker_step, worker_drains,
}
use nightrun.Tensor.Pool.Counts.{sum_of-set, sum_of-append, All-set}
use nightrun.Tensor.Pool.Invariant.{
  call_hits, drain_hits, worker_hits, hits, parked, WorkerFits, IsBusy,
}

-- One more index is covered exactly when it is below the cursor.
abbrev below : ℕ → ℕ → ℕ → ℕ
below i cursor total = if ltb i (min cursor total) then 1 else 0

module _ (p : Shared) (ws : List Worker) (calls : List Call) (total task chunk : ℕ) (d : Drain)
    (busy : IsBusy p ws calls total task chunk d) where
  -- The thread at `i` goes on to `w'` with the cursor and the count given.
  replace-IsBusy :
      (i : ℕ) (w w' : Worker) (cursor done : ℕ) (cs : List Call)
      → get_elem? ws i ≡ some w
      → WorkerFits p.seq task total chunk w'
      → done + parked p.seq w ≡ p.done + parked p.seq w'
      → All (λ (c : Call). c.of ≡ task) cs
      → ((j : ℕ)
          → hits j cs + worker_hits j w' + below j p.cursor total
            ≡ worker_hits j w + below j cursor total)
      → IsBusy
          (record p { cursor = cursor; done = done })
          (set ws i w')
          (cs ++ calls)
          total
          task
          chunk
          d
  replace-IsBusy i w w' cursor done cs at fit count of hit = record {
    counted = length-set ws i w' ∙ busy.counted;
    total_stored = busy.total_stored;
    task_stored = busy.task_stored;
    chunk_stored = busy.chunk_stored;
    chunk_pos = busy.chunk_pos;
    fits = All-set _ ws i w' busy.fits fit;
    done_counted = omega (arith, sum_of-set (parked p.seq) ws i w w' at, busy.done_counted, count);
    of_task = All-append _ cs calls of busy.of_task;
    hit_once = λ j. omega (
      arith,
      sum_of-append (call_hits j) cs calls,
      sum_of-set (worker_hits j) ws i w w' at,
      busy.hit_once j,
      hit j,
    );
  }

  -- A step of the thread at `i` keeps the invariant, and the cursor does not go back.
  pub worker_step-IsBusy :
      (i : ℕ) (w : Worker)
      → get_elem? ws i ≡ some w
      → WorkerFits p.seq task total chunk w
      → let r = worker_step p w in
        IsBusy r.0 (set ws i r.1) (r.2 ++ calls) total task chunk d × (p.cursor ≤ r.0.cursor)
  unfolding worker_step worker_drains drain_step
  worker_step-IsBusy i starting at fit = absurd fit
  worker_step-IsBusy i joined at fit = absurd fit
  worker_step-IsBusy i (polling last) at fit = elim (Bool-cases (p.seq == last)) [
    | inl same ↦ rw same (
      replace-IsBusy i (polling last) (polling last) p.cursor p.done [] at fit refl tt
          (λ j. omega arith),
      omega arith,
    )
    | inr other ↦ rw other (
      replace-IsBusy i (polling last) (fetching p.seq) p.cursor p.done [] at refl (ground arith) tt
          (λ j. omega arith),
      omega arith,
    )
  ]
  worker_step-IsBusy i (fetching last) at fit = (
    replace-IsBusy i (fetching last) (draining last p.task entered) p.cursor p.done [] at
        (fit, busy.task_stored, tt) refl tt (λ j. omega arith),
    omega arith,
  )
  worker_step-IsBusy i (draining last t entered) at fit = (
    replace-IsBusy i (draining last t entered) (draining last t (sized p.total)) p.cursor p.done []
        at (fit.0, fit.1, busy.total_stored) refl tt (λ j. omega arith),
    omega arith,
  )
  worker_step-IsBusy i (draining last t (sized n)) at fit = (
    replace-IsBusy i (draining last t (sized n)) (draining last t (claiming n (max p.chunk 1)))
        p.cursor p.done [] at
        (fit.0, fit.1, (fit.2, omega (arith, busy.chunk_stored, busy.chunk_pos))) refl tt
        (λ j. omega arith),
    omega arith,
  )
  worker_step-IsBusy i (draining last t (claiming n c)) at fit =
      elim (Bool-cases (leb n p.cursor)) [
        | inl over ↦ rw over (
          replace-IsBusy i (draining last t (claiming n c)) (draining last t drained) (p.cursor + c)
              p.done [] at (fit.0, fit.1, tt) refl tt (λ j. ground arith),
          omega arith,
        )
        | inr more ↦ rw more (
          replace-IsBusy i (draining last t (claiming n c)) (draining last t (calling n c p.cursor))
              (p.cursor + c) p.done [] at fit refl tt (λ j. ground arith),
          omega arith,
        )
      ]
  worker_step-IsBusy i (draining last t (calling n c start)) at fit = (
    replace-IsBusy i (draining last t (calling n c start)) (draining last t (claiming n c)) p.cursor
        p.done (record { of = t; start = start; stop = min (start + c) n } ∷ []) at fit refl
        (fit.1, tt) (λ j. ground arith),
    omega arith,
  )
  worker_step-IsBusy i (draining last t drained) at fit = (
    replace-IsBusy i (draining last t drained) (polling last) p.cursor (p.done + 1) [] at
        (omega arith) (ground arith) tt (λ j. omega arith),
    omega arith,
  )

  -- The same for a step of the main thread in its own `drain`.
  pub drain_replace-IsBusy :
      (d' : Drain) (cursor : ℕ) (cs : List Call)
      → All (λ (c : Call). c.of ≡ task) cs
      → ((j : ℕ)
          → hits j cs + drain_hits j d' + below j p.cursor total
            ≡ drain_hits j d + below j cursor total)
      → IsBusy (record p { cursor = cursor }) ws (cs ++ calls) total task chunk d'
  drain_replace-IsBusy d' cursor cs of hit = record {
    counted = busy.counted;
    total_stored = busy.total_stored;
    task_stored = busy.task_stored;
    chunk_stored = busy.chunk_stored;
    chunk_pos = busy.chunk_pos;
    fits = busy.fits;
    done_counted = busy.done_counted;
    of_task = All-append _ cs calls of busy.of_task;
    hit_once = λ j. omega (arith, sum_of-append (call_hits j) cs calls, busy.hit_once j, hit j);
  }
