-- ===== src/Examples/Threads.antt =====
-- The pool with one worker, and with a worker that came too late to be counted.
use nightrun.Prelude.{
  ℕ, zero, suc, ◌≡◌, refl, List, [], ◌∷◌, ◌++◌, Option, none, some, All, if◌then◌else◌, ltb,
  get_elem?,
}
use nightrun.Tensor.Pool.{
  Call, polling, draining, calling, idle, System, enter, turn_main, turn_worker, Reach, here, next,
  main_turn, worker_turn, run, activated,
}
use nightrun.Tensor.Pool.Invariant.{hits, IsParked}
use nightrun.Tensor.Pool.Invariant.Covered.{Reach-Covered}

-- None is a turn of the main thread.
abbrev played : List (Option ℕ) → System → System
played [] s = s
played (none ∷ rest) s = played rest (turn_main s)
played (some i ∷ rest) s = played rest (turn_worker i s)

played-Reach : (r : List (Option ℕ)) {a s : System} → Reach a s → Reach a (played r s)
played-Reach [] h = h
played-Reach (none ∷ rest) {s = s} h = played-Reach rest (next h (main_turn s))
played-Reach (some i ∷ rest) {s = s} h = played-Reach rest (next h (worker_turn i s))

-- `run` of the task at 7 for 0..128 with one worker.
abbrev entered_run : ℕ → System
entered_run n = record (activated n) { main = enter (activated n).shared 128 7 }

-- The two threads in turn, and then the main thread.
abbrev turns : ℕ → List (Option ℕ)
turns zero = none ∷ none ∷ none ∷ []
turns (suc n) = none ∷ some 0 ∷ turns n

abbrev after_run : System
after_run = played (turns 24) (entered_run 1)

after_run_idle : after_run.main ≡ idle 128 7
unfolding enter turn_main turn_worker
after_run_idle = refl

Reach-Covered_example :
    All (λ (c : Call). c.of ≡ 7) after_run.calls
    × (hits 100 after_run.calls ≡ (if ltb 100 128 then 1 else 0))
    × All (IsParked after_run.shared.seq) after_run.workers
Reach-Covered_example =
    Reach-Covered 1 128 7 100
      (played-Reach (turns 24) (next here (run (activated 1) 128 7 0 0 refl))) after_run_idle

-- Two workers at the head of their loop, of which `activate` counted one.
abbrev late_start : System
late_start = record (entered_run 1) { workers = polling 0 ∷ polling 0 ∷ [] }

abbrev times : ℕ → Option ℕ → List (Option ℕ)
times zero t = []
times (suc n) t = t ∷ times n t

-- The second worker starts a call, the first and the main thread do all the others.
abbrev late_end : System
late_end =
    played
      (times 7 none ++ (times 5 (some 1) ++ (times 30 none ++ (times 6 (some 0) ++ times 1 none))))
      late_start

late_main : late_end.main ≡ idle 128 7
unfolding enter turn_main turn_worker
late_main = refl

-- `run` has returned, and the second worker is still in the task.
late_worker : get_elem? late_end.workers 1 ≡ some (draining 1 7 (calling 128 16 0))
unfolding enter turn_main turn_worker
late_worker = refl
