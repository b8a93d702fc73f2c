-- ===== src/Tensor/Pool/Invariant/Covered.antt =====
-- The invariant from the activation on, and what it says when `run` has returned.
use nightrun.Prelude.{
  ℕ, ◌≡◌, List, get_elem?, some, none, Option, All, ltb, if◌then◌else◌, arith, refl,
  length-replicate,
}
use nightrun.Tensor.Pool.{
  Shared, Call, Worker, polling, Main, idle, System, turn_main, turn_worker, Step, main_turn,
  worker_turn, run, Reach, here, next, activated, turn_of,
}
use nightrun.Tensor.Pool.Counts.{All-replicate}
use nightrun.Tensor.Pool.Invariant.{hits, IsParked, Phase}
use nightrun.Tensor.Pool.Invariant.Workers.{worker_turn-Phase}
use nightrun.Tensor.Pool.Invariant.Caller.{main_turn-Phase, enter-Phase}

abbrev IsSound : System → Type 0
IsSound s = Phase s.shared s.workers s.calls s.main

turn_of-IsSound :
    (s : System) (i : ℕ) (o : Option Worker)
    → get_elem? s.workers i ≡ o
    → IsSound s
    → IsSound (turn_of s i o)
turn_of-IsSound s i none at h = h
turn_of-IsSound s i (some w) at h = worker_turn-Phase s.shared s.workers s.calls i w at s.main h

idle-IsQuiet :
    (p : Shared) (ws : List Worker) (calls : List Call) (m : Main) (total task : ℕ)
    → m ≡ idle total task
    → Phase p ws calls m
    → Phase p ws calls (idle total task)
idle-IsQuiet p ws calls m total task e h = rw (← e) h

Step-IsSound : {s t : System} → Step s t → IsSound s → IsSound t
unfolding turn_main turn_worker Phase
Step-IsSound (main_turn s) h = main_turn-Phase s.shared s.workers s.calls s.main h
Step-IsSound (worker_turn i s) h = turn_of-IsSound s i (get_elem? s.workers i) refl h
Step-IsSound (run s total task old_total old_task e) h =
    enter-Phase s.shared s.workers total task
      (idle-IsQuiet s.shared s.workers s.calls s.main old_total old_task e h).0

Reach-IsSound : {s t : System} → Reach s t → IsSound s → IsSound t
Reach-IsSound here h = h
Reach-IsSound (next r st) h = Step-IsSound st (Reach-IsSound r h)

activated-IsSound : (n : ℕ) → IsSound (activated n)
unfolding Phase
activated-IsSound n = (
  record {
    counted = length-replicate n (polling 0);
    all_parked = All-replicate _ n (polling 0) refl;
  },
  tt,
  λ i. ground arith,
)

-- However the steps of a pool of `n` workers activated for `n` are interleaved: whenever the
-- main thread is outside `run`, after a call of `run` for a range and a task, the calls that
-- returned since were all of that task, they covered each index of the range exactly once and no
-- other index, and no worker holds a task.
pub Reach-Covered :
    (n : ℕ) {s : System} (total task i : ℕ)
    → Reach (activated n) s
    → s.main ≡ idle total task
    → All (λ (c : Call). c.of ≡ task) s.calls
      × (hits i s.calls ≡ (if ltb i total then 1 else 0))
      × All (IsParked s.shared.seq) s.workers
unfolding Phase
Reach-Covered n {s = s} total task i r e =
    let h =
      idle-IsQuiet s.shared s.workers s.calls s.main total task e
        (Reach-IsSound r (activated-IsSound n)) in
    (h.1, h.2 i, h.0.all_parked)
