-- ===== src/Tensor/Pool/Invariant/Quiet.antt =====
-- The threads while nothing is posted.
use nightrun.Prelude.{ℕ, ◌+◌, ◌≤◌, ◌<◌, ◌≡◌, List, [], ◌∷◌, length, All, ==_self, arith, refl}
use nightrun.Tensor.Pool.{
  Shared, Worker, starting, joined, polling, fetching, draining, worker_step,
}
use nightrun.Tensor.Pool.Counts.{sum_of}
use nightrun.Tensor.Pool.Invariant.{IsParked, parked, worker_hits, WorkerFits}

module _ (p : Shared) where
  -- A thread that is parked goes round its loop.
  pub worker_step-IsParked : (w : Worker) → IsParked p.seq w → worker_step p w ≡ (p, w, [])
  unfolding worker_step
  worker_step-IsParked starting h = absurd h
  worker_step-IsParked joined h = absurd h
  worker_step-IsParked (polling last) h = rw (h, ==_self p.seq)
  worker_step-IsParked (fetching last) h = absurd h
  worker_step-IsParked (draining last task d) h = absurd h

worker_hits-IsParked : (i seq : ℕ) (w : Worker) → IsParked seq w → worker_hits i w ≡ 0
worker_hits-IsParked i seq starting h = absurd h
worker_hits-IsParked i seq joined h = absurd h
worker_hits-IsParked i seq (polling last) h = refl
worker_hits-IsParked i seq (fetching last) h = absurd h
worker_hits-IsParked i seq (draining last task d) h = absurd h

-- When `seq` is counted up, every parked thread has work to fetch, and none is counted as done.
module _ (seq : ℕ) where
  pub posted-WorkerFits :
      (task total chunk : ℕ) (ws : List Worker)
      → All (IsParked seq) ws
      → All (WorkerFits (seq + 1) task total chunk) ws
  posted-WorkerFits task total chunk [] h = tt
  posted-WorkerFits task total chunk (starting ∷ ws) h = absurd h.0
  posted-WorkerFits task total chunk (joined ∷ ws) h = absurd h.0
  posted-WorkerFits task total chunk (polling last ∷ ws) h =
      (omega arith, posted-WorkerFits task total chunk ws h.1)
  posted-WorkerFits task total chunk (fetching last ∷ ws) h = absurd h.0
  posted-WorkerFits task total chunk (draining last t d ∷ ws) h = absurd h.0

  pub posted-parked : (ws : List Worker) → All (IsParked seq) ws → sum_of (parked (seq + 1)) ws ≡ 0
  posted-parked [] h = refl
  posted-parked (starting ∷ ws) h = absurd h.0
  posted-parked (joined ∷ ws) h = absurd h.0
  posted-parked (polling last ∷ ws) h = ground (arith, posted-parked ws h.1)
  posted-parked (fetching last ∷ ws) h = absurd h.0
  posted-parked (draining last t d ∷ ws) h = absurd h.0

  pub no_hits : (i : ℕ) (ws : List Worker) → All (IsParked seq) ws → sum_of (worker_hits i) ws ≡ 0
  no_hits i [] h = refl
  no_hits i (w ∷ ws) h = omega (arith, worker_hits-IsParked i seq w h.0, no_hits i ws h.1)

  -- When as many are counted as there are, all are parked.
  parked_bounds : (w : Worker) → parked seq w ≤ 1
  parked_bounds starting = omega arith
  parked_bounds joined = omega arith
  parked_bounds (polling last) = ground arith
  parked_bounds (fetching last) = omega arith
  parked_bounds (draining last task d) = omega arith

  parked_sum_bounds : (ws : List Worker) → sum_of (parked seq) ws ≤ length ws
  parked_sum_bounds [] = omega arith
  parked_sum_bounds (w ∷ ws) = omega (arith, parked_bounds w, parked_sum_bounds ws)

  counted-IsParked : (w : Worker) → 0 < parked seq w → IsParked seq w
  counted-IsParked starting h = absurd (omega arith)
  counted-IsParked joined h = absurd (omega arith)
  counted-IsParked (polling last) h = ground arith
  counted-IsParked (fetching last) h = absurd (omega arith)
  counted-IsParked (draining last task d) h = absurd (omega arith)

  pub all_counted-IsParked :
      (ws : List Worker) → length ws ≤ sum_of (parked seq) ws → All (IsParked seq) ws
  all_counted-IsParked [] h = tt
  all_counted-IsParked (w ∷ ws) h = (
    counted-IsParked w (omega (arith, parked_sum_bounds ws)),
    all_counted-IsParked ws (omega (arith, parked_bounds w)),
  )
