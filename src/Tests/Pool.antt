-- ===== src/Tests/Pool.antt =====
-- Two workers, and two requests that are appended to a pool with a limit of one.
use light_nvm.Base.{ℕ, ◌≡◌, arith, refl, List, [], ◌∷◌, some, true, false}
use light_nvm.Base.Int.{pos}
use light_nvm.Pool.{
  run_wait, Pool, Event, goes, calls, run_loop, run_process, append_end, append_post, advance, push,
  pop, wait, step, run_events, make, workers,
}
use light_nvm.Pool.Progress.{pool-progress}
use light_nvm.Pool.Safety.{IsPool, run_events-IsPool}

abbrev started : Pool
started = record {
  max_requests = 1;
  workqueue = [];
  queuelocker = false;
  queuestat = 0;
  stop = false;
  threads = workers 2;
  accepted = [];
  taken = [];
  processed = [];
}

-- Both are appended, and the first worker takes the first of them.
abbrev schedule : List Event
schedule =
    calls (some 5)
    ∷ calls (some 6)
    ∷ goes 2 false
    ∷ goes 2 false
    ∷ goes 2 false
    ∷ goes 3 false
    ∷ goes 3 false
    ∷ goes 0 false
    ∷ goes 0 false
    ∷ goes 0 false
    ∷ goes 0 false
    ∷ []

abbrev reached : Pool
reached = record started {
  workqueue = some 6 ∷ [];
  threads = run_process 5 ∷ run_loop ∷ append_end true ∷ append_post ∷ [];
  accepted = some 5 ∷ some 6 ∷ [];
  taken = some 5 ∷ [];
}

run_events-IsPool_example : IsPool reached
unfolding make run_events step advance push pop wait
run_events-IsPool_example = run_events-IsPool (pos 2) 1 schedule started reached refl refl

-- A second request is queued while the first worker processes the first.
abbrev queued : Pool
queued = record {
  max_requests = 1;
  workqueue = some 6 ∷ [];
  queuelocker = false;
  queuestat = 1;
  stop = false;
  threads = run_process 5 ∷ run_wait ∷ append_end true ∷ [];
  accepted = some 5 ∷ some 6 ∷ [];
  taken = some 5 ∷ [];
  processed = [];
}

queued-IsPool : IsPool queued
queued-IsPool = record {
  mutex = refl;
  tokens = omega arith;
  bound = omega arith;
  fifo = refl;
  once = λ x. omega arith;
}

pool-progress_example : (j : ℕ) × (s : Pool) × (step (goes j false) queued ≡ some s)
pool-progress_example = pool-progress queued 1 run_wait queued-IsPool (omega arith) refl tt
