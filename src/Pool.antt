-- ===== src/Pool.antt =====
-- threadpool.h, with the semaphore and the lock of locker.h: threads that append requests and workers
-- that process them, as steps in any order.
pub mod Moves
pub mod Safety
pub mod Progress
use light_nvm.Base.{
  ℕ, zero, suc, ◌+◌, ◌-◌, List, [], ◌∷◌, ◌++◌, length, Bool, true, false, Option, none, some,
  get_elem?, set, ltb, ◌==◌, if◌then◌else◌,
}
use light_nvm.Base.Int.{ℤ, pos, negsuc}
use light_nvm.Base.Partial.{◌>>=◌}

-- A `shared_ptr` to a request, which may be null.
abbrev pub Request : Type 0
Request = Option ℕ

-- Where a thread stands: in a call of `append`, or, a worker, in `run`.
pub data Thread : Type 0 where
  append_lock : Request → Thread
  append_locked : Request → Thread
  append_post : Thread
  append_end : Bool → Thread
  run_loop : Thread
  run_wait : Thread
  run_lock : Thread
  run_locked : Thread
  run_process : ℕ → Thread
  run_end : Thread

-- The pool and its threads. The last three members are no state of the code: they list the requests that
-- were appended, taken and processed.
pub record Pool : Type 0 where
  pub max_requests : ℕ
  pub workqueue : List Request
  pub queuelocker : Bool
  pub queuestat : ℕ
  pub stop : Bool
  pub threads : List Thread
  pub accepted : List Request
  pub taken : List Request
  pub processed : List ℕ

-- `locker::lock` blocks (`none`) while another thread holds the mutex.
abbrev pub lock : Pool → Option Pool
lock s = if s.queuelocker then none else some (record s { queuelocker = true })

abbrev pub unlock : Pool → Pool
unlock s = record s { queuelocker = false }

-- `sem::post`
abbrev pub post : Pool → Pool
post s = record s { queuestat = s.queuestat + 1 }

-- `sem::wait` blocks while the value is 0, and may be interrupted by a signal, which the code ignores.
unfoldable pub wait : Bool → Pool → Option Pool
wait true s = some s
wait false s = if s.queuestat == 0 then none else some (record s { queuestat = s.queuestat - 1 })

-- `append`, between `lock` and `unlock`.
unfoldable pub push : Request → Pool → Thread × Pool
push r s = if ltb s.max_requests (length s.workqueue) then (append_end false, unlock s) else (
  append_post,
  unlock (record s { workqueue = s.workqueue ++ r ∷ []; accepted = s.accepted ++ r ∷ [] }),
)

-- `if (!request) continue; request->process();`
abbrev pub process_next : Request → Thread
process_next none = run_loop
process_next (some x) = run_process x

-- `run`, between `lock` and `unlock`.
unfoldable pub pop : List Request → Pool → Thread × Pool
pop [] s = (run_loop, unlock s)
pop (r ∷ rs) s = (process_next r, unlock (record s { workqueue = rs; taken = s.taken ++ r ∷ [] }))

-- The next step of a thread; `none` where it is blocked, or at its end.
unfoldable pub advance : Thread → Bool → Pool → Option (Thread × Pool)
unfolding push pop wait
advance (append_lock r) interrupted s = lock s >>= λ s'. some (append_locked r, s')
advance (append_locked r) interrupted s = some (push r s)
advance append_post interrupted s = some (append_end true, post s)
advance (append_end b) interrupted s = none
advance run_loop interrupted s = some (if s.stop then run_end else run_wait, s)
advance run_wait interrupted s = wait interrupted s >>= λ s'. some (run_lock, s')
advance run_lock interrupted s = lock s >>= λ s'. some (run_locked, s')
advance run_locked interrupted s = some (pop s.workqueue s)
advance (run_process x) interrupted s =
    some (run_loop, record s { processed = s.processed ++ x ∷ [] })
advance run_end interrupted s = none

-- What happens next: a thread goes on, another calls `append`, or the destructor sets `m_stop`.
pub data Event : Type 0 where
  goes : ℕ → Bool → Event
  calls : Request → Event
  stops : Event

unfoldable pub step : Event → Pool → Option Pool
unfolding advance
step (goes i interrupted) s = do
  t ← get_elem? s.threads i
  (t', s') ← advance t interrupted s
  some (record s' { threads = set s'.threads i t' })
step (calls r) s = some (record s { threads = s.threads ++ append_lock r ∷ [] })
step stops s = some (record s { stop = true })

unfoldable pub run_events : List Event → Pool → Option Pool
unfolding step
run_events [] s = some s
run_events (e ∷ es) s = do s' ← step e s; run_events es s'

-- The threads that the constructor starts.
abbrev pub workers : ℕ → List Thread
workers zero = []
workers (suc n) = run_loop ∷ workers n

-- The constructor throws where a number is not positive; `none`. `thread_number` is an `int`, and
-- `max_requests` a `size_t`. `pthread_create` succeeds.
unfoldable pub make : ℤ → ℕ → Option Pool
make (negsuc n) max_requests = none
make (pos thread_number) max_requests =
    if thread_number == 0
    then none
    else if max_requests == 0
    then none
    else some (record {
      max_requests = max_requests;
      workqueue = [];
      queuelocker = false;
      queuestat = 0;
      stop = false;
      threads = workers thread_number;
      accepted = [];
      taken = [];
      processed = [];
    })
