-- ===== src/Pool/Safety.antt =====
-- The pool under every schedule.
use light_nvm.Base.{
  ℕ, zero, suc, ◌+◌, ◌-◌, ◌≤◌, ◌≡◌, refl, inl, inr, sym, ap, subst, ◌∙◌, arith, List, [], ◌∷◌, ◌++◌,
  length, total, Bool, true, false, Option, none, some, get_elem?, set, ◌==◌, Option-cases,
  Nat-cases, ==_eq_false, ==_iff, if◌then◌else◌,
}
use light_nvm.Base.Int.{ℤ, pos, negsuc}
use light_nvm.Base.Partial.{◌>>=◌}
use light_nvm.Pool.{
  Thread, append_lock, run_loop, Pool, Event, goes, calls, stops, advance, step, run_events,
  workers, make,
}
use light_nvm.Pool.Moves.{
  holds, token, running, held, times, request_times, total-append, Moves, Stepped, advance-Stepped,
}

-- One thread in place of another.
total-set :
    (f : Thread → ℕ) (ts : List Thread) (i : ℕ) (t t' : Thread)
    → get_elem? ts i ≡ some t
    → total f (set ts i t') + f t ≡ total f ts + f t'
total-set f [] i t t' e = absurd (cc e)
total-set f (u ∷ ts) zero t t' e = let same : u ≡ t = cc e in omega (arith, ap f same)
total-set f (u ∷ ts) (suc i) t t' e = omega (arith, total-set f ts i t t' e)

total-get :
    (f : Thread → ℕ) (ts : List Thread) (i : ℕ) (t : Thread)
    → get_elem? ts i ≡ some t
    → f t ≤ total f ts
total-get f [] i t e = absurd (cc e)
total-get f (u ∷ ts) zero t e = let same : u ≡ t = cc e in omega (arith, ap f same)
total-get f (u ∷ ts) (suc i) t e = omega (arith, total-get f ts i t e)

-- The lock is held exactly while one thread is inside; a queued request is covered by a post, or by a
-- thread that will post or take; the queue is at most one longer than the limit; what was appended is
-- what was taken and then what is queued, in order; and each request is processed, or is being
-- processed, as often as it was taken.
pub record IsPool (s : Pool) : Type 0 where
  pub mutex : total holds s.threads ≡ held s.queuelocker
  pub tokens : length s.workqueue ≤ s.queuestat + total token s.threads
  pub bound : length s.workqueue ≤ s.max_requests + 1
  pub fifo : s.accepted ≡ s.taken ++ s.workqueue
  pub once : (x : ℕ) → times x s.processed + total (running x) s.threads ≡ request_times x s.taken

-- The step of the thread `i` from `t` to `t'`.
module _ (s s' : Pool) (i : ℕ) (t t' : Thread) (e : get_elem? s.threads i ≡ some t)
    (m : Moves t t' s s') (v : IsPool s) where
  moved : (f : Thread → ℕ) → total f (set s'.threads i t') + f t ≡ total f s.threads + f t'
  moved f = ap (λ ts. total f (set ts i t') + f t) m.threads ∙ total-set f s.threads i t t' e

  goes-IsPool : IsPool (record s' { threads = set s'.threads i t' })
  goes-IsPool = record {
    mutex = omega (arith, moved holds, m.mutex, v.mutex);
    tokens =
        let (others, split) = rest token in
        omega (arith, m.tokens others (omega (arith, split, v.tokens)), moved token, split);
    bound = omega (arith, m.bound v.bound, m.max_same);
    fifo = m.fifo v.fifo;
    once = λ x. omega (arith, moved (running x), m.once x, v.once x);
  }
    where
      rest : (f : Thread → ℕ) → (n : ℕ) × (total f s.threads ≡ f t + n)
      rest f = (total f s.threads - f t, omega (arith, total-get f s.threads i t e))

goes_step :
    (i : ℕ) (interrupted : Bool) (s s' : Pool)
    → IsPool s
    → step (goes i interrupted) s ≡ some s'
    → IsPool s'
unfolding step
goes_step i interrupted s s' v run = elim (Option-cases (get_elem? s.threads i)) [
  | inl missing ↦ absurd (cc (ap (λ o. o >>= after) (sym missing) ∙ run))
  | inr (t, e) ↦
      let found = ap (λ o. o >>= after) (sym e) ∙ run in
      let moves =
        advance-Stepped t interrupted s (omega (arith, total-get holds s.threads i t e, v.mutex)) in
      next t e (advance t interrupted s) moves found
]
  where
    put : Thread × Pool → Option Pool
    put (t', s1) = some (record s1 { threads = set s1.threads i t' })

    after : Thread → Option Pool
    after t = advance t interrupted s >>= put

    next :
        (t : Thread)
        → get_elem? s.threads i ≡ some t
        → (o : Option (Thread × Pool)) → Stepped t s o
        → (o >>= put) ≡ some s'
        → IsPool s'
    next t e none m f = absurd (cc f)
    next t e (some (t', s1)) m f = subst IsPool (cc f) (goes-IsPool s s1 i t t' e m v)

workers-total : (f : Thread → ℕ) (n : ℕ) → f run_loop ≡ 0 → total f (workers n) ≡ 0
workers-total f zero e = refl
workers-total f (suc n) e = omega (arith, e, workers-total f n e)

pub make-IsPool :
    (thread_number : ℤ) (max_requests : ℕ) (s : Pool)
    → make thread_number max_requests ≡ some s
    → IsPool s
unfolding make
make-IsPool (negsuc n) max_requests s run = absurd (cc run)
make-IsPool (pos thread_number) max_requests s run = elim (Nat-cases 0 thread_number) [
  | inr none_asked ↦ absurd (cc (ap started (sym ((==_iff thread_number 0).1 (omega arith))) ∙ run))
  | inl some_threads ↦
      let run' = ap started (sym (==_eq_false thread_number 0 (omega arith))) ∙ run in
      elim (Nat-cases 0 max_requests) [
        | inr no_requests ↦
            absurd (cc (ap sized (sym ((==_iff max_requests 0).1 (omega arith))) ∙ run'))
        | inl some_requests ↦
            subst IsPool {x = fresh}
              (cc (ap sized (sym (==_eq_false max_requests 0 (omega arith))) ∙ run'))
              (record {
                mutex = workers-total holds thread_number refl;
                tokens = omega arith;
                bound = omega arith;
                fifo = refl;
                once = λ x. omega (arith, workers-total (running x) thread_number refl);
              })
      ]
]
  where
    fresh : Pool
    fresh = record {
      max_requests = max_requests;
      workqueue = [];
      queuelocker = false;
      queuestat = 0;
      stop = false;
      threads = workers thread_number;
      accepted = [];
      taken = [];
      processed = [];
    }

    sized : Bool → Option Pool
    sized b = if b then none else some fresh

    started : Bool → Option Pool
    started b = if b then none else sized (max_requests == 0)

step-IsPool : (e : Event) (s s' : Pool) → IsPool s → step e s ≡ some s' → IsPool s'
unfolding step
step-IsPool (goes i interrupted) s s' v run = goes_step i interrupted s s' v run
step-IsPool (calls r) s s' v run =
    subst IsPool {x = record s { threads = s.threads ++ append_lock r ∷ [] }} (cc run) (record {
      mutex = omega (arith, total-append holds s.threads (append_lock r ∷ []), v.mutex);
      tokens = omega (arith, total-append token s.threads (append_lock r ∷ []), v.tokens);
      bound = v.bound;
      fifo = v.fifo;
      once = λ x. omega (arith, total-append (running x) s.threads (append_lock r ∷ []), v.once x);
    })
step-IsPool stops s s' v run =
    subst IsPool {x = record s { stop = true }} (cc run)
      (record { mutex = v.mutex; tokens = v.tokens; bound = v.bound; fifo = v.fifo; once = v.once })

runs-IsPool : (es : List Event) (s s' : Pool) → IsPool s → run_events es s ≡ some s' → IsPool s'
unfolding run_events
runs-IsPool [] s s' v run = subst IsPool (cc run) v
runs-IsPool (e ∷ es) s s' v run = elim (Option-cases (step e s)) [
  | inl blocked ↦ absurd (cc (ap (λ o. o >>= run_events es) (sym blocked) ∙ run))
  | inr (s1, here) ↦
      runs-IsPool es s1 s' (step-IsPool e s s1 v here)
        (ap (λ o. o >>= run_events es) (sym here) ∙ run)
]

-- From the constructor on, in any order of the steps of the workers and of the threads that append, also
-- where signals interrupt `sem_wait` and while `m_stop` is set: at most one thread is inside of the
-- lock; the queue is at most one longer than the limit; requests are taken in the order in which they
-- were appended, none is lost, and each is processed, or is being processed, once for each time that it
-- was taken; and a queued request is covered by the semaphore or by a thread that will post or take.
pub run_events-IsPool :
    (thread_number : ℤ) (max_requests : ℕ) (es : List Event) (s s' : Pool)
    → make thread_number max_requests ≡ some s
    → run_events es s ≡ some s'
    → IsPool s'
run_events-IsPool thread_number max_requests es s s' made run =
    runs-IsPool es s s' (make-IsPool thread_number max_requests s made) run
