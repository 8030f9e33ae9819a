-- ===== src/Pool/Moves.antt =====
-- What one step of one thread changes.
use light_nvm.Base.{
  ℕ, ◌+◌, ◌-◌, ◌≤◌, ◌≡◌, refl, inl, inr, sym, ap, ◌∙◌, arith, List, [], ◌∷◌, ◌++◌, append_assoc,
  length, length-append, total, Bool, true, false, Option, none, some, ◌==◌, if◌then◌else◌,
  Nat-cases, lt→ltb, le→ltb, ==_iff, ==_eq_false,
}
use light_nvm.Base.Partial.{◌>>=◌}
use light_nvm.Pool.{
  Request, Thread, append_lock, append_locked, append_post, append_end, run_loop, run_wait,
  run_lock, run_locked, run_process, run_end, Pool, lock, wait, push, pop, advance,
}

-- A thread that is inside of the lock.
abbrev pub holds : Thread → ℕ
holds (append_locked r) = 1
holds run_locked = 1
holds _ = 0

-- A thread that will post, or that has waited and will take a request.
abbrev pub token : Thread → ℕ
token append_post = 1
token run_lock = 1
token run_locked = 1
token _ = 0

-- A thread that processes the request `x`.
abbrev pub running : ℕ → Thread → ℕ
running x (run_process y) = if y == x then 1 else 0
running x _ = 0

abbrev pub held : Bool → ℕ
held true = 1
held false = 0

-- How often a request is in a list.
abbrev pub is_request : ℕ → Request → ℕ
is_request x none = 0
is_request x (some y) = if y == x then 1 else 0

abbrev pub times : ℕ → List ℕ → ℕ
times x ys = total (λ y. if y == x then 1 else 0) ys

abbrev pub request_times : ℕ → List Request → ℕ
request_times x rs = total (is_request x) rs

pub total-append {ℓ} :
    {A : Type ℓ} (f : A → ℕ) (xs ys : List A) → total f (xs ++ ys) ≡ total f xs + total f ys
total-append f [] ys = omega arith
total-append f (x ∷ xs) ys = omega (arith, total-append f xs ys)

pub record Moves (t t' : Thread) (s s' : Pool) : Type 0 where
  pub threads : s'.threads ≡ s.threads
  pub max_same : s'.max_requests ≡ s.max_requests
  pub mutex : held s'.queuelocker + holds t ≡ held s.queuelocker + holds t'
  pub tokens :
      (others : ℕ)
      → length s.workqueue ≤ s.queuestat + (token t + others)
      → length s'.workqueue ≤ s'.queuestat + (token t' + others)
  pub bound : length s.workqueue ≤ s.max_requests + 1 → length s'.workqueue ≤ s.max_requests + 1
  pub fifo : s.accepted ≡ s.taken ++ s.workqueue → s'.accepted ≡ s'.taken ++ s'.workqueue
  pub once :
      (x : ℕ)
      → times x s'.processed + running x t' + request_times x s.taken
        ≡ times x s.processed + running x t + request_times x s'.taken

-- A step that changes only the thread, the lock and the semaphore.
quiet :
    (t t' : Thread) (s : Pool) (locked : Bool) (stat : ℕ)
    → held locked + holds t ≡ held s.queuelocker + holds t'
    → s.queuestat + token t ≤ stat + token t'
    → ((x : ℕ) → running x t' ≡ running x t)
    → Moves t t' s (record s { queuelocker = locked; queuestat = stat })
quiet t t' s locked stat m le r = record {
  threads = refl;
  max_same = refl;
  mutex = m;
  tokens = λ others h. omega arith;
  bound = λ h. h;
  fifo = λ h. h;
  once = λ x. omega (arith, r x);
}

-- Each way through the part of `append` and of `run` that holds the lock.
pushed :
    (r : Request) (s : Pool)
    → s.queuelocker ≡ true
    → Moves (append_locked r) (push r s).0 s (push r s).1
unfolding push
pushed r s on = elim (Nat-cases s.max_requests (length s.workqueue)) [
  | inl full ↦ rw (lt→ltb s.max_requests (length s.workqueue) full) (
      quiet (append_locked r) (append_end false) s false s.queuestat (rw on refl) (omega arith)
        (λ x. refl))
  | inr room ↦ rw (le→ltb s.max_requests (length s.workqueue) room) (record {
    threads = refl;
    max_same = refl;
    mutex = rw on refl;
    tokens = λ others h. omega (arith, length-append s.workqueue (r ∷ []));
    bound = λ h. omega (arith, length-append s.workqueue (r ∷ []));
    fifo = λ h. ap (λ rs. rs ++ r ∷ []) h ∙ append_assoc s.taken s.workqueue (r ∷ []);
    once = λ x. refl;
  })
]

popped :
    (q : List Request) (s : Pool)
    → s.workqueue ≡ q
    → s.queuelocker ≡ true
    → Moves run_locked (pop q s).0 s (pop q s).1
unfolding pop
popped [] s e on = record {
  threads = refl;
  max_same = refl;
  mutex = rw on refl;
  tokens = λ others h. rw e (omega arith);
  bound = λ h. h;
  fifo = λ h. h;
  once = λ x. refl;
}
popped (none ∷ rs) s e on = record {
  threads = refl;
  max_same = refl;
  mutex = rw on refl;
  tokens = λ others h. omega (arith, ap length e);
  bound = λ h. omega (arith, ap length e);
  fifo = λ h. h ∙ ap (◌++◌ s.taken) e ∙ sym (append_assoc s.taken (none ∷ []) rs);
  once = λ x. omega (arith, total-append (is_request x) s.taken (none ∷ []));
}
popped (some y ∷ rs) s e on = record {
  threads = refl;
  max_same = refl;
  mutex = rw on refl;
  tokens = λ others h. omega (arith, ap length e);
  bound = λ h. omega (arith, ap length e);
  fifo = λ h. h ∙ ap (◌++◌ s.taken) e ∙ sym (append_assoc s.taken (some y ∷ []) rs);
  once = λ x. omega (arith, total-append (is_request x) s.taken (some y ∷ []));
}

-- What a step gives: nothing if the thread is blocked, or such a move.
abbrev pub Stepped : Thread → Pool → Option (Thread × Pool) → Type 0
Stepped t s none = Unit
Stepped t s (some (t', s')) = Moves t t' s s'

locked_of : (b : Bool) → 1 ≤ held b → b ≡ true
locked_of true h = refl
locked_of false h = absurd (omega arith)

-- A thread that locks, and the test of `m_stop`.
locks :
    (t t' : Thread) (s : Pool)
    → 1 + holds t ≡ holds t'
    → token t ≤ token t'
    → ((x : ℕ) → running x t' ≡ running x t)
    → Stepped t s (lock s >>= λ s'. some (t', s'))
locks t t' s m le r = go s.queuelocker refl
  where
    go :
        (b : Bool)
        → s.queuelocker ≡ b
        → Stepped t s
            ((if b then none else some (record s { queuelocker = true })) >>= λ s'. some (t', s'))
    go true e = tt
    go false e = quiet t t' s true s.queuestat (omega (arith, m, ap held e)) (omega arith) r

stops_or_waits : (s : Pool) (b : Bool) → Moves run_loop (if b then run_end else run_wait) s s
stops_or_waits s true =
    quiet run_loop run_end s s.queuelocker s.queuestat refl (omega arith) (λ x. refl)
stops_or_waits s false =
    quiet run_loop run_wait s s.queuelocker s.queuestat refl (omega arith) (λ x. refl)

pub advance-Stepped :
    (t : Thread) (interrupted : Bool) (s : Pool)
    → holds t ≤ held s.queuelocker
    → Stepped t s (advance t interrupted s)
unfolding advance wait
advance-Stepped (append_lock r) interrupted s h =
    locks (append_lock r) (append_locked r) s refl (omega arith) (λ x. refl)
advance-Stepped (append_locked r) interrupted s h = pushed r s (locked_of s.queuelocker h)
advance-Stepped append_post interrupted s h =
    quiet append_post (append_end true) s s.queuelocker (s.queuestat + 1) refl (omega arith)
      (λ x. refl)
advance-Stepped (append_end b) interrupted s h = tt
advance-Stepped run_loop interrupted s h = stops_or_waits s s.stop
advance-Stepped run_wait true s h =
    quiet run_wait run_lock s s.queuelocker s.queuestat refl (omega arith) (λ x. refl)
advance-Stepped run_wait false s h = elim (Nat-cases 0 s.queuestat) [
  | inl more ↦
      rw (==_eq_false s.queuestat 0 (omega arith))
        (quiet run_wait run_lock s s.queuelocker (s.queuestat - 1) refl (omega arith) (λ x. refl))
  | inr nothing ↦ rw ((==_iff s.queuestat 0).1 (omega arith)) tt
]
advance-Stepped run_lock interrupted s h =
    locks run_lock run_locked s refl (omega arith) (λ x. refl)
advance-Stepped run_locked interrupted s h = popped s.workqueue s refl (locked_of s.queuelocker h)
advance-Stepped (run_process y) interrupted s h = record {
  threads = refl;
  max_same = refl;
  mutex = refl;
  tokens = λ others k. k;
  bound = λ k. k;
  fifo = λ k. k;
  once = λ x. omega (arith, total-append (λ z. if z == x then 1 else 0) s.processed (y ∷ []));
}
advance-Stepped run_end interrupted s h = tt
