-- ===== src/Pool/Progress.antt =====
-- The pool does not come to a stop while a request is queued.
use light_nvm.Base.{
  ℕ, suc, ◌-◌, ◌<◌, ◌≡◌, ◌⊎◌, refl, inl, inr, ap, arith, List, [], ◌∷◌, length, total, true, false,
  Bool-cases, none, some, get_elem?, set, Nat-cases, ==_eq_false, if◌then◌else◌,
}
use light_nvm.Base.Partial.{◌>>=◌}
use light_nvm.Pool.{
  Thread, append_lock, append_locked, append_post, append_end, run_loop, run_wait, run_lock,
  run_locked, run_process, run_end, Pool, goes, advance, step, wait,
}
use light_nvm.Pool.Moves.{holds, token, held}
use light_nvm.Pool.Safety.{IsPool}

-- A thread that has not come to its end.
abbrev pub Alive : Thread → Type 0
Alive (append_end b) = ⊥
Alive run_end = ⊥
Alive _ = Unit

-- A thread with a positive number among threads whose sum is positive.
some_thread :
    (f : Thread → ℕ) (ts : List Thread)
    → 0 < total f ts
    → (i : ℕ) × (t : Thread) × (get_elem? ts i ≡ some t) × (0 < f t)
some_thread f [] h = absurd (omega arith)
some_thread f (t ∷ ts) h = elim (Nat-cases 0 (f t)) [
  | inl here ↦ (0, t, refl, here)
  | inr zero_here ↦
      let (i, u, e, k) = some_thread f ts (omega (arith, zero_here)) in (suc i, u, e, k)
]

abbrev MovesOn : Thread → Pool → Type 0
MovesOn t s = (r : Thread × Pool) × (advance t false s ≡ some r)

-- A thread inside of the lock moves on, and any thread that is alive while the lock is free and the
-- semaphore is positive.
holder-moves : (t : Thread) (s : Pool) → 0 < holds t → MovesOn t s
unfolding advance
holder-moves (append_locked r) s h = (_, refl)
holder-moves run_locked s h = (_, refl)
holder-moves (append_lock r) s h = absurd (omega arith)
holder-moves append_post s h = absurd (omega arith)
holder-moves (append_end b) s h = absurd (omega arith)
holder-moves run_loop s h = absurd (omega arith)
holder-moves run_wait s h = absurd (omega arith)
holder-moves run_lock s h = absurd (omega arith)
holder-moves (run_process x) s h = absurd (omega arith)
holder-moves run_end s h = absurd (omega arith)

free-moves :
    (t : Thread) (s : Pool)
    → s.queuelocker ≡ false
    → Alive t
    → (0 < token t) ⊎ (0 < s.queuestat)
    → MovesOn t s
unfolding advance wait
free-moves (append_lock r) s off a h = (
  _,
  ap
      (λ b. (if b then none else some (record s { queuelocker = true })) >>= λ s'.
        some (append_locked r, s'))
      off,
)
free-moves (append_locked r) s off a h = (_, refl)
free-moves append_post s off a h = (_, refl)
free-moves (append_end b) s off a h = absurd a
free-moves run_loop s off a h = (_, refl)
free-moves run_wait s off a (inl h) = absurd (omega arith)
free-moves run_wait s off a (inr h) = (
  (run_lock, record s { queuestat = s.queuestat - 1 }),
  rw (==_eq_false s.queuestat 0 (omega arith)) refl,
)
free-moves run_lock s off a h = (
  _,
  ap
      (λ b. (if b then none else some (record s { queuelocker = true })) >>= λ s'.
        some (run_locked, s'))
      off,
)
free-moves run_locked s off a h = (_, refl)
free-moves (run_process x) s off a h = (_, refl)
free-moves run_end s off a h = absurd a

token-Alive : (t : Thread) → 0 < token t → Alive t
token-Alive (append_lock r) h = tt
token-Alive (append_locked r) h = tt
token-Alive append_post h = tt
token-Alive (append_end b) h = absurd (omega arith)
token-Alive run_loop h = tt
token-Alive run_wait h = tt
token-Alive run_lock h = tt
token-Alive run_locked h = tt
token-Alive (run_process x) h = tt
token-Alive run_end h = absurd (omega arith)

step_of :
    (s : Pool) (i : ℕ) (t : Thread)
    → get_elem? s.threads i ≡ some t
    → MovesOn t s
    → (i : ℕ) × (s' : Pool) × (step (goes i false) s ≡ some s')
unfolding step
step_of s i t e ((t', s'), run) =
    (i, record s' { threads = set s'.threads i t' }, rw (e, ◌>>=◌, run) refl)

-- Where the invariant of the pool holds, as it does after every schedule: while a request is queued and some thread has not
-- come to its end, a thread can take its next step, without a signal: the pool has no deadlock, and no
-- request is left behind by sleeping workers.
pub pool-progress :
    (s : Pool) (i : ℕ) (t : Thread)
    → IsPool s
    → 0 < length s.workqueue
    → get_elem? s.threads i ≡ some t
    → Alive t
    → (j : ℕ) × (s' : Pool) × (step (goes j false) s ≡ some s')
pool-progress s i t v queued e a = elim (Bool-cases s.queuelocker) [
  | inl on ↦
      let (j, u, f, h) = some_thread holds s.threads (omega (arith, v.mutex, ap held on)) in
      step_of s j u f (holder-moves u s h)
  | inr off ↦ elim (Nat-cases 0 (total token s.threads)) [
    | inl fetching ↦
        let (j, u, f, h) = some_thread token s.threads fetching in
        step_of s j u f (free-moves u s off (token-Alive u h) (inl h))
    | inr sleeping ↦ step_of s i t e (free-moves t s off a (inr (omega (arith, v.tokens, queued))))
  ]
]
