-- ===== src/Conn/Queue/Runs.antt =====
-- The queue of a client over time: handlers queue buffers, and libevent calls `on_write`.
use light_nvm.Base.{
  ℕ, zero, suc, ◌<◌, ◌≤◌, ◌≡◌, inl, inr, refl, sym, ap, subst, ◌∙◌, arith, List, [], ◌∷◌, ◌++◌,
  append-nil, append_assoc, All-append, true, false, Option, some, if◌then◌else◌, List-cases,
}
use light_nvm.Base.Partial.{◌>>=◌}
use light_nvm.Conn.Queue.{
  Bufferq, WriteResult, Writer, Outcome, returned, exited, push, on_write, is_waiting,
}
use light_nvm.Conn.Queue.Delivery.{
  IsBuffer, IsWriter, left, left_all, work, Allowed, Progress, on_write-Delivers,
}

-- libevent removes the event when it fires, since it was set without EV_PERSIST.
abbrev pub fired : Writer → Writer
fired w = record w { armed = false }

-- A run, and the bytes of the buffers that are queued in it.
pub data Runs : Writer → List ℕ → Writer → Type 0 where
  nothing : {w : Writer} → Runs w [] w
  queue :
      {w w' : Writer} (q : Bufferq) {bytes : List ℕ}
      → IsBuffer q
      → Runs (push q w) bytes w'
      → Runs w (left q ++ bytes) w'
  write :
      {w w' : Writer} (w1 : Writer) (q : Bufferq) (qs : List Bufferq) (result : WriteResult)
      {bytes : List ℕ}
      → w.armed ≡ true
      → w.writeq ≡ q ∷ qs
      → Allowed result (left q)
      → on_write result (fired w) ≡ some (returned w1)
      → Runs w1 bytes w'
      → Runs w bytes w'

left_all-append : (ps qs : List Bufferq) → left_all (ps ++ qs) ≡ left_all ps ++ left_all qs
left_all-append [] qs = refl
left_all-append (p ∷ ps) qs =
    ap (◌++◌ (left p)) (left_all-append ps qs)
    ∙ sym (append_assoc (left p) (left_all ps) (left_all qs))

is_waiting-snoc : (qs : List Bufferq) (q : Bufferq) → is_waiting (qs ++ q ∷ []) ≡ true
is_waiting-snoc [] q = refl
is_waiting-snoc (p ∷ ps) q = refl

pub push-IsWriter : (w : Writer) (q : Bufferq) → IsWriter w → IsBuffer q → IsWriter (push q w)
unfolding push
push-IsWriter w q i b = record {
  buffers = All-append IsBuffer w.writeq (q ∷ []) i.buffers (b, tt);
  event = sym (is_waiting-snoc w.writeq q);
}

-- The bytes that the socket has taken, with those that are left.
abbrev pub stream : Writer → List ℕ
stream w = w.sent ++ left_all w.writeq

push-stream : (w : Writer) (q : Bufferq) → stream (push q w) ≡ stream w ++ left q
unfolding push
push-stream w q =
    ap (◌++◌ w.sent)
      (left_all-append w.writeq (q ∷ []) ∙ ap (◌++◌ (left_all w.writeq)) (append-nil (left q)))
    ∙ sym (append_assoc w.sent (left_all w.writeq) (left q))

-- From one call of `on_write`, after the event has fired.
module _ (result : WriteResult) (w : Writer) (q : Bufferq) (qs : List Bufferq) (i : IsWriter w)
    (e : w.writeq ≡ q ∷ qs) (h : Allowed result (left q)) where
  abbrev Fires : Writer → Type 0
  Fires w1 =
      IsWriter w1
      × (stream w1 ≡ stream w)
      × (Progress result (left q) → work w1.writeq < work w.writeq)

  fires : (w1 : Writer) × (on_write result (fired w) ≡ some (returned w1)) × Fires w1
  fires =
      let (w1, run, d) = on_write-Delivers result (fired w) q qs i.buffers e refl h in
      (
        w1,
        run,
        (
          d.writer,
          d.conserved ∙ ap (λ ps. w.sent ++ left_all ps) (sym e),
          λ p. subst (λ ps. work w1.writeq < work ps) (sym e) (d.progress p),
        ),
      )

  fires_with :
      (w1 : Writer)
      → on_write result (fired w) ≡ some (returned w1)
      → IsWriter w1 × (stream w1 ≡ stream w)
  fires_with w1 run =
      let (w2, run2, (i2, s2, p2)) = fires in
      let same : w2 ≡ w1 = cc (run, run2) in (subst IsWriter same i2, ap stream (sym same) ∙ s2)

-- Whatever the writes return, as long as none fails: the socket has taken a part of the bytes of the
-- buffers in the order in which they were queued, and the rest of them is what the queue holds; and
-- the write event is added if and only if a buffer is left.
pub Runs-delivers :
    {w w' : Writer} {bytes : List ℕ}
    → IsWriter w
    → Runs w bytes w'
    → IsWriter w' × (stream w' ≡ stream w ++ bytes)
Runs-delivers {w} i nothing = (i, sym (append-nil (stream w)))
Runs-delivers {w} i (queue q {bytes} b r) =
    let (i', s) = Runs-delivers (push-IsWriter w q i b) r in
    (i', s ∙ ap (λ xs. xs ++ bytes) (push-stream w q) ∙ append_assoc (stream w) (left q) bytes)
Runs-delivers {w} i (write w1 q qs result {bytes} on e h run r) =
    let (i1, s1) = fires_with result w q qs i e h w1 run in
    let (i', s) = Runs-delivers i1 r in (i', s ∙ ap (λ xs. xs ++ bytes) s1)

-- libevent calls `on_write` while the event is added, at most `n` times; `socket` says what `write`
-- returns in each state.
unfoldable pub drain : ℕ → (Writer → WriteResult) → Writer → Option Outcome
unfolding on_write
drain zero socket w = some (returned w)
drain (suc n) socket w =
    let after : Option Outcome = on_write (socket w) (fired w) >>= λ o. elim o [
      | returned w' ↦ drain n socket w'
      | exited ↦ some exited
    ] in
    if w.armed then after else some (returned w)

drain-armed :
    (n : ℕ) (socket : Writer → WriteResult) (w w1 : Writer)
    → w.armed ≡ true
    → on_write (socket w) (fired w) ≡ some (returned w1)
    → drain (suc n) socket w ≡ drain n socket w1
unfolding drain
drain-armed n socket w w1 on run = rw (run, on) refl

-- The socket of a client that keeps reading: `write` takes at least a byte whenever it is called.
abbrev pub Reads : (Writer → WriteResult) → Type 0
Reads socket =
    (w : Writer) (q : Bufferq) (qs : List Bufferq)
    → w.writeq ≡ q ∷ qs
    → Allowed (socket w) (left q) × Progress (socket w) (left q)

-- A client that keeps reading gets everything: after at most as many calls of `on_write` as there are
-- bytes and buffers left, the queue is empty, and the socket has taken all the bytes in order.
pub drain-Sends :
    (socket : Writer → WriteResult)
    → Reads socket
    → (n : ℕ) (w : Writer) → IsWriter w
    → work w.writeq ≤ n
    → (w' : Writer) × (drain n socket w ≡ some (returned w'))
      × (w'.writeq ≡ [])
      × (w'.sent ≡ stream w)
unfolding drain
drain-Sends socket reads zero w i le = elim (List-cases w.writeq) [
  | inl e ↦ (w, refl, e, rw (e, append-nil) refl)
  | inr (q, qs, e) ↦ absurd (no_work e le)
]
  where
    no_work : {ps qs : List Bufferq} {q : Bufferq} → ps ≡ q ∷ qs → work ps ≤ 0 → ⊥
    no_work e le = absurd (omega (arith, subst (λ ps. work ps ≤ 0) e le))
drain-Sends socket reads (suc n) w i le = elim (List-cases w.writeq) [
  | inl e ↦ (w, rw (i.event, e) refl, e, rw (e, append-nil) refl)
  | inr (q, qs, e) ↦
      let h = reads w q qs e in
      let (w1, run, (i1, s1, p1)) = fires (socket w) w q qs i e h.0 in
      let (w', rest, done, all) = drain-Sends socket reads n w1 i1 (omega (arith, p1 h.1, le)) in
      (w', drain-armed n socket w w1 (i.event ∙ ap is_waiting e) run ∙ rest, done, all ∙ s1)
]
