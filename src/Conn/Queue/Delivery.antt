-- ===== src/Conn/Queue/Delivery.antt =====
-- The socket takes the bytes of the buffers that are queued, in order.
use light_nvm.Base.{
  take-all, ℕ, suc, ◌+◌, ◌-◌, ◌^◌, ◌<◌, ◌≤◌, ◌≡◌, inl, inr, refl, sym, ap, subst, ◌∙◌, arith, List,
  [], ◌∷◌, ◌++◌, append-nil, append_assoc, length, length-take, length-drop, take, drop,
  take-append-drop, drop-drop, drop-take, total, All, true, false, some, lt→ltb, le→ltb, Nat-cases,
  if◌then◌else◌, add64, sub64,
}
use light_nvm.Base.Partial.{◌>>=◌}
use light_nvm.Wire.Codec.{cut-take}
use light_nvm.Conn.Queue.{
  Bufferq, WriteResult, wrote, again, failed, Writer, returned, unwritten, advanced, written,
  on_write, is_waiting, taken,
}

-- What is still to be written lies within the block.
pub record IsBuffer (q : Bufferq) : Type 0 where
  pub within : q.offset ≤ q.len
  pub filled : q.len ≤ length q.buf
  pub small : q.len < 2 ^ 63

-- The bytes of a buffer that are still to be written, and those of a queue.
abbrev pub left : Bufferq → List ℕ
left q = take (q.len - q.offset) (drop q.offset q.buf)

abbrev pub left_all : List Bufferq → List ℕ
left_all [] = []
left_all (q ∷ qs) = left q ++ left_all qs

-- The write event is added if and only if the queue holds a buffer.
pub record IsWriter (w : Writer) : Type 0 where
  pub buffers : All IsBuffer w.writeq
  pub event : w.armed ≡ is_waiting w.writeq

sub64-sub : (a b : ℕ) → b ≤ a → a < 2 ^ 63 → sub64 a b ≡ a - b
sub64-sub a b h k = omega arith

unwritten-left : (q : Bufferq) → IsBuffer q → unwritten q ≡ some (left q)
unfolding unwritten
unwritten-left q i =
    rw
      (
        cut-take q.offset q.buf (omega (arith, i.within, i.filled)),
        ◌>>=◌,
        sub64-sub q.len q.offset i.within i.small,
        cut-take (q.len - q.offset) (drop q.offset q.buf)
            (omega (arith, i.within, i.filled, length-drop q.offset q.buf)),
      )
      refl

length-left : (q : Bufferq) → IsBuffer q → length (left q) ≡ q.len - q.offset
length-left q i = omega (
  arith,
  i.within,
  i.filled,
  length-take (q.len - q.offset) (drop q.offset q.buf),
  length-drop q.offset q.buf,
)

-- After `k` bytes, the rest is left.
left-advanced :
    (q : Bufferq) (k : ℕ)
    → IsBuffer q
    → q.offset + k ≤ q.len
    → left (advanced q k) ≡ drop k (left q)
left-advanced q k i h =
    let fits : add64 q.offset k ≡ q.offset + k = omega (arith, i.small) in
    rw (fits, drop-take k (q.len - q.offset) (drop q.offset q.buf), drop-drop k q.offset q.buf)
      (ap (λ n. take n (drop (q.offset + k) q.buf)) (omega arith))

advanced-IsBuffer :
    (q : Bufferq) (k : ℕ) → IsBuffer q → q.offset + k ≤ q.len → IsBuffer (advanced q k)
advanced-IsBuffer q k i h = record {
  within = omega (arith, i.small);
  filled = i.filled;
  small = i.small;
}

-- What `write` may return for some bytes: a number of them, which fits an `int`, or -1.
abbrev pub Allowed : WriteResult → List ℕ → Type 0
Allowed (wrote k) bytes = k ≤ length bytes
Allowed again bytes = Unit
Allowed failed bytes = ⊥

-- What is left to do for a queue: each byte, and the removal of each buffer.
abbrev pub work : List Bufferq → ℕ
work qs = total (λ q. suc (length (left q))) qs

-- A socket that is ready takes at least one byte, if it is handed any.
abbrev pub Progress : WriteResult → List ℕ → Type 0
Progress (wrote k) bytes = 0 < length bytes → 0 < k
Progress again bytes = ⊥
Progress failed bytes = ⊥

-- What a call of `on_write` on the front buffer `q` leaves.
pub record Delivers (result : WriteResult) (q : Bufferq) (qs : List Bufferq) (w w' : Writer)
    : Type 0 where
  pub writer : IsWriter w'
  pub sent : w'.sent ≡ w.sent ++ taken result (left q)
  pub progress : Progress result (left q) → work w'.writeq < work (q ∷ qs)
  pub conserved : w'.sent ++ left_all w'.writeq ≡ w.sent ++ (left q ++ left_all qs)

conserves :
    (sent bytes rest : List ℕ) (k : ℕ)
    → (sent ++ take k bytes) ++ (drop k bytes ++ rest) ≡ sent ++ (bytes ++ rest)
conserves sent bytes rest k =
    append_assoc sent (take k bytes) (drop k bytes ++ rest)
    ∙ ap (◌++◌ sent) (
        sym (append_assoc (take k bytes) (drop k bytes) rest)
        ∙ ap (λ xs. xs ++ rest) (take-append-drop k bytes))

module _ (q : Bufferq) (qs : List Bufferq) (w : Writer) (i : IsBuffer q) (is : All IsBuffer qs)
    (e : w.writeq ≡ q ∷ qs) where
  abbrev after_write : WriteResult → Writer
  after_write result = record w { sent = w.sent ++ taken result (left q) }

  abbrev Delivered : WriteResult → Type 0
  Delivered result =
      (w' : Writer) × (written result q qs (after_write result) ≡ returned w')
      × Delivers result q qs w w'

  written-part : (k : ℕ) → q.offset + k < q.len → Delivered (wrote k)
  unfolding written
  written-part k lt =
      let fits : add64 q.offset k ≡ q.offset + k = omega (arith, i.small) in
      (
        record w { writeq = advanced q k ∷ qs; armed = true; sent = w.sent ++ take k (left q) },
        rw (fits, lt→ltb (q.offset + k) q.len lt) refl,
        record {
          writer = record { buffers = (advanced-IsBuffer q k i (omega arith), is); event = refl };
          sent = refl;
          progress = λ p. omega (
            arith,
            p (omega (arith, length-left q i, lt)),
            length-left q i,
            length-left (advanced q k) (advanced-IsBuffer q k i (omega arith)),
            fits,
          );
          conserved =
              ap (λ bytes. (w.sent ++ take k (left q)) ++ (bytes ++ left_all qs))
                (left-advanced q k i (omega arith))
              ∙ conserves w.sent (left q) (left_all qs) k;
        },
      )

  written-all :
      (k : ℕ) → (w.armed ≡ false) → q.len ≤ q.offset + k → k ≤ length (left q) → Delivered (wrote k)
  unfolding written
  written-all k off ge le =
      let fits : add64 q.offset k ≡ q.offset + k =
        omega (arith, i.small, le, length-left q i, i.within) in
      (
        record w {
          writeq = qs;
          armed = if is_waiting qs then true else w.armed;
          sent = w.sent ++ take k (left q);
        },
        rw (fits, le→ltb (q.offset + k) q.len ge) refl,
        record {
          writer = record { buffers = is; event = event qs };
          sent = refl;
          progress = λ p. omega arith;
          conserved =
              append_assoc w.sent (take k (left q)) (left_all qs)
              ∙ ap (λ bytes. w.sent ++ (bytes ++ left_all qs))
                  (take-all k (left q) (omega (arith, ge, length-left q i)));
        },
      )
    where
      event : (qs : List Bufferq) → (if is_waiting qs then true else w.armed) ≡ is_waiting qs
      event [] = off
      event (p ∷ ps) = refl

  written-Delivers :
      (result : WriteResult) → w.armed ≡ false → Allowed result (left q) → Delivered result
  unfolding written
  written-Delivers (wrote k) off h = elim (Nat-cases (q.offset + k) q.len) [
    | inl part ↦ written-part k part
    | inr all ↦ written-all k off all h
  ]
  written-Delivers again off h = (
    record w { armed = true; sent = w.sent ++ [] },
    refl,
    record {
      writer = rw e (record { buffers = (i, is); event = refl });
      sent = refl;
      progress = λ p. absurd p;
      conserved = rw (e, append-nil) refl;
    },
  )
  written-Delivers failed off h = absurd h

  on_write-written :
      (result : WriteResult) → on_write result w ≡ some (written result q qs (after_write result))
  unfolding on_write
  on_write-written result = rw (e, unwritten-left q i) refl

-- Where the queue is not empty, and the event is no longer pending since it has fired, `on_write`
-- meets no undefined behaviour whatever `write` returns but a fatal error. The socket has taken the
-- next bytes, and those with the bytes that are left are the same as before, in order; the write
-- event is added again if and only if a buffer is left.
pub on_write-Delivers :
    (result : WriteResult) (w : Writer) (q : Bufferq) (qs : List Bufferq)
    → All IsBuffer w.writeq
    → w.writeq ≡ q ∷ qs
    → w.armed ≡ false
    → Allowed result (left q)
    → (w' : Writer) × (on_write result w ≡ some (returned w')) × Delivers result q qs w w'
on_write-Delivers result w q qs bs e off h =
    let is : All IsBuffer (q ∷ qs) = subst (All IsBuffer) e bs in
    let (w', run, d) = written-Delivers q qs w is.0 is.1 e result off h in
    (w', on_write-written q qs w is.0 is.1 e result ∙ ap some run, d)
