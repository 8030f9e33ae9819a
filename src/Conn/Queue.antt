-- ===== src/Conn/Queue.antt =====
-- `bufferq` of ocssd_conn.h, and `on_write` of ocssd_libevent_server.cc: the queue of what is to be
-- written to a client.
pub mod Delivery
pub mod Runs
use light_nvm.Base.{
  ℕ, ◌+◌, List, [], ◌∷◌, ◌++◌, take, Bool, true, false, Option, none, some, ltb, if◌then◌else◌,
  add64, sub64,
}
use light_nvm.Base.Partial.{◌>>=◌}
use light_nvm.Wire.Cursor.{cut}

pub record Bufferq : Type 0 where
  pub buf : List ℕ
  pub len : ℕ
  pub offset : ℕ

-- `malloc` gives the bytes of a new block, or NULL; the code does not test for NULL. This is for the
-- handlers that go on to store into the block: `none`.
unfoldable pub make : (ℕ → Option (List ℕ)) → ℕ → Option Bufferq
make malloc size = do buf ← malloc size; some (record { buf = buf; len = size; offset = 0 })

-- What `write` returns: a number of bytes, -1 with EINTR or EAGAIN, or -1 with another error.
pub data WriteResult : Type 0 where
  wrote : ℕ → WriteResult
  again : WriteResult
  failed : WriteResult

-- The queue, whether the write event is added, and the bytes that the socket has taken.
pub record Writer : Type 0 where
  pub writeq : List Bufferq
  pub armed : Bool
  pub sent : List ℕ

-- `on_write` returns, or ends the process by `err`.
pub data Outcome : Type 0 where
  returned : Writer → Outcome
  exited : Outcome

-- `writeq.push_back(bufferq); event_add(&ev_write, NULL);`
unfoldable pub push : Bufferq → Writer → Writer
push q w = record w { writeq = w.writeq ++ q ∷ []; armed = true }

-- The bytes that are handed to `write`; `none` where they are not in the block.
unfoldable pub unwritten : Bufferq → Option (List ℕ)
unwritten q = do
  (_, rest) ← cut q.offset q.buf
  (bytes, _) ← cut (sub64 q.len q.offset) rest
  some bytes

-- The branch for a buffer of which not all was written.
abbrev pub advanced : Bufferq → ℕ → Bufferq
advanced q k = record q { offset = add64 q.offset k }

-- `writeq.size() > 0`
abbrev pub is_waiting : List Bufferq → Bool
is_waiting [] = false
is_waiting (q ∷ qs) = true

-- What follows the call of `write`, on the buffer `q` in front of `qs`.
unfoldable pub written : WriteResult → Bufferq → List Bufferq → Writer → Outcome
written again q qs w = returned (record w { armed = true })
written failed q qs w = exited
written (wrote k) q qs w =
    if ltb (add64 q.offset k) q.len
    then returned (record w { writeq = advanced q k ∷ qs; armed = true })
    else returned (record w { writeq = qs; armed = if is_waiting qs then true else w.armed })

-- The bytes that the socket takes of those that it is handed.
abbrev pub taken : WriteResult → List ℕ → List ℕ
taken (wrote k) bytes = take k bytes
taken again bytes = []
taken failed bytes = []

-- `front` of an empty deque is undefined behaviour.
unfoldable pub on_write : WriteResult → Writer → Option Outcome
unfolding unwritten written
on_write result w = elim w.writeq [
  | [] ↦ none
  | q ∷ qs ↦ do
    bytes ← unwritten q
    some (written result q qs (record w { sent = w.sent ++ taken result bytes }))
]
