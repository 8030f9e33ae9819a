-- ===== src/Conn/Receive.antt =====
-- The loops of ocssd_conn.h that read from the socket until a buffer is full.
use light_nvm.Base.{
  ℕ, ◌+◌, ◌<◌, ◌≤◌, ◌≡◌, ◌⊎◌, inl, inr, refl, sym, ap, ◌∙◌, arith, List, [], ◌∷◌, ◌++◌, append-nil,
  append_assoc, length, length-append, All, Option, none, some, ltb, lt→ltb, le→ltb, if◌then◌else◌,
}

-- What a call of `read` returns: some bytes, none of them if the client has disconnected, or -1.
pub data ReadResult : Type 0 where
  received : List ℕ → ReadResult
  failed : ReadResult

-- How the loop ends, with what it has read and the results of the reads to come.
pub data Received : Type 0 where
  filled : List ℕ → List ReadResult → Received
  closed : List ℕ → List ReadResult → Received

-- `size` is the size of the buffer and `got` what it holds already. `read` returns no more bytes than it
-- is asked for and at most 0x7ffff000, so `int len` holds the number. `none` is that the list gives no
-- further result.
unfoldable pub receive : ℕ → List ℕ → List ReadResult → Option Received
receive size got [] = if ltb (length got) size then none else some (filled got [])
receive size got (failed ∷ reads) =
    if ltb (length got) size then some (closed got reads) else some (filled got (failed ∷ reads))
receive size got (received [] ∷ reads) =
    if ltb (length got) size
    then some (closed got reads)
    else some (filled got (received [] ∷ reads))
receive size got (received (b ∷ bs) ∷ reads) =
    let more = receive size (got ++ b ∷ bs) reads in
    if ltb (length got) size then more else some (filled got (received (b ∷ bs) ∷ reads))

-- What arrives in chunks.
abbrev pub arrives : List (List ℕ) → List ReadResult → List ReadResult
arrives [] reads = reads
arrives (c ∷ cs) reads = received c ∷ arrives cs reads

abbrev pub joined : List (List ℕ) → List ℕ
joined [] = []
joined (c ∷ cs) = c ++ joined cs

abbrev pub Nonempty : List (List ℕ) → Type 0
Nonempty cs = All (λ c. 0 < length c) cs

receive-full :
    (size : ℕ) (got : List ℕ) (reads : List ReadResult)
    → size ≤ length got
    → receive size got reads ≡ some (filled got reads)
unfolding receive
receive-full size got [] h = rw (le→ltb (length got) size h) refl
receive-full size got (failed ∷ reads) h = rw (le→ltb (length got) size h) refl
receive-full size got (received [] ∷ reads) h = rw (le→ltb (length got) size h) refl
receive-full size got (received (b ∷ bs) ∷ reads) h = rw (le→ltb (length got) size h) refl

receive-more :
    (size : ℕ) (got c : List ℕ) (reads : List ReadResult)
    → length got < size
    → 0 < length c
    → receive size got (received c ∷ reads) ≡ receive size (got ++ c) reads
unfolding receive
receive-more size got [] reads h k = absurd (omega arith)
receive-more size got (b ∷ bs) reads h k = rw (lt→ltb (length got) size h) refl

-- Bytes that are as many as the buffer has room for fill it, in whatever chunks they arrive, and the
-- loop reads nothing behind them.
pub receive-filled :
    (size : ℕ) (got : List ℕ) (chunks : List (List ℕ)) (reads : List ReadResult)
    → Nonempty chunks
    → length got + length (joined chunks) ≡ size
    → receive size got (arrives chunks reads) ≡ some (filled (got ++ joined chunks) reads)
receive-filled size got [] reads h e =
    receive-full size got reads (omega arith)
    ∙ ap (λ bs. some (filled bs reads)) (sym (append-nil got))
receive-filled size got (c ∷ cs) reads h e =
    receive-more size got c (arrives cs reads) (omega (arith, h.0, length-append c (joined cs))) h.0
    ∙ receive-filled size (got ++ c) cs reads h.1
        (omega (arith, length-append got c, length-append c (joined cs)))
    ∙ ap (λ bs. some (filled bs reads)) (append_assoc got c (joined cs))

-- If `read` fails or the client disconnects after fewer bytes than the buffer has room for, the loop ends
-- with the connection closed, and the buffer holds what has arrived.
pub receive-closed :
    (size : ℕ) (got : List ℕ) (chunks : List (List ℕ)) (last : ReadResult) (reads : List ReadResult)
    → Nonempty chunks
    → length got + length (joined chunks) < size
    → (last ≡ failed) ⊎ (last ≡ received [])
    → receive size got (arrives chunks (last ∷ reads)) ≡ some (closed (got ++ joined chunks) reads)
unfolding receive
receive-closed size got [] last reads h lt (inl e) =
    rw (e, lt→ltb (length got) size (omega arith), append-nil) refl
receive-closed size got [] last reads h lt (inr e) =
    rw (e, lt→ltb (length got) size (omega arith), append-nil) refl
receive-closed size got (c ∷ cs) last reads h lt e =
    receive-more size got c (arrives cs (last ∷ reads)) (omega (arith, length-append c (joined cs)))
      h.0
    ∙ receive-closed size (got ++ c) cs last reads h.1
        (omega (arith, length-append got c, length-append c (joined cs))) e
    ∙ ap (λ bs. some (closed bs reads)) (append_assoc got c (joined cs))
