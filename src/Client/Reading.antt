-- ===== src/Client/Reading.antt =====
-- The loop in which the client receives the data of a block, and the whole of `test_read_block`.
use light_nvm.Base.{
  le→leb, lt→leb, ℕ, ◌+◌, ◌^◌, ◌<◌, ◌≤◌, ◌≡◌, inl, inr, refl, sym, ap, ◌∙◌, arith, List, [], ◌∷◌,
  ◌++◌, append-nil, append_assoc, length, length-append, length-replicate, take, drop, take-front,
  drop-front, drop-drop, replicate, split_at, nil_of_length, Option, some, leb, ==_eq_false,
  if◌then◌else◌, Nat-cases,
}
use light_nvm.Base.Partial.{◌>>=◌}
use light_nvm.Wire.Cursor.{at}
use light_nvm.Request.{parsed, read_block_request}
use light_nvm.Request.Io
use light_nvm.Request.Io.RoundTrip as IoTrip
use light_nvm.Conn.Receive.{ReadResult, received, arrives, joined, Nonempty}
use light_nvm.Client.{Sock, store_at, recv_loop, test_read_block}
use light_nvm.Client.Stream.{Sends, send_request-Sends}

-- A store behind what is there already.
store_at-behind :
    (done old c rest : List ℕ)
    → length old ≡ length c
    → store_at (length done) c (done ++ (old ++ rest)) ≡ some (done ++ (c ++ rest))
store_at-behind done old c rest e =
    let front : take (length done) (done ++ (old ++ rest)) ≡ done =
      take-front (length done) done (old ++ rest) refl in
    let back : drop (length done + length c) (done ++ (old ++ rest)) ≡ rest =
      sym (drop-drop (length c) (length done) (done ++ (old ++ rest)))
      ∙ ap (drop (length c)) (drop-front (length done) done (old ++ rest) refl)
      ∙ drop-front (length c) old rest e in
    rw
      (
        le→leb (length done + length c) (length (done ++ (old ++ rest)))
            (omega (arith, length-append done (old ++ rest), length-append old rest, e)),
        front,
        back,
      )
      refl

-- One round of the loop, for a chunk that the buffer has room for.
recv_loop-round :
    (count : ℕ) (done old c rest : List ℕ) (reads : List ReadResult)
    → 0 < length c
    → length old ≡ length c
    → recv_loop count (done ++ (old ++ rest)) (length done) (received c ∷ reads) ≡ (
        if leb count (length done + length c)
        then some (done ++ (c ++ rest), length done + length c, reads)
        else recv_loop count (done ++ (c ++ rest)) (length done + length c) reads)
unfolding recv_loop
recv_loop-round count done old [] rest reads h e = absurd (omega arith)
recv_loop-round count done old (b ∷ bs) rest reads h e =
    rw (store_at-behind done old (b ∷ bs) rest e, ◌>>=◌) refl

joined_nil : (chunks : List (List ℕ)) → Nonempty chunks → length (joined chunks) ≡ 0 → chunks ≡ []
joined_nil [] h e = refl
joined_nil (c ∷ cs) h e = absurd (omega (arith, h.0, length-append c (joined cs)))

-- How the loop ends.
abbrev ended : List ℕ → ℕ → List ReadResult → Option (List ℕ × ℕ × List ReadResult)
ended data_buf got reads = some (data_buf, got, reads)

ended-full :
    (count : ℕ) (done c rest : List ℕ) (cs : List (List ℕ)) (more : List ReadResult)
    → rest ≡ []
    → cs ≡ []
    → length done + length c ≡ count
    → ended (done ++ (c ++ rest)) (length done + length c) (arrives cs more)
      ≡ ended (done ++ (c ++ joined cs)) count more
ended-full count done c rest cs more e f size = rw (e, f, size) refl

-- Chunks that together have the size of the rest of the buffer fill it, and the loop ends.
pub recv_loop-filled :
    (count : ℕ) (done rest : List ℕ) (chunks : List (List ℕ)) (more : List ReadResult)
    → Nonempty chunks
    → length done < count
    → length done + length rest ≡ count
    → length (joined chunks) ≡ length rest
    → recv_loop count (done ++ rest) (length done) (arrives chunks more)
      ≡ some (done ++ joined chunks, count, more)
recv_loop-filled count done rest [] more h lt size e = absurd (omega arith)
recv_loop-filled count done rest (c ∷ cs) more h lt size e =
    let (old, rest', len, split) =
      split_at (length c) rest (omega (arith, e, length-append c (joined cs))) in
    let left : length (joined cs) ≡ length rest' =
      omega
        (arith, e, length-append c (joined cs), ap length split, length-append old rest', len) in
    ap (λ b. recv_loop count (done ++ b) (length done) (received c ∷ arrives cs more)) split
    ∙ recv_loop-round count done old c rest' (arrives cs more) h.0 len
    ∙ elim (Nat-cases (length done + length c) count) [
      | inl not_yet ↦ rw (lt→leb count (length done + length c) not_yet) (
          ap (λ b. recv_loop count b (length done + length c) (arrives cs more))
            (sym (append_assoc done c rest'))
          ∙ ap (λ n. recv_loop count ((done ++ c) ++ rest') n (arrives cs more))
              (sym (length-append done c))
          ∙ recv_loop-filled count (done ++ c) rest' cs more h.1
              (omega (arith, length-append done c, not_yet))
              (omega
                (arith, length-append done c, size, ap length split, length-append old rest', len))
              left
          ∙ ap (λ b. some (b, count, more)) (append_assoc done c (joined cs)))
      | inr full ↦
          let empty : rest' ≡ [] =
            nil_of_length rest'
              (omega (arith, full, size, ap length split, length-append old rest', len)) in
          let last : cs ≡ [] = joined_nil cs h.1 (left ∙ ap length empty) in
          rw (le→leb count (length done + length c) full) (
            ended-full count done c rest' cs more empty last
              (omega (arith, full, size, ap length split, length-append old rest', len)))
    ]

-- `memset(data_buf, 'b', count)`
abbrev blank : ℕ → List ℕ
blank n = replicate n b'b'

length-blank : (n : ℕ) → length (blank n) ≡ n
length-blank n = length-replicate n b'b'

-- A client reads a block, and its socket takes the message whole: what it sends parses as its request. If
-- the data arrives, in whatever chunks, it ends with exactly the data in its buffer, and leaves what
-- comes behind.
pub test_read_block-data :
    (malloc : ℕ → Option (List ℕ)) (buffer data_buf : List ℕ) (idx count offset : ℕ) (s : Sock)
    (k : ℕ) (ks : List ℕ) (chunks : List (List ℕ)) (more : List ReadResult)
    → idx < 2 ^ 32
    → count < 2 ^ 64
    → offset < 2 ^ 64
    → 0 < count
    → 24 ≤ length buffer
    → s.sends ≡ k ∷ ks
    → 24 ≤ k
    → malloc count ≡ some data_buf
    → length data_buf ≡ count
    → Nonempty chunks
    → length (joined chunks) ≡ count
    → s.recvs ≡ arrives chunks more
    → (out : List ℕ) × (length out ≡ 24)
      × (Io.of_buffer out
          ≡ some (
              parsed (record {
                command = read_block_request;
                block_index = idx;
                count = count;
                offset = offset;
              })))
      × (test_read_block malloc buffer idx count offset s
          ≡ some
              (joined chunks, count, record s { sent = s.sent ++ out; sends = ks; recvs = more }))
unfolding test_read_block Io.make Io.of_buffer
test_read_block-data malloc buffer data_buf idx count offset s k ks chunks more index amount place
      some_data enough sends le given size ne all arrive =
    let request : Io.IoRequest = record {
      command = read_block_request;
      block_index = idx;
      count = count;
      offset = offset;
    } in
    let made : Io.make read_block_request idx count offset ≡ request = ground arith in
    let p : Sends (Io.serialize request) Io.parse (parsed request) 24 buffer s ks =
      send_request-Sends
        (IoTrip.Codes-io request (inl refl)
          (record { index = index; count = amount; offset = place }))
        buffer s k ks enough sends le in
    let room : List ℕ = blank (length data_buf) in
    let filled =
      recv_loop-filled count [] room chunks more ne some_data
        (omega (arith, length-blank (length data_buf), size))
        (all ∙ sym size ∙ sym (length-blank (length data_buf))) in
    (
      p.out,
      p.len,
      rw (ap (λ bytes. Io.parse (at [] bytes)) (sym (append-nil p.out)) ∙ p.read_back [] []) refl,
      rw (made, p.run, ◌>>=◌, given, arrive, filled, ==_eq_false count 0 (omega arith)) refl,
    )
