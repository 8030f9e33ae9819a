-- ===== src/Client/Session.antt =====
-- The client and the server together: what one sends is what the other handles.
use light_nvm.Base.{
  take-all, ℕ, ◌^◌, ◌<◌, ◌≤◌, ◌≡◌, inl, inr, refl, sym, subst, ap, ◌∙◌, arith, List, [], ◌∷◌, ◌++◌,
  append-nil, append_assoc, append_cancel, append_parts, length, length-replicate, drop, replicate,
  Option, none, some, get_elem?,
}
use light_nvm.Base.Int.{pos}
use light_nvm.Base.Partial.{◌>>=◌}
use light_nvm.Wire.Cursor.{at}
use light_nvm.Request.{parsed, write_block_request}
use light_nvm.Request.Io
use light_nvm.Request.Io.RoundTrip as IoTrip
use light_nvm.Request.Alloc
use light_nvm.Request.Alloc.{AllocRequest}
use light_nvm.Request.Alloc.RoundTrip.{InRange, Codes-alloc}
use light_nvm.Vssd.Member.{VirtualUnit, NvmGeo}
use light_nvm.Vssd.Ssd.{VirtualOcssd}
use light_nvm.Vssd.RoundTrip.Whole.{vssd_size}
use light_nvm.Device.Manager.Grant.{IsManager, Serves}
use light_nvm.Conn.Nvm.{Nvm}
use light_nvm.Conn.Queue.{Bufferq, push}
use light_nvm.Conn.Queue.Delivery.{left}
use light_nvm.Conn.Receive.{ReadResult, received, arrives, joined, Nonempty}
use light_nvm.Conn.Handlers.{publish, Conn, Handled, returned, with_dev, and_reads, process_command}
use light_nvm.Conn.Handlers.Commands.{handling, process_command-write}
use light_nvm.Conn.Handlers.Answers.{
  Carries, Answer, refused, sent, overflow, process_command-alloc,
}
use light_nvm.Client.{Sock, send_request, ask, test_write_block}
use light_nvm.Client.Stream.{Sends, send_request-Sends, recv_buffer-front}

-- The client's side of an allocation, for an answer that arrives in one piece.
module _ (garbage : NvmGeo) (r : AllocRequest) (s : Sock) (k : ℕ) (ks : List ℕ)
    (rest : List ReadResult) (fits : InRange r) (some_sent : s.sends ≡ k ∷ ks)
    (all_sent : 24 ≤ k) where
  request-Sends : Sends (Alloc.serialize r) Alloc.parse (parsed r) 24 (replicate 1024 0) s ks
  request-Sends =
      send_request-Sends (Codes-alloc r fits) (replicate 1024 0) s k ks
        (omega (arith, length-replicate {A = ℕ} 1024 0)) some_sent all_sent

  ask-Carries :
      (q : Bufferq) (v : VirtualOcssd)
      → Carries q v
      → vssd_size v ≤ 1024
      → s.recvs ≡ received (left q) ∷ rest
      → ask garbage r s
        ≡ some (v, record s { sent = s.sent ++ request-Sends.out; sends = ks; recvs = rest })
  unfolding ask
  ask-Carries q v c small e =
      let p = request-Sends in
      let found =
        recv_buffer-front p.after (left q) (record s { sent = s.sent ++ p.out; sends = ks }) rest
          (omega (arith, c.size, p.same_size, length-replicate {A = ℕ} 1024 0)) e in
      rw (p.run, ◌>>=◌, found, c.read_back garbage (drop (length (left q)) p.after)) refl

  -- The request as the server parses it.
  request_parsed : Alloc.of_buffer request-Sends.out ≡ some (parsed r)
  unfolding Alloc.of_buffer
  request_parsed =
      let p = request-Sends in
      rw (ap (λ bytes. Alloc.parse (at [] bytes)) (sym (append-nil p.out)) ∙ p.read_back [] []) refl

-- Two queues that are one buffer longer than a third end in the same buffer.
snoc_cancel : (qs : List Bufferq) (p q : Bufferq) → qs ++ p ∷ [] ≡ qs ++ q ∷ [] → p ≡ q
snoc_cancel qs p q e = cc (append_cancel qs (p ∷ []) (q ∷ []) e)

module _ (nvm : Nvm) (malloc : ℕ → Option (List ℕ)) (fuel : ℕ) where
  -- What an answer of 0 with one more buffer in the queue says.
  answered :
      (v : VirtualOcssd) (c c' : Conn nvm malloc) (o : Option (Handled nvm malloc)) (q : Bufferq)
      → Answer nvm malloc fuel v c o
      → o ≡ some (returned (pos 0) c')
      → c'.writer.writeq ≡ c.writer.writeq ++ q ∷ []
      → Carries q v × (vssd_size v ≤ 1024) × (c'.manager ≡ c.manager)
  unfolding push publish
  answered v c c' o q (refused few e) run one = absurd (cc (e, run))
  answered v c c' o q (overflow some_granted long e) run one = absurd (cc (e, run))
  answered v c c' o q (sent p some_granted small e carried) run one =
      let same : publish nvm malloc (record c { writer = push p c.writer }) ≡ c' = cc (e, run) in
      let queued = ap (λ (x : Conn nvm malloc). x.writer.writeq) same ∙ one in
      (
        subst (λ b. Carries b v) (snoc_cancel c.writer.writeq p q queued) carried,
        small,
        ap (λ (x : Conn nvm malloc). x.manager) (sym same),
      )

  handled_of :
      (o : Option (Handled nvm malloc)) (h : Handled nvm malloc) (reads rest : List ReadResult)
      → and_reads nvm malloc reads o ≡ some (h, rest)
      → o ≡ some h
  handled_of none h reads rest e = absurd (cc e)
  handled_of (some x) h reads rest e = cc e

  -- A client asks a server for channels that are not remote. Its socket takes the whole request, the server
  -- reads it in any chunks and answers with 0, and the bytes that the server has queued arrive at the
  -- client in one piece: then the client holds exactly the virtual OCSSD that the manager has
  -- allocated for it.
  pub ask-Granted :
      (garbage : NvmGeo) (r : AllocRequest) (s s1 : Sock) (buffer room : List ℕ) (k : ℕ)
      (ks : List ℕ) (ms : List (List ℕ)) (reads reads' rest : List ReadResult)
      (c c' : Conn nvm malloc) (q : Bufferq)
      → InRange r
      → r.remote ≡ 0
      → s.sends ≡ k ∷ ks
      → 24 ≤ k
      → send_request (Alloc.serialize r) (replicate 1024 0) s ≡ some (buffer, s1)
      → s1.sent ≡ s.sent ++ joined ms
      → Nonempty ms
      → c.message ≡ []
      → IsManager c.manager
      → malloc 1024 ≡ some room
      → length room ≡ 1024
      → process_command nvm malloc fuel (arrives ms reads) c ≡ some (returned (pos 0) c', reads')
      → c'.writer.writeq ≡ c.writer.writeq ++ q ∷ []
      → s.recvs ≡ received (left q) ∷ rest
      → (us : List VirtualUnit) × Serves c.manager c'.manager us
        × (ask garbage r s
            ≡ some (
              record { id = c.manager.vssd_id; units = us },
              record s { sent = s.sent ++ joined ms; sends = ks; recvs = rest },
            ))
  ask-Granted garbage r s s1 buffer room k ks ms reads reads' rest c c' q fits local e le request
        stream ne idle i m size run one got =
      let p = request-Sends garbage r s k ks rest fits e le in
      let ends : record s { sent = s.sent ++ p.out; sends = ks } ≡ s1 = cc (p.run, request) in
      let same : p.out ≡ joined ms =
        append_cancel s.sent p.out (joined ms) (ap (λ (x : Sock). x.sent) ends ∙ stream) in
      let (m', us, o, serves, ran, answer) =
        process_command-alloc nvm malloc fuel ms r reads c room idle ne
          (ap length (sym same) ∙ p.len)
          (subst (λ bytes. Alloc.of_buffer bytes ≡ some (parsed r)) same
            (request_parsed garbage r s k ks rest fits e le))
          fits local i m size in
      let v : VirtualOcssd = record { id = c.manager.vssd_id; units = us } in
      let (carried, small, managers) =
        answered v (record c { manager = m'; message = [] }) c' o q answer
          (handled_of o (returned (pos 0) c') reads reads' (sym ran ∙ run)) one in
      (
        us,
        subst (λ x. Serves c.manager x us) (sym managers) serves,
        ask-Carries garbage r s k ks rest fits e le q v carried small got
            ∙ ap (λ bytes. some (v, record s { sent = s.sent ++ bytes; sends = ks; recvs = rest }))
                same,
      )

-- `memset(data_buf, 'a', count)`
abbrev letters : ℕ → List ℕ
letters count = replicate count b'a'

length-letters : (count : ℕ) → length (letters count) ≡ count
length-letters count = length-replicate count b'a'

abbrev write_request : ℕ → ℕ → Io.IoRequest
write_request idx count = record {
  command = write_block_request;
  block_index = idx;
  count = count;
  offset = 0;
}

-- The client's side of a write.
module _ (malloc : ℕ → Option (List ℕ)) (buffer data_buf : List ℕ) (idx count : ℕ) (s : Sock)
    (k l : ℕ) (ks : List ℕ) (index : idx < 2 ^ 32) (amount : count < 2 ^ 64)
    (room : 24 ≤ length buffer) (some_sent : s.sends ≡ k ∷ l ∷ ks) (all_sent : 24 ≤ k)
    (given : malloc count ≡ some data_buf) (size : length data_buf ≡ count) where
  made : Io.make write_block_request idx count 0 ≡ write_request idx count
  unfolding Io.make
  made = ground arith

  io-Sends :
      Sends
        (Io.serialize (write_request idx count))
        Io.parse
        (parsed (write_request idx count))
        24
        buffer
        s
        (l ∷ ks)
  io-Sends =
      send_request-Sends
        (IoTrip.Codes-io (write_request idx count) (inr (inl refl))
          (record { index = index; count = amount; offset = omega arith }))
        buffer s k (l ∷ ks) room some_sent all_sent

  -- The message as the server parses it.
  io_parsed : Io.of_buffer io-Sends.out ≡ some (parsed (write_request idx count))
  unfolding Io.of_buffer
  io_parsed =
      let p = io-Sends in
      rw (ap (λ bytes. Io.parse (at [] bytes)) (sym (append-nil p.out)) ∙ p.read_back [] []) refl

  -- The message and the data, where the socket takes both whole.
  test_write_block-sends :
      count ≤ l
      → test_write_block malloc buffer idx count s
        ≡ some (record s { sent = s.sent ++ io-Sends.out ++ letters count; sends = ks })
  unfolding test_write_block
  test_write_block-sends le =
      let p = io-Sends in
      rw
        (
          made,
          p.run,
          ◌>>=◌,
          given,
          size,
          take-all l (letters count) (omega (arith, length-letters count)),
        )
        refl

module _ (nvm : Nvm) (malloc : ℕ → Option (List ℕ)) (fuel : ℕ) where
  open nvm use {Vblk, vblk_write}

  -- A client writes a block that the server keeps for it. Its socket takes the message and the data whole, and
  -- they arrive at the server in any chunks that keep the two apart: the server writes to the block
  -- exactly `count` times the letter a, answers nothing, and is ready for the next command.
  pub test_write_block-written :
      (client_malloc : ℕ → Option (List ℕ)) (buffer data_buf room : List ℕ) (idx count : ℕ)
      (s s' : Sock) (k l : ℕ) (ks : List ℕ) (ms ds : List (List ℕ)) (reads : List ReadResult)
      (c : Conn nvm malloc) (blk : Vblk)
      → idx < 2 ^ 32
      → count < 2 ^ 64
      → 24 ≤ length buffer
      → s.sends ≡ k ∷ l ∷ ks
      → 24 ≤ k
      → count ≤ l
      → client_malloc count ≡ some data_buf
      → length data_buf ≡ count
      → test_write_block client_malloc buffer idx count s ≡ some s'
      → s'.sent ≡ s.sent ++ (joined ms ++ joined ds)
      → Nonempty ms
      → Nonempty ds
      → length (joined ms) ≡ 24
      → c.message ≡ []
      → get_elem? c.blocks.blks_array idx ≡ some blk
      → malloc count ≡ some room
      → process_command nvm malloc fuel (arrives ms (arrives ds reads)) c
        ≡ some (
          returned (pos 0) (
              with_dev nvm malloc
                (vblk_write blk (letters count) c.blocks.dev).1
                (handling nvm malloc fuel c)),
          reads,
        )
  test_write_block-written client_malloc buffer data_buf room idx count s s' k l ks ms ds reads c
        blk index amount enough sends le le' given size run stream nm nd len idle b m =
      let p =
        io-Sends client_malloc buffer data_buf idx count s k l ks index amount enough sends le given
          size in
      let sent_run =
        test_write_block-sends client_malloc buffer data_buf idx count s k l ks index amount enough
          sends le given size le' in
      let ends : record s { sent = s.sent ++ p.out ++ letters count; sends = ks } ≡ s' =
        cc (sent_run, run) in
      let (same, same_data) =
        append_parts p.out (letters count) (joined ms) (joined ds) (p.len ∙ sym len) (
          append_cancel s.sent _ _ (
            sym (append_assoc s.sent p.out (letters count))
            ∙ ap (λ (x : Sock). x.sent) ends
            ∙ stream)) in
      let parses : Io.of_buffer (joined ms) ≡ some (parsed (write_request idx count)) =
        subst (λ bytes. Io.of_buffer bytes ≡ some (parsed (write_request idx count))) same
          (io_parsed client_malloc buffer data_buf idx count s k l ks index amount enough sends le
            given size) in
      process_command-write nvm malloc fuel ms ds (write_request idx count) reads c blk room idle nm
        len parses refl b m nd (ap length (sym same_data) ∙ length-letters count)
      ∙ ap
          (λ bytes. some (
            returned (pos 0) (
                with_dev nvm malloc (vblk_write blk bytes c.blocks.dev).1
                  (handling nvm malloc fuel c)),
            reads,
          ))
          (sym same_data)
