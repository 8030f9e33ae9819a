-- ===== src/Server/Runs.antt =====
-- What the events of all clients do to the manager that they share.
use light_nvm.Base.{
  ℕ, ◌≡◌, inl, inr, refl, sym, subst, ◌∙◌, List, [], ◌∷◌, set, get_elem?, All, All-set, All-get,
  get_elem?-set, All-append, Option, none, some, true, Bool-cases,
}
use light_nvm.Base.Int.{ℤ}
use light_nvm.Base.Partial.{◌>>=◌}
use light_nvm.Vssd.Ssd.{VirtualOcssd}
use light_nvm.Device.Manager.{OcssdManager}
use light_nvm.Device.Manager.History.{Served, Served-nothing}
use light_nvm.Conn.Nvm.{Nvm}
use light_nvm.Conn.Queue.{Bufferq, WriteResult, Writer, Outcome, push}
use light_nvm.Conn.Queue
use light_nvm.Conn.Queue.Delivery.{Allowed, left}
use light_nvm.Conn.Queue.Runs.{Runs, nothing, fired, Runs-delivers}
use light_nvm.Conn.Receive.{ReadResult}
use light_nvm.Conn.Handlers.{Conn, Handled, returned, raised, connect, process_incoming_requests}
use light_nvm.Conn.Handlers.Bytes.{IsBytes}
use light_nvm.Conn.Handlers.Keeps.{Laws, IsConn, KeepsToo, Kept}
use light_nvm.Conn.Handlers.Lifetime.{incoming-Keeps}
use light_nvm.Server.{
  Server, Event, accept_ready, read_ready, write_ready, Reacted, running, exited, lend, give_back,
  is_minus_one, on_accept, on_read, on_write, react,
}
use light_nvm.Server.Events.{
  IsClient, IsServer, Fires, queued, Serving, stopped, event, Tells, unasked, finished,
  Tells-grants,
}

module _ (nvm : Nvm) (malloc : ℕ → Option (List ℕ)) (laws : Laws nvm malloc) where
  -- What an event leaves: a well-formed server, and whatever is given out and told from then on, with
  -- what the event has given out and told.
  abbrev Step : Server nvm malloc → Event nvm malloc → Server nvm malloc → Type 0
  Step s e s1 =
      IsServer nvm malloc laws s1
      × ((m : OcssdManager) (bs : List (List Bufferq)) (ws : List VirtualOcssd)
          → Served s1.manager m ws
          → Tells bs ws
          → (us : List VirtualOcssd) × Served s.manager m us
            × Tells (queued nvm malloc laws e s s1 ∷ bs) us)

  lent :
      (s : Server nvm malloc) (c : Conn nvm malloc)
      → IsServer nvm malloc laws s
      → IsClient nvm malloc laws c
      → IsConn nvm malloc laws (lend nvm malloc s c)
  lent s c i j = record { manager = i.manager; writer = j.0; message = j.1 }

  on_read-Step :
      (fuel n : ℕ) (reads : List ReadResult) (s s1 : Server nvm malloc) (c : Conn nvm malloc)
      → IsServer nvm malloc laws s
      → All IsBytes reads
      → get_elem? s.clients n ≡ some c
      → on_read nvm malloc fuel n reads s ≡ some (running s1)
      → Step s (read_ready fuel n reads) s1
  unfolding on_read
  on_read-Step fuel n reads s s1 c i bytes at_n run =
      let begun : on_read nvm malloc fuel n reads s
          ≡ (process_incoming_requests nvm malloc fuel reads (lend nvm malloc s c) >>= reply) =
        rw (at_n, on_read, ◌>>=◌) refl in
      go (process_incoming_requests nvm malloc fuel reads (lend nvm malloc s c))
        (incoming-Keeps nvm malloc laws fuel reads (lend nvm malloc s c) bytes
          (lent s c i (All-get (IsClient nvm malloc laws) s.clients n c i.clients at_n)))
        (sym begun ∙ run)
    where
      reply : Handled nvm malloc × List ReadResult → Option (Reacted nvm malloc)
      reply r = elim r.0 [
        | raised ↦ some exited
        | returned m c' ↦ some (running (give_back nvm malloc n c' s))
      ]

      done :
          (c' : Conn nvm malloc)
          → Kept nvm malloc laws s.manager c.writer c'
          → Step s (read_ready fuel n reads) (give_back nvm malloc n c' s)
      done c' k = (
        record {
          manager = k.conn.manager;
          clients =
              All-set (IsClient nvm malloc laws) s.clients n c' i.clients
                (k.conn.writer, k.conn.message);
        },
        λ m bs ws t h.
            rw (at_n, get_elem?-set s.clients n c c' at_n) (Tells-grants i.manager k.grants.1 t h),
      )

      go :
          (o : Option (Handled nvm malloc × List ReadResult))
          → KeepsToo nvm malloc laws s.manager c.writer o
          → (o >>= reply) ≡ some (running s1)
          → Step s (read_ready fuel n reads) s1
      go none k e = absurd (cc e)
      go (some (raised, rest)) k e = absurd (cc e)
      go (some (returned m c', rest)) k e =
          let same : give_back nvm malloc n c' s ≡ s1 = cc e in
          subst (Step s (read_ready fuel n reads)) same (done c' k)

  -- An event that leaves the manager as it is, and that queues nothing.
  unmoved :
      (s s1 : Server nvm malloc) (e : Event nvm malloc)
      → IsServer nvm malloc laws s1
      → s1.manager ≡ s.manager
      → Step s e s1
  unmoved s s1 e i same = (i, λ m bs ws t h. (ws, subst (λ x. Served x m ws) same t, unasked _ h))

  on_write-Step :
      (n : ℕ) (result : WriteResult) (s s1 : Server nvm malloc) (c : Conn nvm malloc) (q : Bufferq)
      (qs : List Bufferq)
      → IsServer nvm malloc laws s
      → get_elem? s.clients n ≡ some c
      → c.writer.armed ≡ true
      → c.writer.writeq ≡ q ∷ qs
      → Allowed result (left q)
      → on_write nvm malloc n result s ≡ some (running s1)
      → Step s (write_ready n result) s1
  unfolding on_write
  on_write-Step n result s s1 c q qs i at_n on e allowed run =
      let begun : on_write nvm malloc n result s
          ≡ (Queue.on_write result (fired c.writer) >>= reply) =
        rw (at_n, on_write, ◌>>=◌) refl in
      go (Queue.on_write result (fired c.writer)) refl (sym begun ∙ run)
    where
      reply : Outcome → Option (Reacted nvm malloc)
      reply o = elim o [
        | Queue.exited ↦ some exited
        | Queue.returned w ↦
            some (running (record s { clients = set s.clients n (record c { writer = w }) }))
      ]

      go :
          (o : Option Outcome)
          → Queue.on_write result (fired c.writer) ≡ o
          → (o >>= reply) ≡ some (running s1)
          → Step s (write_ready n result) s1
      go none f r = absurd (cc r)
      go (some Queue.exited) f r = absurd (cc r)
      go (some (Queue.returned w)) f r =
          let here = All-get (IsClient nvm malloc laws) s.clients n c i.clients at_n in
          let same : record s { clients = set s.clients n (record c { writer = w }) } ≡ s1 = cc r in
          subst (Step s (write_ready n result)) same (
            unmoved s _ (write_ready n result)
              (record {
                manager = i.manager;
                clients =
                    All-set (IsClient nvm malloc laws) s.clients n (record c { writer = w })
                      i.clients
                      (
                        (Runs-delivers here.0 (Runs.write w q qs result on e allowed f nothing)).0,
                        here.1,
                      );
              })
              refl)

  on_accept-Step :
      (client_fd : ℤ) (s : Server nvm malloc)
      → IsServer nvm malloc laws s
      → Step s (accept_ready client_fd) (on_accept nvm malloc client_fd s)
  unfolding on_accept connect
  on_accept-Step client_fd s i = elim (Bool-cases (is_minus_one client_fd)) [
    | inl failed ↦ rw failed (unmoved s _ (accept_ready client_fd) i refl)
    | inr accepted ↦ rw accepted (
        unmoved s _ (accept_ready client_fd)
          (record {
            manager = i.manager;
            clients =
                All-append (IsClient nvm malloc laws) s.clients
                  (connect nvm malloc s.manager s.dev ∷ []) i.clients
                  ((record { buffers = tt; event = refl }, tt), tt);
          })
          refl)
  ]

  react-Step :
      (e : Event nvm malloc) (s s1 : Server nvm malloc)
      → IsServer nvm malloc laws s
      → Fires nvm malloc laws e s
      → react nvm malloc e s ≡ some (running s1)
      → Step s e s1
  unfolding react
  react-Step (accept_ready client_fd) s s1 i f run =
      let same : on_accept nvm malloc client_fd s ≡ s1 = cc run in
      subst (Step s (accept_ready client_fd)) same (on_accept-Step client_fd s i)
  react-Step (read_ready fuel n reads) s s1 i (c, at_n, is_open, bytes) run =
      on_read-Step fuel n reads s s1 c i bytes at_n run
  react-Step (write_ready n result) s s1 i (c, q, qs, at_n, on, e, allowed) run =
      on_write-Step n result s s1 c q qs i at_n on e allowed run

  -- While the event loop runs, whatever the clients send, in whatever order their sockets become
  -- ready, and however reads and writes are cut short, as long as the handlers return: each virtual
  -- OCSSD that has a channel is queued for the client that asked for it, who reads it from the
  -- buffer; no block belongs to two of those that are given out, and none was in use at the start;
  -- the blocks in use at the end are those that were and those that are given out; and the server
  -- stays well formed.
  pub Serving-Served :
      {s s' : Server nvm malloc} {bs : List (List Bufferq)}
      → IsServer nvm malloc laws s
      → Serving nvm malloc laws s bs s'
      → (vs : List VirtualOcssd) × Tells bs vs
        × Served s.manager s'.manager vs
        × IsServer nvm malloc laws s'
  Serving-Served {s} i stopped = ([], finished, Served-nothing s.manager i.manager, i)
  Serving-Served {s} {s'} i (event {bs = bs} e s1 f run rest) =
      let (i1, step) = react-Step e s s1 i f run in
      let (ws, h, t, i') = Serving-Served i1 rest in
      let (us, t', h') = step s'.manager bs ws t h in (us, h', t', i')
