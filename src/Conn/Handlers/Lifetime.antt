-- ===== src/Conn/Handlers/Lifetime.antt =====
-- A connection over its life: whatever a client sends, the manager and the write queue stay well formed.
use light_nvm.Base.{
  ℕ, ◌≡◌, inl, inr, refl, subst, List, [], ◌∷◌, All, Option, none, some, ◌==◌, true, Bool-cases,
  Option-cases,
}
use light_nvm.Base.Int.{ℤ, pos}
use light_nvm.Base.Partial.{◌>>=◌}
use light_nvm.Wire.Cursor.{get_header}
use light_nvm.Request.{request_magic, read_block_magic, write_block_magic, erase_block_magic}
use light_nvm.Device.Manager.{OcssdManager}
use light_nvm.Device.Manager.Grant.{IsManager}
use light_nvm.Conn.Nvm.{Nvm}
use light_nvm.Conn.Queue.{Bufferq, WriteResult, Writer, push, on_write}
use light_nvm.Conn.Queue
use light_nvm.Conn.Queue.Delivery.{Allowed, left}
use light_nvm.Conn.Queue.Runs.{Runs, nothing, fired, Runs-delivers}
use light_nvm.Conn.Receive.{ReadResult, Received, filled, closed, receive}
use light_nvm.Conn.Handlers.{
  Conn, connect, returned, disconnected, dispatch, process_command, process_incoming_requests,
  ConnState, receiving_command, receiving_write_data,
}
use light_nvm.Conn.Handlers.Bytes.{IsByte, IsBytes, HasBytes, receive-bytes}
use light_nvm.Conn.Handlers.BlockKeeps.{read-Keeps, erase-Keeps, write-Keeps}
use light_nvm.Conn.Handlers.Keeps.{Laws, IsConn, quiet, KeepsToo, and_reads-Keeps, alloc-Keeps}

module _ (nvm : Nvm) (malloc : ℕ → Option (List ℕ)) (laws : Laws nvm malloc) where
  dispatch-Keeps :
      (fuel header : ℕ) (message : List ℕ) (reads : List ReadResult) (c : Conn nvm malloc)
      → All IsByte message
      → IsConn nvm malloc laws c
      → KeepsToo nvm malloc laws c.manager c.writer
          (dispatch nvm malloc fuel header message reads c)
  unfolding dispatch
  dispatch-Keeps fuel header message reads c bytes i = elim (Bool-cases (header == request_magic)) [
    | inl e ↦ rw e (
        and_reads-Keeps nvm malloc laws _ _ reads _
          (alloc-Keeps nvm malloc laws fuel message c bytes i))
    | inr e ↦ elim (Bool-cases (header == read_block_magic)) [
      | inl f ↦
          rw (e, f)
            (and_reads-Keeps nvm malloc laws _ _ reads _ (read-Keeps nvm malloc laws message c i))
      | inr f ↦ elim (Bool-cases (header == write_block_magic)) [
        | inl g ↦ rw (e, f, g) (write-Keeps nvm malloc laws message reads c i)
        | inr g ↦ elim (Bool-cases (header == erase_block_magic)) [
          | inl h ↦
              rw (e, f, g, h)
                (and_reads-Keeps nvm malloc laws _ _ reads _
                  (erase-Keeps nvm malloc laws message c i))
          | inr h ↦ rw (e, f, g, h) (quiet nvm malloc laws c i)
        ]
      ]
    ]
  ]

  pub process_command-Keeps :
      (fuel : ℕ) (reads : List ReadResult) (c : Conn nvm malloc)
      → All IsBytes reads
      → IsConn nvm malloc laws c
      → KeepsToo nvm malloc laws c.manager c.writer (process_command nvm malloc fuel reads c)
  unfolding process_command
  process_command-Keeps fuel reads c bytes i =
      go (receive 24 c.message reads) (receive-bytes 24 c.message reads i.message bytes)
    where
      go :
          (o : Option Received)
          → HasBytes o
          → KeepsToo nvm malloc laws c.manager c.writer (
              o >>= λ r. elim r [
                | closed got reads' ↦
                    some (disconnected nvm malloc (record c { message = got }), reads')
                | filled message reads' ↦ get_header message >>= λ header.
                    dispatch nvm malloc fuel header message reads' (record c { message = [] })
              ])
      go none h = tt
      go (some (closed got rest)) h =
          quiet nvm malloc laws _ (record { manager = i.manager; writer = i.writer; message = h })
      go (some (filled message rest)) h = elim (Option-cases (get_header message)) [
        | inl e ↦ rw (◌>>=◌, e) tt
        | inr (header, e) ↦
            rw (◌>>=◌, e)
              (dispatch-Keeps fuel header message rest (record c { message = [] }) h
                (record { manager = i.manager; writer = i.writer; message = tt }))
      ]

  pub incoming-Keeps :
      (fuel : ℕ) (reads : List ReadResult) (c : Conn nvm malloc)
      → All IsBytes reads
      → IsConn nvm malloc laws c
      → KeepsToo nvm malloc laws c.manager c.writer
          (process_incoming_requests nvm malloc fuel reads c)
  unfolding process_incoming_requests
  incoming-Keeps fuel reads c bytes i = go c.state
    where
      go :
          (state : ConnState)
          → KeepsToo nvm malloc laws c.manager c.writer (elim state [
            | receiving_command ↦ process_command nvm malloc fuel reads c
            | receiving_write_data ↦ some (returned (pos 0) c, reads)
          ])
      go receiving_command = process_command-Keeps fuel reads c bytes i
      go receiving_write_data = quiet nvm malloc laws c i

  -- The life of a connection: commands of the client, writes to it, and what other connections do to the
  -- manager that they share.
  pub data Lives : Conn nvm malloc → Conn nvm malloc → Type 0 where
    now : {c : Conn nvm malloc} → Lives c c
    command :
        {c c' : Conn nvm malloc} (c1 : Conn nvm malloc) (fuel : ℕ) (n : ℤ)
        (reads rest : List ReadResult)
        → All IsBytes reads
        → process_command nvm malloc fuel reads c ≡ some (returned n c1, rest)
        → Lives c1 c'
        → Lives c c'
    write :
        {c c' : Conn nvm malloc} (w : Writer) (q : Bufferq) (qs : List Bufferq)
        (result : WriteResult)
        → c.writer.armed ≡ true
        → c.writer.writeq ≡ q ∷ qs
        → Allowed result (left q)
        → on_write result (fired c.writer) ≡ some (Queue.returned w)
        → Lives (record c { writer = w }) c'
        → Lives c c'
    other :
        {c c' : Conn nvm malloc} (m : OcssdManager)
        → IsManager m
        → Lives (record c { manager = m }) c'
        → Lives c c'

  Lives-Keeps :
      {c c' : Conn nvm malloc} → Lives c c' → IsConn nvm malloc laws c → IsConn nvm malloc laws c'
  Lives-Keeps now i = i
  Lives-Keeps {c} (command c1 fuel n reads rest bytes run l) i =
      Lives-Keeps l
        (subst (KeepsToo nvm malloc laws c.manager c.writer) run
          (process_command-Keeps fuel reads c bytes i)).conn
  Lives-Keeps {c} (write w q qs result on e h run l) i = Lives-Keeps l (record {
    manager = i.manager;
    writer = (Runs-delivers i.writer (Runs.write w q qs result on e h run nothing)).0;
    message = i.message;
  })
  Lives-Keeps (other m j l) i =
      Lives-Keeps l (record { manager = j; writer = i.writer; message = i.message })

  -- From the constructor on, whatever bytes the client sends and in whatever way reads and writes are cut
  -- short, as long as the handlers return: the manager stays well formed, each buffer of the write
  -- queue lies within its block, and the write event is added if and only if a buffer is queued, so
  -- `on_write` is never called on an empty queue.
  pub connect-IsConn :
      (m : OcssdManager) (d : nvm.Device) (c : Conn nvm malloc)
      → IsManager m
      → Lives (connect nvm malloc m d) c
      → IsConn nvm malloc laws c
  unfolding connect
  connect-IsConn m d c i l =
      Lives-Keeps l
        (record { manager = i; writer = record { buffers = tt; event = refl }; message = tt })
