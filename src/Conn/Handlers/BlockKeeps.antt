-- ===== src/Conn/Handlers/BlockKeeps.antt =====
-- What the handlers of block requests leave of a connection.
use light_nvm.Base.{
  Bool-cases, ◌==◌, Bool, ℕ, inl, inr, arith, List, [], Option, get_elem?, Option-cases,
}
use light_nvm.Base.Partial.{◌>>=◌}
use light_nvm.Request.{parsed, threw}
use light_nvm.Request.Io.{IoRequest}
use light_nvm.Request.Io
use light_nvm.Conn.Nvm.{Nvm}
use light_nvm.Conn.Queue.{Bufferq, WriteResult, Writer, push, on_write}
use light_nvm.Conn.Queue
use light_nvm.Conn.Queue.Runs.{push-IsWriter}
use light_nvm.Conn.Receive.{ReadResult, filled, closed, receive}
use light_nvm.Conn.Handlers.{
  Conn, with_dev, get_block_pointer, process_read_request, write_received, process_write_request,
  read_data, process_erase_request,
}
use light_nvm.Conn.Handlers.Keeps.{Laws, IsConn, Kept, Keeps, KeepsToo, quiet}

module _ (nvm : Nvm) (malloc : ℕ → Option (List ℕ)) (laws : Laws nvm malloc) where
  open nvm use {vblk_pread}

  pub read-Keeps :
      (message : List ℕ) (c : Conn nvm malloc)
      → IsConn nvm malloc laws c
      → Keeps nvm malloc laws c.manager c.writer (process_read_request nvm malloc message c)
  unfolding process_read_request get_block_pointer Queue.make
  read-Keeps message c i = elim (Option-cases (Io.of_buffer message)) [
    | inl e ↦ rw e tt
    | inr (threw, e) ↦ rw e tt
    | inr (parsed r, e) ↦ elim (Option-cases (get_elem? c.blocks.blks_array r.block_index)) [
      | inl outside ↦ rw (e, outside) tt
      | inr (blk, b) ↦ elim (Option-cases (malloc r.count)) [
        | inl null ↦ rw (e, b, null) tt
        | inr (room, m) ↦
            rw (e, b, m)
              (quiet nvm malloc laws _ (record {
                manager = i.manager;
                writer = push-IsWriter c.writer _ i.writer (record {
                  within = omega arith;
                  filled = omega (arith, laws.stores blk r.count r.offset c.blocks.dev);
                  small = laws.small r.count room m;
                });
                message = i.message;
              }))
      ]
    ]
  ]

  pub erase-Keeps :
      (message : List ℕ) (c : Conn nvm malloc)
      → IsConn nvm malloc laws c
      → Keeps nvm malloc laws c.manager c.writer (process_erase_request nvm malloc message c)
  unfolding process_erase_request get_block_pointer
  erase-Keeps message c i = elim (Option-cases (Io.of_buffer message)) [
    | inl e ↦ rw e tt
    | inr (threw, e) ↦ rw e tt
    | inr (parsed r, e) ↦ elim (Option-cases (get_elem? c.blocks.blks_array r.block_index)) [
      | inl outside ↦ rw (e, outside) tt
      | inr (blk, b) ↦
          rw (e, b)
            (quiet nvm malloc laws _
              (record { manager = i.manager; writer = i.writer; message = i.message }))
    ]
  ]

  pub write-Keeps :
      (message : List ℕ) (reads : List ReadResult) (c : Conn nvm malloc)
      → IsConn nvm malloc laws c
      → KeepsToo nvm malloc laws c.manager c.writer
          (process_write_request nvm malloc message reads c)
  unfolding process_write_request get_block_pointer read_data write_received
  write-Keeps message reads c i = elim (Option-cases (Io.of_buffer message)) [
    | inl e ↦ rw e tt
    | inr (threw, e) ↦ rw e tt
    | inr (parsed r, e) ↦ elim (Option-cases (get_elem? c.blocks.blks_array r.block_index)) [
      | inl outside ↦ rw (e, outside) tt
      | inr (blk, b) ↦ elim (Option-cases (malloc r.count)) [
        | inl null ↦ elim (Bool-cases (r.count == 0)) [
          | inl no_data ↦ rw (e, b, null, ◌>>=◌, no_data) same
          | inr with_data ↦ rw (e, b, null, ◌>>=◌, with_data) same
        ]
        | inr (room, m) ↦ elim (Option-cases (receive r.count [] reads)) [
          | inl starved ↦ rw (e, b, m, ◌>>=◌, starved) tt
          | inr (closed got rest, f) ↦ rw (e, b, m, ◌>>=◌, f) same
          | inr (filled bytes rest, f) ↦ rw (e, b, m, ◌>>=◌, f) same
        ]
      ]
    ]
  ]
    where
      same :
          {d : nvm.Device} {b : Bool}
          → Kept nvm malloc laws c.manager c.writer
              (record (with_dev nvm malloc d c) { is_open = b })
      same =
          quiet nvm malloc laws _
            (record { manager = i.manager; writer = i.writer; message = i.message })
