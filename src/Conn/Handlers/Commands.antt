-- ===== src/Conn/Handlers/Commands.antt =====
-- What the server does for a request that arrives in any chunks.
use light_nvm.Base.{
  take-all, ℕ, ◌-◌, ◌^◌, ◌<◌, ◌≡◌, ◌≢◌, ◌⊎◌, refl, ◌∙◌, arith, List, [], ◌∷◌, length, Option, some,
  get_elem?,
}
use light_nvm.Base.Int.{pos, negsuc}
use light_nvm.Base.Partial.{◌>>=◌}
use light_nvm.Wire.Cursor.{get_header}
use light_nvm.Request.{
  parsed, request_magic, read_block_magic, write_block_magic, erase_block_magic, read_block_request,
  write_block_request, erase_block_request,
}
use light_nvm.Request.Io.{IoRequest}
use light_nvm.Request.Io
use light_nvm.Conn.Nvm.{Nvm}
use light_nvm.Conn.Queue.{Bufferq, Writer, push}
use light_nvm.Conn.Queue
use light_nvm.Conn.Queue.Delivery.{IsBuffer, left}
use light_nvm.Conn.Receive.{
  ReadResult, failed, received, arrives, joined, Nonempty, receive-filled, receive-closed,
}
use light_nvm.Conn.Handlers.{
  Conn, returned, with_dev, disconnected, process_command, process_write_request, read_data,
  process_read_request, process_erase_request, dispatch, get_block_pointer, write_received,
}
use light_nvm.Conn.Handlers.Headers.{write-header, read-header, erase-header}

module _ (nvm : Nvm) (malloc : ℕ → Option (List ℕ)) (fuel : ℕ) where
  open nvm use {Vblk, vblk_write, vblk_erase, vblk_pread}

  -- The connection while a command is handled: `message_end_` is 0.
  abbrev pub handling : Conn nvm malloc → Conn nvm malloc
  handling c = record c { message = [] }

  -- A message of 24 bytes, in whatever chunks it arrives, is dispatched on its header.
  pub command-arrives :
      (ms : List (List ℕ)) (reads : List ReadResult) (c : Conn nvm malloc) (header : ℕ)
      → c.message ≡ []
      → Nonempty ms
      → length (joined ms) ≡ 24
      → get_header (joined ms) ≡ some header
      → process_command nvm malloc fuel (arrives ms reads) c
        ≡ dispatch nvm malloc fuel header (joined ms) reads (handling c)
  unfolding process_command
  command-arrives ms reads c header e ne len h =
      rw (e, receive-filled 24 [] ms reads ne (omega (arith, len)), ◌>>=◌, h) refl

  write_handler :
      (message : List ℕ) (r : IoRequest) (ds : List (List ℕ)) (reads : List ReadResult)
      (c : Conn nvm malloc) (blk : Vblk) (room : List ℕ)
      → Io.of_buffer message ≡ some (parsed r)
      → get_elem? c.blocks.blks_array r.block_index ≡ some blk
      → malloc r.count ≡ some room
      → Nonempty ds
      → length (joined ds) ≡ r.count
      → process_write_request nvm malloc message (arrives ds reads) c
        ≡ some (
          returned (pos 0) (with_dev nvm malloc (vblk_write blk (joined ds) c.blocks.dev).1 c),
          reads,
        )
  unfolding process_write_request get_block_pointer read_data write_received
  write_handler message r ds reads c blk room p b m ne len =
      rw (p, b, m, ◌>>=◌, receive-filled r.count [] ds reads ne (omega (arith, len))) refl

  -- A write request for a block that the client has, and behind it as many bytes of data as it says, in
  -- whatever chunks the message and the data arrive: the block is written with exactly these bytes,
  -- the handler returns 0, and what comes after the data is left for the next command.
  pub process_command-write :
      (ms ds : List (List ℕ)) (r : IoRequest) (reads : List ReadResult) (c : Conn nvm malloc)
      (blk : Vblk) (room : List ℕ)
      → c.message ≡ []
      → Nonempty ms
      → length (joined ms) ≡ 24
      → Io.of_buffer (joined ms) ≡ some (parsed r)
      → r.command ≡ write_block_request
      → get_elem? c.blocks.blks_array r.block_index ≡ some blk
      → malloc r.count ≡ some room
      → Nonempty ds
      → length (joined ds) ≡ r.count
      → process_command nvm malloc fuel (arrives ms (arrives ds reads)) c
        ≡ some (
          returned
              (pos 0)
              (with_dev nvm malloc (vblk_write blk (joined ds) c.blocks.dev).1 (handling c)),
          reads,
        )
  unfolding dispatch
  process_command-write ms ds r reads c blk room e ne len p w b m nd count =
      command-arrives ms (arrives ds reads) c write_block_magic e ne len
        (write-header (joined ms) r p w)
      ∙ write_handler (joined ms) r ds reads (handling c) blk room p b m nd count

  -- A client that disconnects, or a read that fails, before the message of any request is complete: the
  -- handler returns -1 with the connection closed, having done nothing but keep the bytes that have
  -- arrived.
  pub process_command-cut_message :
      (ms : List (List ℕ)) (last : ReadResult) (reads : List ReadResult) (c : Conn nvm malloc)
      → c.message ≡ []
      → Nonempty ms
      → (last ≡ failed) ⊎ (last ≡ received [])
      → length (joined ms) < 24
      → process_command nvm malloc fuel (arrives ms (last ∷ reads)) c
        ≡ some (disconnected nvm malloc (record c { message = joined ms }), reads)
  unfolding process_command
  process_command-cut_message ms last reads c e ne l few =
      rw (e, receive-closed 24 [] ms last reads ne (omega (arith, few)) l, ◌>>=◌) refl

  -- A write request for a block that the client has, whose message arrives whole and for whose data there
  -- is memory, and a client that disconnects, or a read that fails, before its data is complete: the handler returns -1 with the
  -- connection closed, and writes nothing.
  pub process_command-cut :
      (ms ds : List (List ℕ)) (last : ReadResult) (r : IoRequest) (reads : List ReadResult)
      (c : Conn nvm malloc) (blk : Vblk) (room : List ℕ)
      → c.message ≡ []
      → Nonempty ms
      → (last ≡ failed) ⊎ (last ≡ received [])
      → Io.of_buffer (joined ms) ≡ some (parsed r)
      → r.command ≡ write_block_request
      → get_elem? c.blocks.blks_array r.block_index ≡ some blk
      → malloc r.count ≡ some room
      → Nonempty ds
      → length (joined ms) ≡ 24
      → length (joined ds) < r.count
      → process_command nvm malloc fuel (arrives ms (arrives ds (last ∷ reads))) c
        ≡ some (disconnected nvm malloc (handling c), reads)
  unfolding dispatch process_write_request get_block_pointer read_data write_received
  process_command-cut ms ds last r reads c blk room e ne l p w b m nd len few =
      command-arrives ms (arrives ds (last ∷ reads)) c write_block_magic e ne len
        (write-header (joined ms) r p w)
      ∙ rw (p, b, m, ◌>>=◌, receive-closed r.count [] ds last reads nd (omega (arith, few)) l) refl

  -- A read request for a block that the client has: if `nvm_vblk_pread` fills the buffer, a buffer with
  -- exactly these bytes is queued for the client and the handler returns 0.
  pub process_command-read :
      (ms : List (List ℕ)) (r : IoRequest) (reads : List ReadResult) (c : Conn nvm malloc)
      (blk : Vblk) (room : List ℕ)
      → c.message ≡ []
      → Nonempty ms
      → length (joined ms) ≡ 24
      → Io.of_buffer (joined ms) ≡ some (parsed r)
      → r.command ≡ read_block_request
      → get_elem? c.blocks.blks_array r.block_index ≡ some blk
      → malloc r.count ≡ some room
      → length (vblk_pread blk r.count r.offset c.blocks.dev).1 ≡ r.count
      → r.count < 2 ^ 63
      → (q : Bufferq) × (process_command nvm malloc fuel (arrives ms reads) c
          ≡ some (
            returned
                (pos 0)
                (record (with_dev nvm malloc
                  (vblk_pread blk r.count r.offset c.blocks.dev).2
                  (handling c)) { writer = push q c.writer }),
            reads,
          ))
        × IsBuffer q
        × (left q ≡ (vblk_pread blk r.count r.offset c.blocks.dev).1)
  unfolding dispatch process_read_request get_block_pointer Queue.make
  process_command-read ms r reads c blk room e ne len p w b m size small = (
    record { buf = (vblk_pread blk r.count r.offset c.blocks.dev).1; len = r.count; offset = 0 },
    command-arrives ms reads c read_block_magic e ne len (read-header (joined ms) r p w)
        ∙ rw (p, b, m) refl,
    record { within = omega arith; filled = omega (arith, size); small = small },
    take-all (r.count - 0) _ (omega (arith, size)),
  )

  -- An erase request for a block that the client has: the block is erased, the handler returns 0, and
  -- nothing else of the connection changes.
  pub process_command-erase :
      (ms : List (List ℕ)) (r : IoRequest) (reads : List ReadResult) (c : Conn nvm malloc)
      (blk : Vblk)
      → c.message ≡ []
      → Nonempty ms
      → length (joined ms) ≡ 24
      → Io.of_buffer (joined ms) ≡ some (parsed r)
      → r.command ≡ erase_block_request
      → get_elem? c.blocks.blks_array r.block_index ≡ some blk
      → process_command nvm malloc fuel (arrives ms reads) c
        ≡ some (
          returned (pos 0) (with_dev nvm malloc (vblk_erase blk c.blocks.dev).1 (handling c)),
          reads,
        )
  unfolding dispatch process_erase_request get_block_pointer
  process_command-erase ms r reads c blk e ne len p w b =
      command-arrives ms reads c erase_block_magic e ne len (erase-header (joined ms) r p w)
      ∙ rw (p, b) refl

  -- A message with a header that stands for no request is dropped: the handler returns -1.
  pub process_command-unknown :
      (ms : List (List ℕ)) (header : ℕ) (reads : List ReadResult) (c : Conn nvm malloc)
      → c.message ≡ []
      → Nonempty ms
      → length (joined ms) ≡ 24
      → get_header (joined ms) ≡ some header
      → header ≢ request_magic
      → header ≢ read_block_magic
      → header ≢ write_block_magic
      → header ≢ erase_block_magic
      → process_command nvm malloc fuel (arrives ms reads) c
        ≡ some (returned (negsuc 0) (handling c), reads)
  unfolding dispatch
  process_command-unknown ms header reads c e ne len h na nr nw ne' =
      command-arrives ms reads c header e ne len h ∙ ground arith
