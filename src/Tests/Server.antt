-- ===== src/Tests/Server.antt =====
-- A connection that is granted channels, and one with a virtual block; the messages arrive in two chunks.
use light_nvm.Base.{
  ℕ, ◌<◌, ◌≤◌, ◌≡◌, inl, inr, refl, arith, List, [], ◌∷◌, ◌++◌, take, Option, some, length,
  replicate, true, false,
}
use light_nvm.Base.Int.{pos, negsuc}
use light_nvm.Base.Partial.{◌>>=◌}
use light_nvm.Wire.Cursor.{of_bytes, load, cut, deserialize_data4, deserialize_data8, get_header}
use light_nvm.Request.{write_block_request, read_block_request, erase_block_request}
use light_nvm.Request.Io.{IoRequest}
use light_nvm.Request.Io
use light_nvm.Request.Alloc
use light_nvm.Vssd.Member.{VirtualUnit}
use light_nvm.Device.Manager.{OcssdManager}
use light_nvm.Device.Manager.Grant.{Serves}
use light_nvm.Conn.Queue.{Bufferq, WriteResult, wrote, again, Writer, on_write, push}
use light_nvm.Conn.Queue
use light_nvm.Conn.Queue.Delivery.{IsBuffer, IsWriter, left, Delivers, on_write-Delivers}
use light_nvm.Conn.Queue.Runs.{
  Runs, nothing, queue, write, stream, Reads, drain, Runs-delivers, drain-Sends,
}
use light_nvm.Conn.Receive.{
  received, failed, filled, closed, receive, arrives, receive-filled, receive-closed,
}
use light_nvm.Conn.Handlers.{
  receiving_command, Conn, Handled, returned, disconnected, with_dev, process_command,
}
use light_nvm.Conn.Handlers.Commands.{
  process_command-write, process_command-cut, process_command-cut_message, process_command-read,
  process_command-erase, process_command-unknown,
}
use light_nvm.Conn.Handlers.Answers.{Answer, process_command-alloc}
use light_nvm.Tests.Conn.{nvm, before}
use light_nvm.Tests.Devices.{node, node-IsManager, two_shared}

-- Three bytes fill a buffer of five that holds two; the byte behind them is left.
receive-filled_example :
    receive 5 (1 ∷ 2 ∷ []) (received (3 ∷ []) ∷ received (4 ∷ 5 ∷ []) ∷ received (6 ∷ []) ∷ [])
    ≡ some (filled (1 ∷ 2 ∷ 3 ∷ 4 ∷ 5 ∷ []) (received (6 ∷ []) ∷ []))
receive-filled_example =
    receive-filled 5 (1 ∷ 2 ∷ []) ((3 ∷ []) ∷ (4 ∷ 5 ∷ []) ∷ []) (received (6 ∷ []) ∷ [])
      (omega arith, (omega arith, tt)) refl

receive-closed_example :
    receive 5 (1 ∷ 2 ∷ []) (received (3 ∷ []) ∷ received [] ∷ [])
    ≡ some (closed (1 ∷ 2 ∷ 3 ∷ []) [])
receive-closed_example =
    receive-closed 5 (1 ∷ 2 ∷ []) ((3 ∷ []) ∷ []) (received []) [] (omega arith, tt) (omega arith)
      (inr refl)

abbrev first : Bufferq
first = record { buf = 1 ∷ 2 ∷ 3 ∷ 9 ∷ []; len = 3; offset = 1 }

abbrev second : Bufferq
second = record { buf = 4 ∷ 5 ∷ []; len = 2; offset = 0 }

first-IsBuffer : IsBuffer first
first-IsBuffer = record { within = omega arith; filled = omega arith; small = omega arith }

second-IsBuffer : IsBuffer second
second-IsBuffer = record { within = omega arith; filled = omega arith; small = omega arith }

-- The write event has fired.
abbrev two_buffers : Writer
two_buffers = record { writeq = first ∷ second ∷ []; armed = false; sent = 1 ∷ [] }

on_write-Delivers_example :
    (w : Writer) × (on_write (wrote 2) two_buffers ≡ some (Queue.returned w))
    × Delivers (wrote 2) first (second ∷ []) two_buffers w
on_write-Delivers_example =
    on_write-Delivers (wrote 2) two_buffers first (second ∷ [])
      (first-IsBuffer, (second-IsBuffer, tt)) refl refl (omega arith)

abbrev waiting : Writer
waiting = record { writeq = first ∷ []; armed = true; sent = 1 ∷ [] }

waiting-IsWriter : IsWriter waiting
waiting-IsWriter = record { buffers = (first-IsBuffer, tt); event = refl }

abbrev later : Writer
later = record { writeq = second ∷ []; armed = true; sent = 1 ∷ 2 ∷ 3 ∷ [] }

some_run : Runs waiting (4 ∷ 5 ∷ []) later
unfolding on_write Queue.written push Queue.unwritten cut
some_run =
    queue second second-IsBuffer
      (write later first (second ∷ []) (wrote 2) refl refl (omega arith) refl nothing)

Runs-delivers_example : IsWriter later × (stream later ≡ stream waiting ++ 4 ∷ 5 ∷ [])
Runs-delivers_example = Runs-delivers waiting-IsWriter some_run

-- A socket that takes one byte of what it is handed.
abbrev slow : Writer → WriteResult
slow w = elim w.writeq [ [] ↦ wrote 0 | q ∷ qs ↦ wrote (length (take 1 (left q))) ]

slow-Reads : Reads slow
slow-Reads w q qs e = rw e (some_byte (left q))
  where
    some_byte :
        (bytes : List ℕ)
        → (length (take 1 bytes) ≤ length bytes) × (0 < length bytes → 0 < length (take 1 bytes))
    some_byte [] = (omega arith, λ h. absurd (omega arith))
    some_byte (b ∷ bs) = (omega arith, λ h. omega arith)

drain-Sends_example :
    (w : Writer) × (drain 3 slow waiting ≡ some (Queue.returned w))
    × (w.writeq ≡ [])
    × (w.sent ≡ 1 ∷ 2 ∷ 3 ∷ [])
drain-Sends_example = drain-Sends slow slow-Reads 3 waiting waiting-IsWriter (omega arith)

abbrev pub malloc : ℕ → Option (List ℕ)
malloc n = some (replicate n 205)

abbrev pub conn : Conn nvm malloc
conn = record {
  manager = node;
  message = [];
  published = [];
  state = receiving_command;
  is_open = true;
  remote_vssd = 1;
  blocks = record before { blks_array = (record { ch = 0; lun = 0; blk = 2 } ∷ []) ∷ [] };
  writer = record { writeq = []; armed = false; sent = [] };
}

-- `ocssd_io_request(WRITE_BLOCK_REQUEST, 0, 3, 0)` and the same for a read.
abbrev pub message_of : ℕ → List (List ℕ)
message_of magic =
    (magic ∷ 100 ∷ 0 ∷ 0 ∷ 0 ∷ [])
    ∷ (0 ∷ 0 ∷ 0 ∷ 3 ∷ 0 ∷ 0 ∷ 0 ∷ 0 ∷ 0 ∷ 0 ∷ 0 ∷ 0 ∷ 0 ∷ 0 ∷ 0 ∷ 0 ∷ 0 ∷ 0 ∷ 0 ∷ [])
    ∷ []

abbrev write_three : IoRequest
write_three = record { command = write_block_request; block_index = 0; count = 3; offset = 0 }

abbrev read_three : IoRequest
read_three = record { command = read_block_request; block_index = 0; count = 3; offset = 0 }

process_command-write_example :
    process_command nvm malloc 0
      (arrives (message_of 2) (received (7 ∷ []) ∷ received (8 ∷ 9 ∷ []) ∷ []))
      conn
    ≡ some (returned (pos 0) (with_dev nvm malloc 1 conn), [])
unfolding Io.of_buffer Io.parse Io.parse_fields Io.is_bad_magic Io.command_of deserialize_data4
    deserialize_data8 load cut of_bytes
process_command-write_example =
    process_command-write nvm malloc 0 (message_of 2) ((7 ∷ []) ∷ (8 ∷ 9 ∷ []) ∷ []) write_three []
      conn _ _ refl (omega arith, (omega arith, tt)) refl refl refl refl refl
      (omega arith, (omega arith, tt)) refl

-- Two bytes of a message, and then the end.
process_command-cut_message_example :
    process_command nvm malloc 0 (received (1 ∷ []) ∷ received (102 ∷ []) ∷ received [] ∷ []) conn
    ≡ some (disconnected nvm malloc (record conn { message = 1 ∷ 102 ∷ [] }), [])
process_command-cut_message_example =
    process_command-cut_message nvm malloc 0 ((1 ∷ []) ∷ (102 ∷ []) ∷ []) (received []) [] conn refl
      (omega arith, (omega arith, tt)) (inr refl) (omega arith)

process_command-cut_example :
    process_command nvm malloc 0 (arrives (message_of 2) (received (7 ∷ []) ∷ failed ∷ [])) conn
    ≡ some (disconnected nvm malloc conn, [])
unfolding Io.of_buffer Io.parse Io.parse_fields Io.is_bad_magic Io.command_of deserialize_data4
    deserialize_data8 load cut of_bytes
process_command-cut_example =
    process_command-cut nvm malloc 0 (message_of 2) ((7 ∷ []) ∷ []) failed write_three [] conn
      (record { ch = 0; lun = 0; blk = 2 } ∷ []) (replicate 3 205) refl
      (omega arith, (omega arith, tt)) (inl refl) refl refl refl refl (omega arith, tt) refl
      (omega arith)

process_command-read_example :
    (q : Bufferq) × (process_command nvm malloc 0 (arrives (message_of 1) []) conn
      ≡ some (
        returned (pos 0) (record (with_dev nvm malloc 1 conn) { writer = push q conn.writer }),
        [],
      ))
    × IsBuffer q
    × (left q ≡ 0 ∷ 0 ∷ 0 ∷ [])
unfolding Io.of_buffer Io.parse Io.parse_fields Io.is_bad_magic Io.command_of deserialize_data4
    deserialize_data8 load cut of_bytes
process_command-read_example =
    process_command-read nvm malloc 0 (message_of 1) read_three [] conn
      (record { ch = 0; lun = 0; blk = 2 } ∷ []) (replicate 3 205) refl
      (omega arith, (omega arith, tt)) refl refl refl refl refl refl (omega arith)

abbrev erase : IoRequest
erase = record { command = erase_block_request; block_index = 0; count = 3; offset = 0 }

process_command-erase_example :
    process_command nvm malloc 0 (arrives (message_of 3) []) conn
    ≡ some (returned (pos 0) (with_dev nvm malloc 1 conn), [])
unfolding Io.of_buffer Io.parse Io.parse_fields Io.is_bad_magic Io.command_of deserialize_data4
    deserialize_data8 load cut of_bytes
process_command-erase_example =
    process_command-erase nvm malloc 0 (message_of 3) erase [] conn
      (record { ch = 0; lun = 0; blk = 2 } ∷ []) refl (omega arith, (omega arith, tt)) refl refl
      refl refl

process_command-unknown_example :
    process_command nvm malloc 0 (arrives (message_of 4) []) conn
    ≡ some (returned (negsuc 0) conn, [])
unfolding get_header deserialize_data4 load cut of_bytes
process_command-unknown_example =
    process_command-unknown nvm malloc 0 (message_of 4) 0x6404 [] conn refl
      (omega arith, (omega arith, tt)) refl refl (omega arith) (omega arith) (omega arith)
      (omega arith)

-- `ocssd_alloc_request(2, 8, 1, 0, 0)`
abbrev pub alloc_message : List (List ℕ)
alloc_message =
    (1 ∷ 101 ∷ 0 ∷ 0 ∷ 2 ∷ 0 ∷ 0 ∷ 0 ∷ 8 ∷ 0 ∷ 0 ∷ 0 ∷ 1 ∷ 0 ∷ 0 ∷ 0 ∷ [])
    ∷ (0 ∷ 0 ∷ 0 ∷ 0 ∷ 0 ∷ 0 ∷ 0 ∷ 0 ∷ [])
    ∷ []

process_command-alloc_example :
    (m : OcssdManager) × (us : List VirtualUnit) × (o : Option (Handled nvm malloc)) × Serves node m
      us
    × (process_command nvm malloc 0 (arrives alloc_message []) conn ≡ (o >>= λ h. some (h, [])))
    × Answer nvm malloc 0 (record { id = 7; units = us }) (record conn { manager = m }) o
unfolding Alloc.of_buffer Alloc.parse Alloc.parse_fields deserialize_data4 load cut of_bytes
process_command-alloc_example =
    process_command-alloc nvm malloc 0 alloc_message two_shared [] conn (replicate 1024 205) refl
      (omega arith, (omega arith, tt)) refl refl (omega arith) refl node-IsManager refl refl
