-- ===== src/Conn/Handlers.antt =====
-- The handlers of `ocssd_conn`: what the server does for each request of a client.
pub mod Headers
pub mod Commands
pub mod Answers
pub mod Bytes
pub mod Grants
pub mod Keeps
pub mod BlockKeeps
pub mod Lifetime
use light_nvm.Base.{
  ℕ, List, [], ◌∷◌, ◌++◌, Bool, true, false, ◌||◌, not, Option, none, some, get_elem?, ltb, ◌==◌,
  if◌then◌else◌,
}
use light_nvm.Base.Int.{ℤ, pos, negsuc}
use light_nvm.Base.Partial.{◌>>=◌}
use light_nvm.Wire.Cursor.{at, get_header}
use light_nvm.Request.{
  Parsed, parsed, threw, request_magic, read_block_magic, write_block_magic, erase_block_magic,
}
use light_nvm.Request.Io
use light_nvm.Request.Alloc
use light_nvm.Vssd.Member.{VirtualUnit, NvmGeo}
use light_nvm.Vssd.Ssd.{VirtualOcssd}
use light_nvm.Vssd.Ssd
use light_nvm.Device.Manager.{OcssdManager, alloc_ocssd_resource}
use light_nvm.Conn.Nvm.{Nvm}
use light_nvm.Conn.Blocks.{Blocks, initialize_vssd_blocks}
use light_nvm.Conn.Queue.{Bufferq, Writer, push}
use light_nvm.Conn.Queue
use light_nvm.Conn.Publish.{Entity, publish_resource}
use light_nvm.Conn.Receive.{ReadResult, Received, filled, closed, receive}

abbrev pub message_buffer_size : ℕ
message_buffer_size = 24

abbrev pub vssd_buffer_size : ℕ
vssd_buffer_size = 1024

-- `conn_state`
pub data ConnState : Type 0 where
  receiving_command : ConnState
  receiving_write_data : ConnState

module _ (nvm : Nvm) (malloc : ℕ → Option (List ℕ)) where
  open nvm use {Device, Vblk, dev_open, dev_close, vblk_free, vblk_erase, vblk_write, vblk_pread}

  -- `message` is `message_buf_` up to `message_end_`; `is_open` says that the socket is open and the
  -- read event is added. The manager is the one that all connections share.
  pub record Conn : Type 0 where
    pub manager : OcssdManager
    pub message : List ℕ
    pub state : ConnState
    pub is_open : Bool
    pub remote_vssd : ℕ
    pub blocks : Blocks nvm
    pub writer : Writer
    pub published : List Entity

  -- The constructor. No block is there before a device is opened, so `num_blks_` and `blk_size_`, which it
  -- does not set, are not used; `d` is what liblightnvm works on.
  unfoldable pub connect : OcssdManager → Device → Conn
  connect manager d = record {
    manager = manager;
    message = [];
    state = receiving_command;
    is_open = true;
    remote_vssd = 0;
    blocks = record { dev = d; curr_blocks = []; blks_array = []; blk_size = 0; count = 0 };
    writer = record { writeq = []; armed = false; sent = [] };
    published = [];
  }

  -- The loop that frees the blocks.
  unfoldable pub free_blocks : List Vblk → Device → Device
  free_blocks [] d = d
  free_blocks (blk ∷ blks) d = free_blocks blks (vblk_free blk d)

  -- The destructor: what it leaves of the devices.
  unfoldable pub destroy : Conn → Device
  unfolding free_blocks
  destroy c =
      if c.remote_vssd == 0
      then c.blocks.dev
      else free_blocks c.blocks.blks_array (dev_close c.blocks.dev)

  -- A handler returns an `int`, or a `std::runtime_error` leaves it.
  pub data Handled : Type 0 where
    returned : ℤ → Conn → Handled
    raised : Handled

  abbrev pub with_dev : Device → Conn → Conn
  with_dev d c = record c { blocks = record (c.blocks) { dev = d } }

  -- `close(connfd_); event_del(&ev_read); return -1;`
  abbrev pub disconnected : Conn → Handled
  disconnected c = returned (negsuc 0) (record c { is_open = false })

  -- `get_unit(0)` of no unit is undefined behaviour.
  unfoldable pub initialize_remote_vssd :
      ℕ → VirtualOcssd → Blocks nvm → Option (Parsed (Blocks nvm))
  unfolding initialize_vssd_blocks Ssd.get_unit
  initialize_remote_vssd fuel vssd b = do
    vunit ← Ssd.get_unit vssd 0
    elim (dev_open vunit.dev_name b.dev) [
      | none ↦ some threw
      | some (geo, d) ↦ do
        b' ← initialize_vssd_blocks nvm fuel geo vunit (record b { dev = d })
        some (parsed b')
    ]

  -- `if (request.get_remote())`.
  unfoldable pub set_remote : ℕ → ℕ → VirtualOcssd → Conn → Option (Parsed Conn)
  unfolding initialize_remote_vssd
  set_remote fuel remote vssd c = if remote == 0 then some (parsed c) else (do
    p ← initialize_remote_vssd fuel vssd c.blocks
    elim p [
      | threw ↦ some threw
      | parsed b ↦ some (parsed (record c { remote_vssd = 1; blocks = b }))
    ])

  -- `publish_resource();`: the entities that the connection has inserted in the Azure tables.
  unfoldable pub publish : Conn → Conn
  unfolding publish_resource
  publish c = record c { published = c.published ++ (publish_resource c.manager).0 }

  -- The virtual OCSSD is serialized into the buffer, which is queued, and the devices are published.
  unfoldable pub send_vssd : Bufferq → VirtualOcssd → Conn → Option Handled
  unfolding Ssd.serialize push publish
  send_vssd q vssd c = do
    (len, p) ← Ssd.serialize vssd (at [] q.buf)
    let q' = record q { buf = p.past ++ p.rest; len = len }
    some (returned (pos 0) (publish (record c { writer = push q' c.writer })))

  -- What follows the allocation.
  unfoldable pub answer : ℕ → VirtualOcssd → ℕ → ℕ → Conn → Option Handled
  unfolding Ssd.get_num_units Queue.make set_remote send_vssd
  answer fuel vssd remote ret c =
      if (ret == 0) || ltb (Ssd.get_num_units vssd) 1 then some (returned (negsuc 0) c) else (do
        q ← Queue.make malloc vssd_buffer_size
        p ← set_remote fuel remote vssd c
        elim p [ threw ↦ some raised | parsed c' ↦ send_vssd q vssd c' ])

  unfoldable pub process_alloc_request : ℕ → List ℕ → Conn → Option Handled
  unfolding Alloc.of_buffer alloc_ocssd_resource Ssd.make answer
  process_alloc_request fuel message c = do
    p ← Alloc.of_buffer message
    elim p [
      | threw ↦ some raised
      | parsed request ↦ do
        (m, vssd, request', ret) ← alloc_ocssd_resource c.manager Ssd.make request
        answer fuel vssd request'.remote ret (record c { manager = m })
    ]

  -- `GetBlockPointer` of an index out of range is undefined behaviour. No pointer of the vector is NULL,
  -- so the test for NULL behind it is never true.
  unfoldable pub get_block_pointer : Conn → ℕ → Option Vblk
  get_block_pointer c idx = get_elem? c.blocks.blks_array idx

  -- The result of `nvm_vblk_pread` is only printed.
  unfoldable pub process_read_request : List ℕ → Conn → Option Handled
  unfolding Io.of_buffer get_block_pointer Queue.make push
  process_read_request message c = do
    p ← Io.of_buffer message
    elim p [
      | threw ↦ some raised
      | parsed request ↦ do
        blk ← get_block_pointer c request.block_index
        q ← Queue.make malloc request.count
        let (ret, bytes, d) = vblk_pread blk request.count request.offset c.blocks.dev
        let q' = record q { buf = bytes }
        some (returned (pos 0) (record (with_dev d c) { writer = push q' c.writer }))
    ]

  -- What follows the loop that reads the data.
  unfoldable pub write_received : Vblk → Received → Conn → Handled × List ReadResult
  write_received blk (closed got reads) c = (disconnected c, reads)
  write_received blk (filled bytes reads) c =
      let (ret, d) = vblk_write blk bytes c.blocks.dev in (returned (pos 0) (with_dev d c), reads)

  -- `new bufferq(count)`, and the loop that reads the data into it. If `malloc` gives NULL, `read` into it
  -- fails and takes nothing off the socket, and no data is read if none is asked for.
  unfoldable pub read_data : ℕ → List ReadResult → Option Received
  unfolding receive
  read_data count reads = elim (malloc count) [
    | none ↦ some (if count == 0 then filled [] reads else closed [] reads)
    | some room ↦ receive count [] reads
  ]

  -- The handler and the reads that are left.
  unfoldable pub process_write_request :
      List ℕ → List ReadResult → Conn → Option (Handled × List ReadResult)
  unfolding Io.of_buffer get_block_pointer read_data write_received
  process_write_request message reads c = do
    p ← Io.of_buffer message
    elim p [
      | threw ↦ some (raised, reads)
      | parsed request ↦ do
        blk ← get_block_pointer c request.block_index
        o ← read_data request.count reads
        some (write_received blk o c)
    ]

  unfoldable pub process_erase_request : List ℕ → Conn → Option Handled
  unfolding Io.of_buffer get_block_pointer
  process_erase_request message c = do
    p ← Io.of_buffer message
    elim p [
      | threw ↦ some raised
      | parsed request ↦ do
        blk ← get_block_pointer c request.block_index
        let (ret, d) = vblk_erase blk c.blocks.dev
        some (returned (pos 0) (with_dev d c))
    ]

  -- A handler that does not read from the socket.
  abbrev pub and_reads : List ReadResult → Option Handled → Option (Handled × List ReadResult)
  and_reads reads o = o >>= λ h. some (h, reads)

  -- `switch (header)`
  unfoldable pub dispatch :
      ℕ → ℕ → List ℕ → List ReadResult → Conn → Option (Handled × List ReadResult)
  unfolding process_alloc_request process_read_request process_write_request process_erase_request
  dispatch fuel header message reads c =
      if header == request_magic
      then and_reads reads (process_alloc_request fuel message c)
      else if header == read_block_magic
      then and_reads reads (process_read_request message c)
      else if header == write_block_magic
      then process_write_request message reads c
      else if header == erase_block_magic
      then and_reads reads (process_erase_request message c)
      else some (returned (negsuc 0) c, reads)

  unfoldable pub process_command : ℕ → List ReadResult → Conn → Option (Handled × List ReadResult)
  unfolding receive get_header dispatch
  process_command fuel reads c = do
    o ← receive message_buffer_size c.message reads
    elim o [
      | closed got reads' ↦ some (disconnected (record c { message = got }), reads')
      | filled message reads' ↦ do
        header ← get_header message
        dispatch fuel header message reads' (record c { message = [] })
    ]

  -- `process_write_data` does nothing.
  unfoldable pub process_incoming_requests :
      ℕ → List ReadResult → Conn → Option (Handled × List ReadResult)
  unfolding process_command
  process_incoming_requests fuel reads c = elim c.state [
    | receiving_command ↦ process_command fuel reads c
    | receiving_write_data ↦ some (returned (pos 0) c, reads)
  ]
