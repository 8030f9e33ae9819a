-- ===== src/Lib.antt =====
-- LightNVM: a server that shares open-channel SSDs among clients.
--
-- The server keeps the physical devices of a node (`ocssd_manager`, `ocssd_unit`, `ocssd_channel`,
-- `ocssd_lun` in ocssd_server.h). A client sends a request for channels (`ocssd_alloc_request`);
-- the manager lets its devices grant channels, whole or in runs of blocks, and answers with a
-- virtual OCSSD (`virtual_ocssd`) that lists them, in a wire format that the client reads back.
-- Block requests (`ocssd_io_request`) then read, write and erase the blocks of a virtual OCSSD.
--
-- The modules:
--   Base            names of the libraries, Boolean tests, lists over native numbers, size_t
--                   arithmetic
--   Wire            `serialize_data4/8`, `deserialize_data4/8`, `get_header`: a `char *` is a
--                   position in a block of bytes (Wire.Cursor); `Codes` (Wire.Codec) says that a
--                   writer and a reader agree, and is composed along the code
--   Request         ocssd_server.h, `ocssd_io_request` (Request.Io), `ocssd_alloc_request`
--                   (Request.Alloc)
--   Vssd            ocssd_server.h, `virtual_ocssd_lun` (Vssd.Lun), `virtual_ocssd_channel`
--                   (Vssd.Channel), `virtual_ocssd_unit` (Vssd.Member), `virtual_ocssd` (Vssd.Ssd);
--                   Vssd.RoundTrip has the wire format of each
--   Device          ocssd_server.h, `ocssd_lun` (Device.Lun), `ocssd_channel` (Device.Channel),
--                   `ocssd_unit` (Device.Drive), `ocssd_manager` (Device.Manager); each has children
--                   for what is proved of it
--   Conn            ocssd_conn.h and `on_write` of ocssd_libevent_server.cc: the read loop
--                   (Conn.Receive), `process_command` and the handlers (Conn.Handlers),
--                   `publish_resource` (Conn.Publish), `bufferq` and the write queue (Conn.Queue),
--                   `generate_addr` and the loops that address blocks (Conn.Addresses),
--                   `nvm_vblk_test` and `initialize_vssd_blocks` (Conn.Blocks), and what is called
--                   of liblightnvm (Conn.Nvm)
--   Server          ocssd_libevent_server.cc: how the server starts (Server.Start), and its events
--                   in any order (Server.Runs, Server.Whole), on connections that share the manager
--   Pool            threadpool.h and locker.h: workers and threads that append, as steps in any
--                   order
--   Client          ocssd_client.cc, the test program that talks to a server, and client.cc
--                   (Client.Plain); Client.Session joins the first to the handlers of the server
--   Bench           vblk_writetest.cc (Bench.Write), vblk_readtest.cc (Bench.Read), and
--                   vblk_write.cc with vblk_read.cc (Bench.Single): programs that time virtual
--                   blocks
--   Tests           runs on concrete inputs
--
-- State is passed on explicitly: an operation returns the objects that it changes and its result.
-- The constructor of a C++ class is `make` in the class's module, or `of_...` where it reads a
-- buffer. Undefined behaviour (an access outside of a buffer, a division by zero) is `none`; a C++
-- exception is `threw`, or `raised` where it leaves a handler. A value of a machine type is a
-- number, with the wrap-around of `uint32_t` (`u32`) and `size_t` (`add64`, `sub64`, `mul64`)
-- written out; an `int` that counts up from 0 is a number whose step past its range is undefined
-- behaviour (`inc_int`). Loops over a vector are recursions on the list, and counted loops recur on the
-- rounds left; two loops have fuel. Words are stored little-endian, as on the machines that the
-- server runs on.
--
-- What is in use is a ledger: a block of a LUN of a channel of a device is in use if its LUN has
-- handed it out, or if its channel is granted whole (`UsedAt`, `UsedOn`); it belongs to a virtual
-- OCSSD that lists it (`OwnedAt`, `OwnedOn`).
--
-- The loop of `initialize_vssd_blocks` has fuel: one round more than the longest run of blocks in
-- one LUN is enough, since each round takes a block of every run that has one. The loop over the
-- sizes of a request in Bench has 32 rounds of fuel, more than an `int` can be doubled without an
-- overflow. What `read` and `write` return, what `malloc` gives and what liblightnvm does are
-- arguments; `AllocLaw` is what is documented of `nvm_vblk_alloc`, `Laws` of `malloc` and
-- `nvm_vblk_pread`, and `WriteLaws` of the position of a virtual block, which only a write that
-- succeeds moves on; `Gives` is a device that has virtual blocks of a size that an `int` can hold,
-- and buffers. Events of the server are whole
-- calls of a handler; in the pool, a step of a thread goes from one call on the lock or the
-- semaphore to the next.
--
-- liblightnvm is not part of the repository: the geometry of a device that it opens is an argument,
-- and of `nvm_geo` the members that the program names are modelled. How wide liblightnvm's fields of
-- an address are is not known here: the numbers of channels, LUNs and blocks are taken to fit them. The destructors of
-- ocssd_server.h, `print`, the Azure tables and the mutexes of the manager are not modelled: the
-- methods of a device and of the manager hold a mutex from start to end, so that a run is a
-- sequence of whole operations. Of the programs that time virtual blocks, what depends on the clock
-- is left out, and their output files can be opened. The samples hello.c, addr.c, erase.c and
-- write.c are not modelled.
pub mod Base
pub mod Wire
pub mod Request
pub mod Vssd
pub mod Device
pub mod Conn
pub mod Pool
pub mod Client
pub mod Server
pub mod Bench
pub mod Tests
