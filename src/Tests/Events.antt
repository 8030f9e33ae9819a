-- ===== src/Tests/Events.antt =====
-- A server on one device, with a client who asks for channels.
use light_nvm.Base.{
  inc_int, ℕ, ◌≡◌, refl, subst, arith, List, [], ◌∷◌, ◌++◌, Bool, true, Option, none, some,
  replicate,
}
use light_nvm.Base.Int.{ℤ, pos}
use light_nvm.Vssd.Member.{NvmGeo}
use light_nvm.Vssd.Ssd.{VirtualOcssd}
use light_nvm.Device.Manager.{OcssdManager}
use light_nvm.Conn.Queue.{Bufferq, wrote}
use light_nvm.Conn.Receive.{received}
use light_nvm.Server.{
  Interface, Server, started, Event, accept_ready, read_ready, write_ready, Reacted, running,
  exited, react, Listening, Started, ready, early, ended, main, device_path,
}
use light_nvm.Conn.Publish.{Entity, entity_of}
use light_nvm.Server.Start.{Fits}
use light_nvm.Server.Events.{Serving, event, stopped, Tells, queued}
use light_nvm.Server.Whole.{Shares, main-Shares}
use light_nvm.Tests.Conn.{nvm}
use light_nvm.Tests.Virtual.{geo}
use light_nvm.Tests.Life.{malloc, laws}
use light_nvm.Wire.Cursor
use light_nvm.Request.Alloc
use light_nvm.Conn.Queue
use light_nvm.Conn.Publish
use light_nvm.Conn.Receive
use light_nvm.Conn.Handlers
use light_nvm.Conn.Handlers.{Conn, connect}
use light_nvm.Vssd.Ssd
use light_nvm.Vssd.Member
use light_nvm.Vssd.Channel
use light_nvm.Vssd.Lun
use light_nvm.Device.Manager
use light_nvm.Device.Drive
use light_nvm.Device.Channel as PhysicalChannel
use light_nvm.Device.Lun as PhysicalLun
use light_nvm.Wire.Loops
use light_nvm.Server

abbrev exists : List ℕ → Bool
exists path = true

abbrev opened : List ℕ → Option NvmGeo
opened path = some geo

abbrev no_manager : OcssdManager
no_manager = record { ip = []; ocssds = []; count = 0; vssd_id = 0 }

abbrev interfaces : List Interface
interfaces =
    record { name = b'l' ∷ b'o' ∷ []; ipv4 = some (b'7' ∷ []) }
    ∷ record { name = b'e' ∷ b'n' ∷ b'o' ∷ b'1' ∷ []; ipv4 = some (b'9' ∷ []) }
    ∷ []

abbrev listening : Listening
listening = record {
  socket = pos 3;
  setsockopt = pos 0;
  bind = pos 0;
  listen = pos 0;
  getfl = pos 2;
  setfl = λ flags. pos 0;
}

abbrev nonblock : ℤ → ℤ
nonblock flags = flags

abbrev begins : Started
begins = main nonblock true exists opened interfaces listening

abbrev manager_of : Started → OcssdManager
manager_of (early n) = no_manager
manager_of ended = no_manager
manager_of (ready m published) = m

abbrev published_of : Started → List Entity
published_of (early n) = []
published_of ended = []
published_of (ready m published) = published

begun : begins ≡ ready (manager_of begins) (published_of begins)
unfolding main Server.get_ip Server.initialize_ocssd_manager Server.add_devices Manager.add_ocssd
    Server.listen_on Server.setnonblock Server.publish_resource
begun = refl

-- A request for two shared channels with eight blocks.
abbrev message : List ℕ
message = (1 ∷ 101 ∷ 0 ∷ 0 ∷ 2 ∷ 0 ∷ 0 ∷ 0 ∷ 8 ∷ 0 ∷ 0 ∷ 0 ∷ 1 ∷ 0 ∷ 0 ∷ 0 ∷ []) ++ replicate 8 0

abbrev server : Server nvm malloc
server = started nvm malloc (manager_of begins) 0

abbrev state_of : Option (Reacted nvm malloc) → Server nvm malloc
state_of none = server
state_of (some (running s)) = s
state_of (some exited) = server

abbrev accepted : Server nvm malloc
accepted = state_of (react nvm malloc (accept_ready (pos 5)) server)

abbrev asked : Server nvm malloc
asked = state_of (react nvm malloc (read_ready 0 0 (received message ∷ [])) accepted)

-- The client is accepted, asks, and is sent the first bytes of the answer.
abbrev sending : Server nvm malloc
sending = state_of (react nvm malloc (write_ready 0 (wrote 12)) asked)

abbrev asks : Event nvm malloc
asks = read_ready 0 0 (received message ∷ [])

abbrev events : List (List Bufferq)
events =
    queued nvm malloc laws (accept_ready (pos 5)) server accepted
    ∷ queued nvm malloc laws asks accepted asked
    ∷ queued nvm malloc laws (write_ready 0 (wrote 12)) asked sending
    ∷ []

abbrev first_client : List (Conn nvm malloc) → Conn nvm malloc
first_client [] = connect nvm malloc no_manager 0
first_client (c ∷ cs) = c

abbrev first_buffer : List Bufferq → Bufferq
first_buffer [] = record { buf = []; len = 0; offset = 0 }
first_buffer (q ∷ qs) = q

abbrev other_buffers : List Bufferq → List Bufferq
other_buffers [] = []
other_buffers (q ∷ qs) = qs

serving : Serving nvm malloc laws server events sending
unfolding main Server.get_ip Server.initialize_ocssd_manager Server.add_devices Manager.add_ocssd
    Server.listen_on Server.setnonblock Server.publish_resource react Server.on_accept
    Server.on_read Handlers.connect Handlers.process_incoming_requests Handlers.process_command
    Receive.receive Cursor.get_header Cursor.deserialize_data4 Cursor.load Cursor.cut
    Cursor.of_bytes Handlers.dispatch Handlers.process_alloc_request Alloc.of_buffer Alloc.parse
    Alloc.parse_fields Manager.alloc_ocssd_resource Manager.alloc_units Drive.alloc_channels
    Handlers.answer Queue.make Handlers.set_remote Handlers.send_vssd Handlers.publish
    Publish.publish_resource Ssd.serialize Member.make Ssd.make Ssd.add Ssd.set_id
    Alloc.dec_channels Drive.make Drive.alloc_shared_channels Drive.alloc_shared_loop
    Drive.alloc_kind PhysicalChannel.alloc_blocks PhysicalChannel.alloc_luns
    PhysicalLun.alloc_blocks Channel.of_units Channel.add_units Channel.add_unit Queue.push
    Drive.initialize_dev Drive.add_channels Drive.add_channel Drive.assign_to_shared
    PhysicalChannel.make PhysicalChannel.make_luns PhysicalLun.make PhysicalChannel.set_shared
    Member.add Member.serialize Member.serialize_geo Channel.serialize Lun.serialize Loops.for_each
    Cursor.serialize_data4 Cursor.store Cursor.to_bytes Cursor.memcpy Cursor.position Cursor.sized
    Cursor.counted Cursor.advance Lun.make Ssd.get_num_units Cursor.serialize_data8 Server.on_write
    Queue.on_write Queue.unwritten Queue.written inc_int Drive.replace_slash
serving = event (accept_ready (pos 5)) accepted tt refl (
    event asks asked (first_client accepted.clients, refl, refl, (omega arith, tt)) refl
      (event (write_ready 0 (wrote 12)) sending
        (
          first_client asked.clients,
          first_buffer (first_client asked.clients).writer.writeq,
          other_buffers (first_client asked.clients).writer.writeq,
          refl,
          refl,
          refl,
          omega arith,
        )
        refl stopped))

opened-Fits : (g : NvmGeo) → opened (device_path 1) ≡ some g → Fits g
opened-Fits g e =
    let same : geo ≡ g = cc e in
    subst Fits same (record {
      geo_fits = omega arith;
      channels = omega arith;
      luns = omega arith;
      blocks = omega arith;
    })

main-Shares_example : (vs : List VirtualOcssd) × Tells events vs × Shares sending.manager vs
main-Shares_example =
    main-Shares nvm malloc laws exists opened interfaces opened-Fits nonblock true listening
      (manager_of begins) (published_of begins) 0 sending events begun serving
