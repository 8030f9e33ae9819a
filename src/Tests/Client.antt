-- ===== src/Tests/Client.antt =====
-- A client that asks a server for two channels, one that writes three bytes, and one that reads three.
use light_nvm.Base.{
  ℕ, ◌≡◌, refl, arith, List, [], ◌∷◌, ◌++◌, length, replicate, false, Option, none, some,
}
use light_nvm.Base.Int.{pos}
use light_nvm.Wire.Cursor.{
  store, load, cut, to_bytes, of_bytes, serialize_data4, serialize_data8, deserialize_data4,
  deserialize_data8, sized, get_header, memcpy, advance, position,
}
use light_nvm.Wire.Loops.{for_each}
use light_nvm.Request.{parsed, read_block_request}
use light_nvm.Request.Io
use light_nvm.Request.Alloc
use light_nvm.Request.Alloc.{AllocRequest, dec_channels}
use light_nvm.Vssd.Lun as VLun
use light_nvm.Vssd.Channel as VChannel
use light_nvm.Vssd.Member
use light_nvm.Vssd.Member.{VirtualUnit}
use light_nvm.Vssd.Ssd
use light_nvm.Device.Lun
use light_nvm.Device.Channel
use light_nvm.Device.Drive
use light_nvm.Device.Manager.{alloc_ocssd_resource, alloc_units}
use light_nvm.Device.Manager.Grant.{Serves}
use light_nvm.Conn.Queue.{Bufferq}
use light_nvm.Conn.Queue
use light_nvm.Conn.Queue.Delivery.{left}
use light_nvm.Conn.Receive.{ReadResult, received, arrives, joined, receive}
use light_nvm.Conn.Handlers.{
  Conn, Handled, returned, raised, process_command, dispatch, process_alloc_request, answer,
  send_vssd, set_remote, with_dev,
}
use light_nvm.Client.{Sock, ask, send_request, test_write_block, test_read_block}
use light_nvm.Client.Session.{ask-Granted, test_write_block-written}
use light_nvm.Client.Reading.{test_read_block-data}
use light_nvm.Tests.Virtual.{geo}
use light_nvm.Tests.Devices.{node, node-IsManager, two_shared}
use light_nvm.Tests.Conn.{nvm}
use light_nvm.Tests.Server.{malloc, conn, alloc_message, message_of}

abbrev fresh : Conn nvm malloc
fresh = record conn { writer = record { writeq = []; armed = false; sent = [] } }

abbrev handled : Option (Handled nvm malloc × List ReadResult)
handled = process_command nvm malloc 0 (arrives alloc_message []) fresh

abbrev conn_of : Option (Handled nvm malloc × List ReadResult) → Conn nvm malloc
conn_of (some (returned n c, reads)) = c
conn_of (some (raised, reads)) = fresh
conn_of none = fresh

abbrev served : Conn nvm malloc
served = conn_of handled

abbrev no_buffer : Bufferq
no_buffer = record { buf = []; len = 0; offset = 0 }

abbrev last_of : List Bufferq → Bufferq
last_of [] = no_buffer
last_of (q ∷ qs) = q

abbrev answered : Bufferq
answered = last_of served.writer.writeq

-- The socket takes 30 bytes at once, and the answer of the server arrives.
abbrev sock : Sock
sock = record { sent = []; sends = 30 ∷ []; recvs = received (left answered) ∷ [] }

ask-Granted_example :
    (us : List VirtualUnit) × Serves node served.manager us
    × (ask geo two_shared sock
        ≡ some (
          record { id = 7; units = us },
          record { sent = joined alloc_message; sends = []; recvs = [] },
        ))
unfolding alloc_ocssd_resource alloc_units dec_channels Ssd.make Ssd.add Ssd.set_id
    Ssd.get_num_units Ssd.serialize Drive.make Drive.initialize_dev Drive.add_channels
    Drive.add_channel Drive.assign_to_shared Drive.alloc_channels Drive.alloc_kind
    Drive.alloc_shared_channels Drive.alloc_shared_loop Channel.make Channel.make_luns
    Channel.set_shared Channel.alloc_blocks Channel.alloc_luns Channel.get_free_blocks Lun.make
    Lun.alloc_blocks VLun.make VLun.serialize VChannel.make VChannel.of_units VChannel.add_units
    VChannel.add_unit VChannel.serialize Member.make Member.add Member.serialize
    Member.serialize_geo Alloc.of_buffer Alloc.parse Alloc.parse_fields Alloc.serialize
    Alloc.serialize_fields process_command dispatch process_alloc_request answer send_vssd
    set_remote receive get_header Queue.make Queue.push send_request for_each store load cut
    to_bytes of_bytes serialize_data4 serialize_data8 deserialize_data4 deserialize_data8 sized
    memcpy advance position
ask-Granted_example =
    ask-Granted nvm malloc 0 geo two_shared sock
      (record { sent = joined alloc_message; sends = []; recvs = received (left answered) ∷ [] })
      (joined alloc_message ++ replicate 1000 0) (replicate 1024 205) 30 [] alloc_message [] [] []
      fresh served answered (omega arith) refl refl (omega arith) refl refl
      (omega arith, (omega arith, tt)) refl node-IsManager refl refl refl refl refl

abbrev plain : Sock
plain = record { sent = []; sends = 24 ∷ 3 ∷ []; recvs = [] }

test_write_block-written_example :
    process_command nvm malloc 0
      (arrives (message_of 2) (received (b'a' ∷ []) ∷ received (b'a' ∷ b'a' ∷ []) ∷ []))
      conn
    ≡ some (returned (pos 0) (with_dev nvm malloc 1 conn), [])
unfolding test_write_block send_request Io.make Io.serialize Io.serialize_command
    Io.serialize_fields store cut to_bytes serialize_data4 serialize_data8 sized position
test_write_block-written_example =
    test_write_block-written nvm malloc 0 malloc (replicate 30 7) (replicate 3 205)
      (replicate 3 205) 0 3 plain
      (record { sent = joined (message_of 2) ++ replicate 3 b'a'; sends = []; recvs = [] }) 24 3 []
      (message_of 2) ((b'a' ∷ []) ∷ (b'a' ∷ b'a' ∷ []) ∷ []) [] conn
      (record { ch = 0; lun = 0; blk = 2 } ∷ []) (omega arith) (omega arith) (omega arith) refl
      (omega arith) (omega arith) refl refl refl refl (omega arith, (omega arith, tt))
      (omega arith, (omega arith, tt)) refl refl refl refl

abbrev reading : Sock
reading = record {
  sent = [];
  sends = 24 ∷ [];
  recvs = received (5 ∷ []) ∷ received (6 ∷ 7 ∷ []) ∷ [];
}

test_read_block-data_example :
    (out : List ℕ) × (length out ≡ 24)
    × (Io.of_buffer out
        ≡ some (
            parsed
              (record { command = read_block_request; block_index = 1; count = 3; offset = 8 })))
    × (test_read_block malloc (replicate 24 0) 1 3 8 reading
        ≡ some (5 ∷ 6 ∷ 7 ∷ [], 3, record { sent = out; sends = []; recvs = [] }))
test_read_block-data_example =
    test_read_block-data malloc (replicate 24 0) (replicate 3 205) 1 3 8 reading 24 []
      ((5 ∷ []) ∷ (6 ∷ 7 ∷ []) ∷ []) [] (omega arith) (omega arith) (omega arith) (omega arith)
      (omega arith) refl (omega arith) refl refl (omega arith, (omega arith, tt)) refl refl
