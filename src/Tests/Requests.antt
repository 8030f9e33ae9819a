-- ===== src/Tests/Requests.antt =====
-- The requests of ocssd_client.cc, and messages that no request has.
use light_nvm.Base.{ℕ, ◌≡◌, refl, arith, inl, inr, List, [], ◌∷◌, ◌++◌, some, length, replicate}
use light_nvm.Wire.Cursor.{at, to_bytes, store, cut, serialize_data4, sized}
use light_nvm.Request.{write_block_request, parsed}
use light_nvm.Request.Alloc.{AllocRequest}
use light_nvm.Request.Alloc
use light_nvm.Request.Alloc.RoundTrip as AllocTrip
use light_nvm.Request.Io.{IoRequest}
use light_nvm.Request.Io
use light_nvm.Request.Io.RoundTrip as IoTrip

-- `ocssd_alloc_request request(4, 1024, 1, 0, 1);`
abbrev four_channels : AllocRequest
four_channels = record { num_channels = 4; num_blocks = 1024; shared = 1; numa_id = 0; remote = 1 }

-- `ocssd_io_request request(WRITE_BLOCK_REQUEST, 0, 1048576, 0);`
abbrev write_megabyte : IoRequest
write_megabyte = record {
  command = write_block_request;
  block_index = 0;
  count = 1048576;
  offset = 0;
}

abbrev room : List ℕ
room = replicate 30 7

made_in_range : Alloc.make 4 1024 1 0 1 ≡ four_channels
unfolding Alloc.make
made_in_range = refl

alloc_message :
    Alloc.serialize four_channels (at [] (replicate 24 7))
    ≡ some (
      24,
      at
          (1 ∷ 101 ∷ 0 ∷ 0 ∷ 4 ∷ 0 ∷ 0 ∷ 0 ∷ 0 ∷ 4 ∷ 0 ∷ 0 ∷ 1 ∷ 0 ∷ 0 ∷ 0 ∷ 0 ∷ 0 ∷ 0 ∷ 0 ∷ 1 ∷ 0
            ∷ 0 ∷ 0 ∷ [])
          [],
    )
unfolding Alloc.serialize serialize_data4 store cut to_bytes sized
alloc_message = refl

alloc_round_trip_example :
    (out : List ℕ) × (rest : List ℕ) × (length out ≡ 24)
    × (Alloc.serialize four_channels (at [] room) ≡ some (24, at out rest))
    × (Alloc.of_buffer (out ++ rest) ≡ some (parsed four_channels))
alloc_round_trip_example = AllocTrip.alloc_round_trip four_channels room (omega arith) (omega arith)

io_round_trip_example :
    (out : List ℕ) × (rest : List ℕ) × (length out ≡ 24)
    × (Io.serialize write_megabyte (at [] room) ≡ some (24, at out rest))
    × (Io.of_buffer (out ++ rest) ≡ some (parsed write_megabyte))
io_round_trip_example =
    IoTrip.io_round_trip write_megabyte room (inr (inl refl)) (omega arith) (omega arith)
