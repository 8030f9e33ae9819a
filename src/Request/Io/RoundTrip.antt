-- ===== src/Request/Io/RoundTrip.antt =====
-- What `serialize` of a block request stores, the parsing constructor takes back, and what either
-- does with other commands and magics.
use light_nvm.Base.{ℕ, ◌^◌, ◌<◌, ◌≤◌, ◌≡◌, ◌⊎◌, arith, subst, List, [], ◌++◌, length, some}
use light_nvm.Wire.Cursor.{at, u32, u64}
use light_nvm.Wire.Codec.{Codes, Codes-bind, Codes-map, Codes-sized, Codes-buffer}
use light_nvm.Wire.Fields.{Codes-data4, Codes-data8}
use light_nvm.Request.{
  RequestCode, read_block_request, write_block_request, erase_block_request, no_request,
  alloc_vssd_request, read_block_magic, write_block_magic, erase_block_magic, parsed,
}
use light_nvm.Request.Io.{
  IoRequest, command_of, parse_fields, parse, of_buffer, serialize_fields, serialize_command,
  serialize,
}

-- Each member fits its `uint32_t` or `size_t`.
pub record InRange (r : IoRequest) : Type 0 where
  pub index : r.block_index < 2 ^ 32
  pub count : r.count < 2 ^ 64
  pub offset : r.offset < 2 ^ 64

-- A command that the wire format has a magic for.
abbrev pub IsBlockCommand : RequestCode → Type 0
IsBlockCommand c = (c ≡ read_block_request) ⊎ (c ≡ write_block_request) ⊎ (c ≡ erase_block_request)

abbrev narrowed : RequestCode → IoRequest → IoRequest
narrowed c r = record {
  command = c;
  block_index = u32 r.block_index;
  count = u64 r.count;
  offset = u64 r.offset;
}

narrowed_lem : (r : IoRequest) → InRange r → narrowed r.command r ≡ r
narrowed_lem r v = ground arith

module _ (magic : ℕ) (r : IoRequest) where
  Codes-fields :
      Codes (serialize_fields r) tt (parse_fields magic) (parsed (narrowed (command_of magic) r)) 20
  unfolding serialize_fields parse_fields
  Codes-fields =
      Codes-bind _ _ (Codes-data4 r.block_index)
        (Codes-bind _ _ (Codes-data8 r.count) (Codes-map _ (Codes-data8 r.offset)))

Codes-command :
    (c : RequestCode) (r : IoRequest)
    → IsBlockCommand c
    → Codes (serialize_command c r) 24 parse (parsed (narrowed c r)) 24
unfolding serialize_command parse command_of
Codes-command read_block_request r b =
    Codes-sized (Codes-bind _ _ (Codes-data4 read_block_magic) (Codes-fields read_block_magic r))
Codes-command write_block_request r b =
    Codes-sized (Codes-bind _ _ (Codes-data4 write_block_magic) (Codes-fields write_block_magic r))
Codes-command erase_block_request r b =
    Codes-sized (Codes-bind _ _ (Codes-data4 erase_block_magic) (Codes-fields erase_block_magic r))
Codes-command no_request r b = absurd (ground arith)
Codes-command alloc_vssd_request r b = absurd (ground arith)

pub Codes-io :
    (r : IoRequest)
    → IsBlockCommand r.command
    → InRange r
    → Codes (serialize r) 24 parse (parsed r) 24
unfolding serialize
Codes-io r b v =
    subst (λ s. Codes (serialize r) 24 parse (parsed s) 24) (narrowed_lem r v)
      (Codes-command r.command r b)

-- A read, write or erase request whose members fit their types, serialized into a buffer of at least
-- 24 bytes, takes 24 bytes, and the constructor that parses the buffer gives the same request.
pub io_round_trip :
    (r : IoRequest) (buffer : List ℕ)
    → IsBlockCommand r.command
    → InRange r
    → 24 ≤ length buffer
    → (out : List ℕ) × (rest : List ℕ) × (length out ≡ 24)
      × (serialize r (at [] buffer) ≡ some (24, at out rest))
      × (of_buffer (out ++ rest) ≡ some (parsed r))
unfolding of_buffer
io_round_trip r buffer b v h =
    let (out, rest, l, w, p) = Codes-buffer (Codes-io r b v) buffer h in (out, rest, l, w, rw p)
