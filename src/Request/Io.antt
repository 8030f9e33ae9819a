-- ===== src/Request/Io.antt =====
-- `ocssd_io_request` of ocssd_server.h: a request to read, write or erase a virtual block.
pub mod RoundTrip
use light_nvm.Base.{ℕ, List, [], Option, none, some, Bool, ◌&&◌, not, ◌==◌, if◌then◌else◌}
use light_nvm.Wire.Cursor.{
  M, at, pure, ◌>>=◌, ◌>>◌, u32, u64, serialize_data4, serialize_data8, deserialize_data4,
  deserialize_data8, sized,
}
use light_nvm.Request.{
  RequestCode, no_request, alloc_vssd_request, read_block_request, write_block_request,
  erase_block_request, read_block_magic, write_block_magic, erase_block_magic, Parsed, parsed,
  threw,
}
use mathlib.Core.Option

pub record IoRequest : Type 0 where
  pub command : RequestCode
  pub block_index : ℕ
  pub count : ℕ
  pub offset : ℕ

-- The constructor from a command and its arguments, `uint32_t`, `size_t` and `size_t`.
unfoldable pub make : RequestCode → ℕ → ℕ → ℕ → IoRequest
make command block_index count offset = record {
  command = command;
  block_index = u32 block_index;
  count = u64 count;
  offset = u64 offset;
}

-- The guard of the parsing constructor.
unfoldable pub is_bad_magic : ℕ → Bool
is_bad_magic magic =
    not (magic == read_block_magic)
    && (not (magic == write_block_magic) && not (magic == erase_block_magic))

-- Its `switch`. The guard stands before it, so the last case, which sets no command, is not met.
unfoldable pub command_of : ℕ → RequestCode
command_of magic =
    if magic == read_block_magic
    then read_block_request
    else if magic == write_block_magic
    then write_block_request
    else if magic == erase_block_magic
    then erase_block_request
    else no_request

unfoldable pub parse_fields : ℕ → M (Parsed IoRequest)
unfolding command_of
parse_fields magic = do
  block_index ← deserialize_data4
  count ← deserialize_data8
  offset ← deserialize_data8
  pure (
      parsed (record {
        command = command_of magic;
        block_index = block_index;
        count = count;
        offset = offset;
      }))

unfoldable pub parse : M (Parsed IoRequest)
unfolding is_bad_magic
parse = do magic ← deserialize_data4; if is_bad_magic magic then pure threw else parse_fields magic

-- The constructor from a message buffer; `none` is a read behind its end.
unfoldable pub of_buffer : List ℕ → Option (Parsed IoRequest)
of_buffer buffer = Option.map (λ r. r.0) (parse (at [] buffer))

-- The words behind the magic.
unfoldable pub serialize_fields : IoRequest → M (Unit {0})
serialize_fields r = do
  serialize_data4 r.block_index
  serialize_data8 r.count
  serialize_data8 r.offset

-- `switch (command_)`, with what follows it; the default case returns 0 and stores nothing.
unfoldable pub serialize_command : RequestCode → IoRequest → M ℕ
unfolding serialize_fields
serialize_command read_block_request r =
    sized (do serialize_data4 read_block_magic; serialize_fields r)
serialize_command write_block_request r =
    sized (do serialize_data4 write_block_magic; serialize_fields r)
serialize_command erase_block_request r =
    sized (do serialize_data4 erase_block_magic; serialize_fields r)
serialize_command no_request r = pure 0
serialize_command alloc_vssd_request r = pure 0

unfoldable pub serialize : IoRequest → M ℕ
serialize r = serialize_command r.command r
