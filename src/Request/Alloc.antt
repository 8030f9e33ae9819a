-- ===== src/Request/Alloc.antt =====
-- `ocssd_alloc_request` of ocssd_server.h: a request for channels of the open-channel SSDs.
pub mod RoundTrip
use light_nvm.Base.{ℕ, ◌+◌, ◌-◌, ◌^◌, List, [], Option, none, some, ◌==◌, if◌then◌else◌, not}
use light_nvm.Wire.Cursor.{
  M, at, pure, ◌>>=◌, ◌>>◌, u32, u64, serialize_data4, deserialize_data4, sized,
}
use light_nvm.Request.{request_magic, Parsed, parsed, threw}
use mathlib.Core.Option

pub record AllocRequest : Type 0 where
  pub num_channels : ℕ
  pub num_blocks : ℕ
  pub shared : ℕ
  pub numa_id : ℕ
  pub remote : ℕ

-- The constructor for shared channels; every member is a `uint32_t`.
unfoldable pub make : ℕ → ℕ → ℕ → ℕ → ℕ → AllocRequest
make num_channels num_blocks shared numa_id remote = record {
  num_channels = u32 num_channels;
  num_blocks = u32 num_blocks;
  shared = u32 shared;
  numa_id = u32 numa_id;
  remote = u32 remote;
}

-- The constructor for exclusive channels.
unfoldable pub make_exclusive : ℕ → ℕ → ℕ → AllocRequest
make_exclusive num_channels numa_id remote = record {
  num_channels = u32 num_channels;
  num_blocks = 0;
  shared = 0;
  numa_id = u32 numa_id;
  remote = u32 remote;
}

-- What the parsing constructor reads behind the magic.
unfoldable pub parse_fields : M (Parsed AllocRequest)
parse_fields = do
  num_channels ← deserialize_data4
  num_blocks ← deserialize_data4
  shared ← deserialize_data4
  numa_id ← deserialize_data4
  remote ← deserialize_data4
  pure (
      parsed (record {
        num_channels = num_channels;
        num_blocks = num_blocks;
        shared = shared;
        numa_id = numa_id;
        remote = remote;
      }))

unfoldable pub parse : M (Parsed AllocRequest)
parse = do
  magic ← deserialize_data4
  if not (magic == request_magic) then pure threw else parse_fields

-- The constructor from a message buffer; `none` is a read behind its end.
unfoldable pub of_buffer : List ℕ → Option (Parsed AllocRequest)
of_buffer buffer = Option.map (λ r. r.0) (parse (at [] buffer))

unfoldable pub serialize_fields : AllocRequest → M (Unit {0})
serialize_fields r = do
  serialize_data4 r.num_channels
  serialize_data4 r.num_blocks
  serialize_data4 r.shared
  serialize_data4 r.numa_id
  serialize_data4 r.remote

unfoldable pub serialize : AllocRequest → M ℕ
unfolding serialize_fields
serialize r = sized (do serialize_data4 request_magic; serialize_fields r)

-- `num_channels_ -= channels`, in `uint32_t`; the argument is a `size_t`.
unfoldable pub dec_channels : AllocRequest → ℕ → AllocRequest
dec_channels r channels = record r { num_channels = u32 (r.num_channels + 2 ^ 32 - u32 channels) }
