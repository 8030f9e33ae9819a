-- ===== src/Request/Alloc/RoundTrip.antt =====
-- What `serialize` of an allocation request stores, the parsing constructor takes back.
use light_nvm.Base.{ℕ, ◌^◌, ◌<◌, ◌≤◌, ◌≡◌, arith, subst, List, [], ◌++◌, length, some}
use light_nvm.Wire.Cursor.{at, u32}
use light_nvm.Wire.Codec.{Codes, Codes-bind, Codes-map, Codes-sized, Codes-buffer}
use light_nvm.Wire.Fields.{Codes-data4}
use light_nvm.Request.{request_magic, parsed}
use light_nvm.Request.Alloc.{
  AllocRequest, make, dec_channels, parse_fields, parse, of_buffer, serialize_fields, serialize,
}

-- Each member fits its `uint32_t`.
pub record InRange (r : AllocRequest) : Type 0 where
  pub channels : r.num_channels < 2 ^ 32
  pub blocks : r.num_blocks < 2 ^ 32
  pub shared : r.shared < 2 ^ 32
  pub numa : r.numa_id < 2 ^ 32
  pub remote : r.remote < 2 ^ 32

abbrev narrowed : AllocRequest → AllocRequest
narrowed r = record {
  num_channels = u32 r.num_channels;
  num_blocks = u32 r.num_blocks;
  shared = u32 r.shared;
  numa_id = u32 r.numa_id;
  remote = u32 r.remote;
}

narrowed_lem : (r : AllocRequest) → InRange r → narrowed r ≡ r
narrowed_lem r v = ground arith

Codes-fields :
    (r : AllocRequest) → Codes (serialize_fields r) tt parse_fields (parsed (narrowed r)) 20
unfolding serialize_fields parse_fields
Codes-fields r = Codes-bind _ _ (Codes-data4 r.num_channels) (
    Codes-bind _ _ (Codes-data4 r.num_blocks) (
      Codes-bind _ _ (Codes-data4 r.shared)
        (Codes-bind _ _ (Codes-data4 r.numa_id) (Codes-map _ (Codes-data4 r.remote)))))

pub Codes-alloc : (r : AllocRequest) → InRange r → Codes (serialize r) 24 parse (parsed r) 24
unfolding serialize parse
Codes-alloc r v =
    subst (λ s. Codes (serialize r) 24 parse (parsed s) 24) (narrowed_lem r v)
      (Codes-sized (Codes-bind _ _ (Codes-data4 request_magic) (Codes-fields r)))

-- A request whose members fit their types, serialized into a buffer of at least 24 bytes, takes 24
-- bytes, and the constructor that parses the buffer gives the same request.
pub alloc_round_trip :
    (r : AllocRequest) (buffer : List ℕ)
    → InRange r
    → 24 ≤ length buffer
    → (out : List ℕ) × (rest : List ℕ) × (length out ≡ 24)
      × (serialize r (at [] buffer) ≡ some (24, at out rest))
      × (of_buffer (out ++ rest) ≡ some (parsed r))
unfolding of_buffer
alloc_round_trip r buffer v h =
    let (out, rest, l, w, p) = Codes-buffer (Codes-alloc r v) buffer h in (out, rest, l, w, rw p)

-- Whatever the constructor for shared channels is given, the object's members are in range.
pub make-InRange : (a b c d e : ℕ) → InRange (make a b c d e)
unfolding make
make-InRange a b c d e = omega arith

-- The members stay in range.
pub dec_channels-InRange : (r : AllocRequest) (n : ℕ) → InRange r → InRange (dec_channels r n)
unfolding dec_channels
dec_channels-InRange r n v = omega arith
