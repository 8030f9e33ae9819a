-- ===== src/Vssd/Member.antt =====
-- `virtual_ocssd_unit`: channels of one device, with the device's name and geometry.
use light_nvm.Base.{ℕ, ◌+◌, ◌*◌, ◌/◌, List, [], ◌∷◌, ◌++◌, length}
use light_nvm.Wire.Cursor.{
  M, pure, ◌>>=◌, ◌>>◌, u32, serialize_data4, serialize_data8, deserialize_data4, deserialize_data8,
  memcpy, advance, load_string, sized, counted,
}
use light_nvm.Wire.Loops.{for_each, read_many}
use light_nvm.Vssd.Channel.{VirtualChannel}
use light_nvm.Vssd.Channel

-- The members of liblightnvm's `nvm_geo` that the program uses, each a `size_t`.
pub record NvmGeo : Type 0 where
  pub nchannels : ℕ
  pub nluns : ℕ
  pub nplanes : ℕ
  pub nblocks : ℕ
  pub npages : ℕ
  pub nsectors : ℕ
  pub page_nbytes : ℕ
  pub sector_nbytes : ℕ
  pub meta_nbytes : ℕ

pub record VirtualUnit : Type 0 where
  pub dev_name : List ℕ
  pub geo : NvmGeo
  pub channels : List VirtualChannel

-- The constructor copies the geometry.
unfoldable pub make : List ℕ → NvmGeo → VirtualUnit
make dev_name geo = record { dev_name = dev_name; geo = geo; channels = [] }

unfoldable pub add : VirtualUnit → VirtualChannel → VirtualUnit
add u c = record u { channels = u.channels ++ c ∷ [] }

unfoldable pub generate_units_of : List VirtualChannel → List ℕ → List ℕ
generate_units_of [] units = units
generate_units_of (c ∷ cs) units = generate_units_of cs (Channel.generate_units c units)

unfoldable pub generate_units : VirtualUnit → List ℕ → List ℕ
unfolding generate_units_of
generate_units u units = generate_units_of u.channels units

unfoldable pub serialize_geo : NvmGeo → M ℕ
serialize_geo g = sized (do
  serialize_data8 g.nchannels
  serialize_data8 g.nluns
  serialize_data8 g.nplanes
  serialize_data8 g.nblocks
  serialize_data8 g.npages
  serialize_data8 g.nsectors
  serialize_data8 g.page_nbytes
  serialize_data8 g.sector_nbytes
  serialize_data8 g.meta_nbytes)

-- `len = (len + 3) / 4 * 4`
abbrev pub round_up4 : ℕ → ℕ
round_up4 len = (len + 3) / 4 * 4

-- The same in `uint32_t`, where the sum may wrap.
abbrev pub round_up4_u32 : ℕ → ℕ
round_up4_u32 len = u32 (u32 (len + 3) / 4 * 4)

unfoldable pub serialize : VirtualUnit → M ℕ
unfolding serialize_geo for_each Channel.serialize
serialize u = sized (do
  let len = length u.dev_name + 1
  serialize_data4 len
  memcpy (u.dev_name ++ 0 ∷ [])
  advance (round_up4 len)
  _ ← serialize_geo u.geo
  serialize_data4 (length u.channels)
  for_each Channel.serialize u.channels)

unfoldable pub deserialize_geo : M (NvmGeo × ℕ)
deserialize_geo = counted (do
  nchannels ← deserialize_data8
  nluns ← deserialize_data8
  nplanes ← deserialize_data8
  nblocks ← deserialize_data8
  npages ← deserialize_data8
  nsectors ← deserialize_data8
  page_nbytes ← deserialize_data8
  sector_nbytes ← deserialize_data8
  meta_nbytes ← deserialize_data8
  pure (record {
    nchannels = nchannels;
    nluns = nluns;
    nplanes = nplanes;
    nblocks = nblocks;
    npages = npages;
    nsectors = nsectors;
    page_nbytes = page_nbytes;
    sector_nbytes = sector_nbytes;
    meta_nbytes = meta_nbytes;
  }))

-- A channel as the loop of `deserialize` makes it.
unfoldable pub new_channel : M VirtualChannel
unfolding Channel.make Channel.deserialize
new_channel = do (c, _) ← Channel.deserialize (Channel.make 0 0 0 0); pure c

-- `deserialize` sets the name and the geometry of an object and appends the channels that it reads.
unfoldable pub deserialize : VirtualUnit → M (VirtualUnit × ℕ)
unfolding deserialize_geo read_many new_channel
deserialize u = counted (do
  name_len ← deserialize_data4
  dev_name ← load_string
  advance (round_up4_u32 name_len)
  (geo, _) ← deserialize_geo
  num_channel ← deserialize_data4
  channels ← read_many num_channel new_channel
  pure (record { dev_name = dev_name; geo = geo; channels = u.channels ++ channels }))
