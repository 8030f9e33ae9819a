-- ===== src/Vssd/Channel.antt =====
-- `virtual_ocssd_channel`: a channel that is granted whole, or runs of blocks of its LUNs.
use light_nvm.Base.{ℕ, ◌+◌, List, [], ◌∷◌, ◌++◌, map, Bool, ◌==◌, ltb, if◌then◌else◌, replicate}
use light_nvm.Wire.Cursor.{
  M, pure, ◌>>=◌, ◌>>◌, u32, serialize_data4, deserialize_data4, sized, counted,
}
use light_nvm.Wire.Loops.{for_each, read_many}
use light_nvm.Vssd.Lun.{VirtualLun}
use light_nvm.Vssd.Lun

pub record VirtualChannel : Type 0 where
  pub channel_id : ℕ
  pub shared : ℕ
  pub total_blocks : ℕ
  pub num_luns : ℕ
  pub luns : List VirtualLun

-- The constructor with default arguments, all `uint32_t`.
unfoldable pub make : ℕ → ℕ → ℕ → ℕ → VirtualChannel
make channel_id shared total_blocks num_luns = record {
  channel_id = u32 channel_id;
  shared = u32 shared;
  total_blocks = u32 total_blocks;
  num_luns = u32 num_luns;
  luns = [];
}

-- One `alloc_units` entry: the LUN, its first block and the number of blocks, all `size_t`.
abbrev pub AllocUnit : Type 0
AllocUnit = ℕ × (ℕ × ℕ)

-- The body of the loop of the constructor from `alloc_units`.
unfoldable pub add_unit : VirtualChannel → AllocUnit → VirtualChannel
unfolding Lun.make
add_unit c (lun, (start, count)) =
    let vlun = Lun.make lun start count in
    record c {
      luns = c.luns ++ vlun ∷ [];
      total_blocks = u32 (c.total_blocks + vlun.num_blocks);
      num_luns = u32 (c.num_luns + 1);
    }

unfoldable pub add_units : VirtualChannel → List AllocUnit → VirtualChannel
add_units c [] = c
add_units c (u ∷ us) = add_units (add_unit c u) us

-- The constructor from `alloc_units`.
unfoldable pub of_units : ℕ → ℕ → List AllocUnit → VirtualChannel
unfolding make add_units add_unit
of_units channel_id shared units = add_units (make channel_id shared 0 0) units

unfoldable pub is_shared : VirtualChannel → Bool
is_shared c = ltb 0 c.shared

-- The blocks that the units of the channel start at, appended to `units`.
unfoldable pub generate_units : VirtualChannel → List ℕ → List ℕ
generate_units c units =
    if c.shared == 1
    then units ++ map (λ l. l.block_start) c.luns
    else units ++ replicate c.num_luns 0

unfoldable pub serialize : VirtualChannel → M ℕ
unfolding for_each Lun.serialize
serialize c = sized (do
  serialize_data4 c.channel_id
  serialize_data4 c.shared
  serialize_data4 c.total_blocks
  serialize_data4 c.num_luns
  if c.shared == 1 then for_each Lun.serialize c.luns else pure tt)

-- `deserialize` sets the members of an object and appends the LUNs that it reads.
unfoldable pub deserialize : VirtualChannel → M (VirtualChannel × ℕ)
unfolding read_many Lun.of_buffer
deserialize c = counted (do
  channel_id ← deserialize_data4
  shared ← deserialize_data4
  total_blocks ← deserialize_data4
  num_luns ← deserialize_data4
  luns ← (if shared == 1 then read_many num_luns Lun.of_buffer else pure [])
  pure (record {
    channel_id = channel_id;
    shared = shared;
    total_blocks = total_blocks;
    num_luns = num_luns;
    luns = c.luns ++ luns;
  }))
