-- ===== src/Vssd/Lun.antt =====
-- `virtual_ocssd_lun`: a run of blocks in one LUN.
use light_nvm.Base.{ℕ}
use light_nvm.Wire.Cursor.{M, pure, ◌>>=◌, ◌>>◌, u32, serialize_data4, deserialize_data4, sized}

pub record VirtualLun : Type 0 where
  pub lun_id : ℕ
  pub block_start : ℕ
  pub num_blocks : ℕ

-- The constructor from `uint32_t` arguments.
unfoldable pub make : ℕ → ℕ → ℕ → VirtualLun
make lun_id block_start num_blocks = record {
  lun_id = u32 lun_id;
  block_start = u32 block_start;
  num_blocks = u32 num_blocks;
}

unfoldable pub serialize : VirtualLun → M ℕ
serialize l =
    sized (do serialize_data4 l.lun_id; serialize_data4 l.block_start; serialize_data4 l.num_blocks)

-- The constructor that reads a buffer.
unfoldable pub of_buffer : M VirtualLun
of_buffer = do
  lun_id ← deserialize_data4
  block_start ← deserialize_data4
  num_blocks ← deserialize_data4
  pure (record { lun_id = lun_id; block_start = block_start; num_blocks = num_blocks })
