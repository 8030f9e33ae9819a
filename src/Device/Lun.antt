-- ===== src/Device/Lun.antt =====
-- `ocssd_lun`: a LUN hands out its blocks from the first to the last.
pub mod Alloc
use light_nvm.Base.{ℕ, min, ◌||◌, ◌==◌, if◌then◌else◌, add64, sub64}

pub record OcssdLun : Type 0 where
  pub lun_id : ℕ
  pub num_used : ℕ
  pub num_blocks : ℕ

unfoldable pub make : ℕ → ℕ → OcssdLun
make lun_id num_blocks = record { lun_id = lun_id; num_used = 0; num_blocks = num_blocks }

-- The LUN afterwards, `block_unit` afterwards and the number of blocks that is returned.
unfoldable pub alloc_blocks : OcssdLun → ℕ × ℕ → ℕ → OcssdLun × (ℕ × ℕ) × ℕ
alloc_blocks l block_unit request_blocks =
    if l.num_used == l.num_blocks || request_blocks == 0
    then (l, block_unit, 0)
    else let allocated = min request_blocks (sub64 l.num_blocks l.num_used) in
      (record l { num_used = add64 l.num_used allocated }, (l.num_used, allocated), allocated)
