-- ===== src/Device/Channel.antt =====
-- `ocssd_channel`: a channel is granted whole, or its blocks are spread over its LUNs.
pub mod Spreads
pub mod Ledger
pub mod Valid
pub mod Virtual
use light_nvm.Base.{
  ℕ, zero, suc, ◌+◌, List, [], ◌∷◌, ◌++◌, Option, some, none, Bool, ◌||◌, not, ◌==◌, ltb, leb,
  if◌then◌else◌, add64, sub64, mul64, div64,
}
use light_nvm.Base.Partial.{◌>>=◌}
use light_nvm.Device.Lun.{OcssdLun}
use light_nvm.Device.Lun
use light_nvm.Vssd.Channel.{AllocUnit}

pub record OcssdChannel : Type 0 where
  pub channel_id : ℕ
  pub num_luns : ℕ
  pub num_blocks : ℕ
  pub num_used_blocks : ℕ
  pub num_total_blocks : ℕ
  pub shared : ℕ
  pub used : ℕ
  pub luns : List OcssdLun

-- `for (lun_id = 0; lun_id < num_luns; lun_id++)`: `n` rounds from `lun_id` on.
unfoldable pub make_luns : ℕ → ℕ → ℕ → List OcssdLun
unfolding Lun.make
make_luns zero lun_id num_blocks = []
make_luns (suc n) lun_id num_blocks =
    Lun.make lun_id num_blocks ∷ make_luns n (lun_id + 1) num_blocks

unfoldable pub make : ℕ → ℕ → ℕ → OcssdChannel
unfolding make_luns
make channel_id num_luns num_blocks = record {
  channel_id = channel_id;
  num_luns = num_luns;
  num_blocks = num_blocks;
  num_used_blocks = 0;
  num_total_blocks = mul64 num_blocks num_luns;
  shared = 0;
  used = 0;
  luns = make_luns num_luns 0 num_blocks;
}

unfoldable pub set_shared : OcssdChannel → OcssdChannel
set_shared c = record c { shared = 1 }

unfoldable pub set_used : OcssdChannel → OcssdChannel
set_used c = record c { used = 1 }

unfoldable pub get_free_blocks : OcssdChannel → ℕ
get_free_blocks c = if not (c.used == 0) then 0 else sub64 c.num_total_blocks c.num_used_blocks

-- What the loop over the LUNs leaves: the LUNs, `alloc_units` and `allocated`.
pub record Spread : Type 0 where
  pub luns : List OcssdLun
  pub units : List AllocUnit
  pub allocated : ℕ

abbrev pub keep_lun : OcssdLun → Spread → Spread
keep_lun l s = record s { luns = l ∷ s.luns }

-- The loop, with its variables `alloc_units`, `request_blocks` and `allocated`.
unfoldable pub alloc_luns : ℕ → ℕ → List OcssdLun → List AllocUnit → ℕ → ℕ → Spread
alloc_luns num_blocks per_lun [] units request allocated = record {
  luns = [];
  units = units;
  allocated = allocated;
}
alloc_luns num_blocks per_lun (l ∷ ls) units request allocated =
    let skipped = keep_lun l (alloc_luns num_blocks per_lun ls units request allocated) in
    let (l', block_units, ret) = Lun.alloc_blocks l (0, 0) per_lun in
    let units' = units ++ (l.lun_id, block_units) ∷ [] in
    let request' = sub64 request ret in
    let allocated' = add64 allocated ret in
    let stopped : Spread = record { luns = l' ∷ ls; units = units'; allocated = allocated' } in
    let continued = keep_lun l' (alloc_luns num_blocks per_lun ls units' request' allocated') in
    if leb num_blocks l.num_used then skipped else if request' == 0 then stopped else continued

-- The channel and `alloc_units` afterwards, and the number of blocks that is returned.
unfoldable pub alloc_blocks :
    OcssdChannel → List AllocUnit → ℕ → Option (OcssdChannel × List AllocUnit × ℕ)
unfolding div64
alloc_blocks c alloc_units request_blocks =
    if c.num_used_blocks == c.num_total_blocks || request_blocks == 0
    then some (c, alloc_units, 0)
    else (do
      request_per_lun ← div64 request_blocks c.num_luns
      let s = alloc_luns c.num_blocks request_per_lun c.luns alloc_units request_blocks 0
      some (
        record c { luns = s.luns; num_used_blocks = add64 c.num_used_blocks s.allocated },
        s.units,
        s.allocated,
      ))
