-- ===== src/Conn/Addresses.antt =====
-- `generate_addr` of ocssd_server.h and the loops of `ocssd_conn::initialize_vssd_blocks` that make the
-- addresses of one virtual block, which takes a block of each LUN that has one left.
pub mod Stripes
pub mod Rounds
pub mod Owned
pub mod Complete
use light_nvm.Base.{
  inc_int, ℕ, zero, suc, ◌+◌, List, [], ◌∷◌, ◌++◌, Option, none, some, get_elem?, set, ltb,
  if◌then◌else◌,
}
use light_nvm.Base.Partial.{◌>>=◌}
use light_nvm.Wire.Cursor.{u32}
use light_nvm.Vssd.Lun.{VirtualLun}
use light_nvm.Vssd.Channel.{VirtualChannel}
use light_nvm.Vssd.Channel
use light_nvm.Vssd.Member.{NvmGeo}

-- The members of liblightnvm's `nvm_addr` that the program sets; the others are 0. How wide these fields
-- are is up to liblightnvm: the numbers of the device that it opened are taken to fit them.
pub record NvmAddr : Type 0 where
  pub ch : ℕ
  pub lun : ℕ
  pub blk : ℕ

-- `addrs` and `curr_blocks` afterwards; `curr_blocks[i]` out of range is undefined behaviour.
unfoldable pub generate_addr : List NvmAddr → List ℕ → ℕ → ℕ → ℕ → Option (List NvmAddr × List ℕ)
generate_addr addrs curr_blocks channel_id lun_id i = do
  blk ← get_elem? curr_blocks i
  some (
    addrs ++ record { ch = channel_id; lun = lun_id; blk = blk } ∷ [],
    set curr_blocks i (u32 (blk + 1)),
  )

-- The variables of the loops.
pub record Round : Type 0 where
  pub addrs : List NvmAddr
  pub curr_blocks : List ℕ
  pub i : ℕ

-- `if (curr_blocks[i] < block_end) generate_addr(...); i++;`, where `i` is an `int`.
unfoldable pub visit_lun : ℕ → ℕ → ℕ → Round → Option Round
unfolding generate_addr inc_int
visit_lun block_end channel_id lun_id r = do
  curr ← get_elem? r.curr_blocks r.i
  (addrs, curr_blocks) ←
      (if ltb curr block_end
        then generate_addr r.addrs r.curr_blocks channel_id lun_id r.i
        else some (r.addrs, r.curr_blocks))
  i ← inc_int r.i
  some (record { addrs = addrs; curr_blocks = curr_blocks; i = i })

-- The loop over the LUNs of a channel that is shared.
unfoldable pub visit_shared : ℕ → List VirtualLun → Round → Option Round
visit_shared channel_id [] r = some r
visit_shared channel_id (l ∷ ls) r = do
  r' ← visit_lun (u32 (l.block_start + l.num_blocks)) channel_id l.lun_id r
  visit_shared channel_id ls r'

-- `for (lun_id = 0; lun_id < num_luns; lun_id++)`, `n` rounds from `lun_id` on.
unfoldable pub visit_whole : ℕ → ℕ → ℕ → ℕ → Round → Option Round
visit_whole nblocks channel_id zero lun_id r = some r
visit_whole nblocks channel_id (suc n) lun_id r = do
  r' ← visit_lun (u32 nblocks) channel_id lun_id r
  visit_whole nblocks channel_id n (lun_id + 1) r'

unfoldable pub visit_channels : NvmGeo → List VirtualChannel → Round → Option Round
unfolding Channel.is_shared
visit_channels geo [] r = some r
visit_channels geo (c ∷ cs) r = do
  r' ←
      (if Channel.is_shared c
        then visit_shared c.channel_id c.luns r
        else visit_whole geo.nblocks c.channel_id c.num_luns 0 r)
  visit_channels geo cs r'

-- The addresses of the next virtual block, and `curr_blocks` afterwards.
unfoldable pub next_addrs : NvmGeo → List VirtualChannel → List ℕ → Option (List NvmAddr × List ℕ)
next_addrs geo cs curr_blocks = do
  r ← visit_channels geo cs (record { addrs = []; curr_blocks = curr_blocks; i = 0 })
  some (r.addrs, r.curr_blocks)
