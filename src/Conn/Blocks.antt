-- ===== src/Conn/Blocks.antt =====
-- `nvm_vblk_test` of ocssd_server.h, and `ocssd_conn::initialize_vssd_blocks`: the virtual blocks that
-- the server keeps for a remote client.
pub mod Picks
pub mod Served
use light_nvm.Base.{
  inc_int, ℕ, zero, suc, ◌+◌, ◌/◌, ◌^◌, List, [], ◌∷◌, ◌++◌, Option, none, some, ltb, not,
  if◌then◌else◌,
}
use light_nvm.Base.Int.{ℤ, pos, is_negative, is_zero}
use light_nvm.Base.Partial.{◌>>=◌}
use light_nvm.Wire.Cursor.{u32}
use light_nvm.Vssd.Channel.{VirtualChannel}
use light_nvm.Vssd.Member.{VirtualUnit, NvmGeo}
use light_nvm.Vssd.Member
use light_nvm.Conn.Nvm.{Nvm}
use light_nvm.Conn.Addresses.{NvmAddr, next_addrs}

-- `size_t req_size = 262144;`
abbrev pub req_size : ℕ
req_size = 262144

-- The rounds of `for (int i = 0; i < count; i++)`, where `count` is a `size_t` that is converted to
-- `int`: none if that is negative.
abbrev pub rounds : ℕ → ℕ
rounds n = if ltb (u32 n) (2 ^ 31) then u32 n else 0

module _ (nvm : Nvm) where
  open nvm use {
    Device, Vblk, vblk_alloc, vblk_free, vblk_get_nbytes, vblk_erase, vblk_write, vblk_read,
    buf_alloc,
  }

  -- A loop that makes one request a round, and leaves the function if `ret` is negative.
  unfoldable pub request_loop : (Device → ℤ × Device) → ℕ → ℤ → Device → ℤ × Device
  request_loop request zero ret d = (ret, d)
  request_loop request (suc n) ret d =
      let (ret', d') = request d in
      let rest = request_loop request n ret' d' in if is_negative ret' then (ret', d') else rest

  unfoldable pub nvm_vblk_test : Vblk → Device → ℤ × Device
  unfolding request_loop
  nvm_vblk_test blk d =
      let count = rounds (vblk_get_nbytes blk / req_size) in
      let buf = buf_alloc req_size in
      let (erased, d1) = vblk_erase blk d in
      let (written, d2) = request_loop (vblk_write blk buf) count erased d1 in
      let (was_read, d3) = request_loop (vblk_read blk req_size) count written d2 in
      if not (is_zero erased)
      then (erased, d1)
      else if is_negative written
      then (written, d2)
      else if is_negative was_read
      then (was_read, d3)
      else (pos 0, d3)

  -- The members of the connection that `initialize_vssd_blocks` works on, and its variables.
  pub record Blocks : Type 0 where
    pub dev : Device
    pub curr_blocks : List ℕ
    pub blks_array : List Vblk
    pub blk_size : ℕ
    pub count : ℕ

  -- The branch for a test that did not fail; `count` is an `int`.
  unfoldable pub keep_block : Vblk → Device → Blocks → Option Blocks
  unfolding inc_int
  keep_block blk d b = do
    count ← inc_int b.count
    some (record b {
      dev = d;
      blks_array = b.blks_array ++ blk ∷ [];
      blk_size = vblk_get_nbytes blk;
      count = count;
    })

  -- The body of the loop behind the test for an empty `addrs`. `nvm_vblk_test` is called before the
  -- test for NULL and hands the pointer on to `nvm_vblk_get_nbytes`: undefined behaviour.
  unfoldable pub add_block : List NvmAddr → Blocks → Option Blocks
  unfolding nvm_vblk_test keep_block
  add_block addrs b = do
    let (allocated, d) = vblk_alloc addrs b.dev
    blk ← allocated
    let (ret, d') = nvm_vblk_test blk d
    if is_negative ret then some (record b { dev = vblk_free blk d' }) else keep_block blk d' b

  -- `while (true)`, with fuel; `none` is also that the fuel ran out.
  unfoldable pub init_loop : ℕ → NvmGeo → List VirtualChannel → Blocks → Option Blocks
  unfolding add_block
  init_loop zero geo channels b = none
  init_loop (suc fuel) geo channels b = do
    (addrs, curr_blocks) ← next_addrs geo channels b.curr_blocks
    let b' = record b { curr_blocks = curr_blocks }
    elim addrs [ [] ↦ some b' | a ∷ more ↦ add_block (a ∷ more) b' >>= init_loop fuel geo channels ]

  unfoldable pub initialize_vssd_blocks : ℕ → NvmGeo → VirtualUnit → Blocks → Option Blocks
  unfolding init_loop Member.generate_units
  initialize_vssd_blocks fuel geo vunit b =
      init_loop fuel geo vunit.channels
        (record b { curr_blocks = Member.generate_units vunit []; count = 0 })
