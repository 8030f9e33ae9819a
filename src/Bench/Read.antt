-- ===== src/Bench/Read.antt =====
-- vblk_readtest.cc: how fast virtual blocks of some channels are read, with requests of several sizes.
pub mod Rows
use light_nvm.Base.{
  is_same, ℕ, zero, suc, List, [], ◌∷◌, ◌++◌, length, replicate, Bool, Option, none, some, leb, ltb,
  ◌==◌, if◌then◌else◌,
}
use light_nvm.Base.Int.{ℤ, pos, negsuc}
use light_nvm.Base.Partial.{◌>>=◌}
use light_nvm.Wire.Cursor.{cut}
use light_nvm.Vssd.Member.{NvmGeo}
use light_nvm.Conn.Nvm.{Nvm}
use light_nvm.Bench.{to_int, to_size, size_loop, size_fuel, units, first_size, Run}
use light_nvm.Bench.Choice.{dev1, skip_loop, all_loop}

-- `buf_alloc` is `nvm_buf_alloc`, which gives a buffer or NULL.
module _ (nvm : Nvm) (buf_alloc : ℕ → Option (List ℕ)) where
  open nvm use {
    Device, Vblk, dev_open, dev_close, vblk_alloc, vblk_free, vblk_get_nbytes, vblk_read,
    vblk_set_pos_read,
  }

  -- `n` rounds of the inner loop; the result of a read is only printed.
  unfoldable pub read_loop : ℕ → Vblk → ℕ → Device → Device
  read_loop zero blk size d = d
  read_loop (suc n) blk size d = read_loop n blk size (vblk_read blk size d).1

  -- One size: the virtual block is read from its start, and a row is added to the output. A read behind the
  -- end of the buffer is `none`.
  unfoldable pub read_size : List ℕ → Vblk → ℕ → ℤ → ℕ → Run nvm → Option (Run nvm)
  unfolding read_loop
  read_size channels blk room start count r =
      if leb (to_size start) room
      then some (record {
        dev = read_loop count blk (to_size start) (vblk_set_pos_read blk 0 r.dev);
        rows = r.rows ++ (length channels, start) ∷ [];
      })
      else none

  -- The test from `nvm_buf_alloc` on.
  unfoldable pub test_sizes : List ℕ → Vblk → ℤ → ℤ → Run nvm → Option (Run nvm)
  unfolding size_loop read_size
  test_sizes channels blk end start r = elim (buf_alloc (to_size end)) [
    | none ↦ some (record r { dev = vblk_free blk r.dev })
    | some buf ↦ do
      r' ← size_loop (read_size channels blk (length buf)) size_fuel end start r
      some (record r' { dev = vblk_free blk r'.dev })
  ]

  -- `nvm_vblk_get_nbytes` of a virtual block that is NULL is undefined behaviour.
  unfoldable pub test_vblk : NvmGeo → List ℕ → Run nvm → Option (Run nvm)
  unfolding units test_sizes
  test_vblk geo channels r = do
    let (o, d) = vblk_alloc (units geo channels) r.dev
    blk ← o
    test_sizes channels blk (to_int (vblk_get_nbytes blk)) (first_size geo) (record r { dev = d })

  -- `main`, whose output file can be opened: the exit status, and what is left.
  unfoldable pub main : ℕ → List ℕ → Device → Option (ℤ × Run nvm)
  unfolding test_vblk skip_loop all_loop
  main argc path d =
      if ltb argc 3 then some (pos 1, record { dev = d; rows = [] }) else elim (dev_open path d) [
        | none ↦ some (pos 1, record { dev = d; rows = [] })
        | some (geo, d') ↦ do
          let start : Run nvm = record { dev = d'; rows = [] }
          r ←
              (if is_same path dev1
                then skip_loop (test_vblk geo) geo.nchannels 0 [] start
                else all_loop (test_vblk geo) geo.nchannels 0 [] start)
          some (pos 0, record r { dev = dev_close r.dev })
      ]
