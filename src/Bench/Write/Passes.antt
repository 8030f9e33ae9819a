-- ===== src/Bench/Write/Passes.antt =====
-- vblk_writetest.cc: the output has a row for each size, or the assertion fails after a write that failed.
use light_nvm.Base.{ℕ, ◌^◌, ◌<◌, ◌≡◌, List, ◌++◌, map, length, replicate, Option, some, ◌⊎◌}
use light_nvm.Base.Int.{ℤ, pos}
use light_nvm.Vssd.Member.{NvmGeo}
use light_nvm.Conn.Nvm.{Nvm}
use light_nvm.Bench.{units, first_size, Run}
use light_nvm.Bench.Sizes.{row}
use light_nvm.Bench.Outcomes.{Tests, Gives}
use light_nvm.Bench.Write.{write_size, test_vblk}
use light_nvm.Bench.Write.Failing.{WriteLaws, Asserts}

module _ (nvm : Nvm) (buf_alloc : ℕ → Option (List ℕ)) (laws : WriteLaws nvm) where
  open nvm use {vblk_get_pos_write, vblk_get_nbytes, vblk_alloc, vblk_write}

  -- One size.
  module _ (channels : List ℕ) (blk : nvm.Vblk) (rows : List (ℕ × ℤ)) (buf : List ℕ)
      (fits : length buf ≡ vblk_get_nbytes blk) where
    abbrev Rows : List ℕ → Run nvm → Type 0
    Rows done r = r.rows ≡ rows ++ map (row channels) done

  module _ (channels : List ℕ) (blk : nvm.Vblk) (buf : List ℕ) (n : ℕ)
      (given : buf_alloc (vblk_get_nbytes blk) ≡ some buf) (fits : length buf ≡ vblk_get_nbytes blk)
      (some_bytes : 0 < vblk_get_nbytes blk) (small : vblk_get_nbytes blk < 2 ^ 30)
      (p : 0 < n) where
    abbrev body : ℤ → ℕ → Run nvm → Option (Run nvm)
    unfolding write_size
    body =
        write_size nvm buf_alloc channels (pos (vblk_get_nbytes blk)) blk (replicate (length buf) 0)

    abbrev Ends : Run nvm → Option (Run nvm) → Type 0
    Ends r o = Tests nvm channels n (vblk_get_nbytes blk) r o ⊎ Asserts nvm channels blk n r.rows o

  module _ (gives : Gives nvm buf_alloc) (geo : NvmGeo) (n : ℕ) (first : first_size geo ≡ pos n)
      (p : 0 < n) where
    -- The assertion failed when some channels were tested.
    abbrev pub AssertsAt : List ℕ → Run nvm → Type 0
    AssertsAt channels r =
        (blk : nvm.Vblk) × ((vblk_alloc (units geo channels) r.dev).0 ≡ some blk)
        × Asserts nvm channels blk n r.rows (test_vblk nvm buf_alloc geo channels r)
