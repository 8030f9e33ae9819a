-- ===== src/Bench/Outcomes.antt =====
-- How the test of a virtual block ends, and what it needs of the device.
use light_nvm.Base.{ℕ, ◌^◌, ◌%◌, ◌<◌, ◌≡◌, ◌≢◌, List, ◌++◌, map, length, All, Option, some}
use light_nvm.Vssd.Member.{NvmGeo}
use light_nvm.Conn.Nvm.{Nvm}
use light_nvm.Bench.{units, Run}
use light_nvm.Bench.Sizes.{row, doubled, sizes}

-- The test of a virtual block of `end` bytes ends, and has added a row for each of the sizes from `n` on that
-- divide `end`, up to the first that does not.
abbrev pub Tests : (nvm : Nvm) → List ℕ → ℕ → ℕ → Run nvm → Option (Run nvm) → Type 0
Tests nvm channels n end r o =
    (r' : Run nvm) × (k : ℕ) × (o ≡ some r')
    × (r'.rows ≡ r.rows ++ map (row channels) (sizes n k))
    × All (λ m. end % m ≡ 0) (sizes n k)
    × (end % doubled n k ≢ 0)

-- What a device gives for the LUNs of any channels: a virtual block of a size that fits, and a buffer of
-- the size that is asked for.
pub record Gives (nvm : Nvm) (buf_alloc : ℕ → Option (List ℕ)) : Type 0 where
  pub made :
      (geo : NvmGeo) (channels : List ℕ) (d : nvm.Device)
      → (blk : nvm.Vblk) × ((nvm.vblk_alloc (units geo channels) d).0 ≡ some blk)
  pub some_bytes : (blk : nvm.Vblk) → 0 < nvm.vblk_get_nbytes blk
  pub small : (blk : nvm.Vblk) → nvm.vblk_get_nbytes blk < 2 ^ 30
  pub given : (n : ℕ) → (buf : List ℕ) × (buf_alloc n ≡ some buf) × (length buf ≡ n)
