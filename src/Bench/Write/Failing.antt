-- ===== src/Bench/Write/Failing.antt =====
-- vblk_writetest.cc: what is documented of the writes, and how the assertion fails.
use light_nvm.Base.{
  ℕ, suc, ◌+◌, ◌/◌, ◌%◌, ◌≤◌, ◌≡◌, List, ◌++◌, map, length, Option, none, true, false, All,
}
use light_nvm.Base.Int.{ℤ, is_negative}
use light_nvm.Conn.Nvm.{Nvm}
use light_nvm.Bench.{Run}
use light_nvm.Bench.Sizes.{row, sizes, doubled}

-- What is documented of the position of a virtual block: it is set, and a write within the block that
-- succeeds moves it on by the bytes that are written. A write may fail: then it returns a negative
-- number.
pub record WriteLaws (nvm : Nvm) : Type 0 where
  pub is_set :
      (blk : nvm.Vblk) (p : ℕ) (d : nvm.Device)
      → nvm.vblk_get_pos_write blk (nvm.vblk_set_pos_write blk p d) ≡ p
  pub moves :
      (blk : nvm.Vblk) (bytes : List ℕ) (d : nvm.Device)
      → nvm.vblk_get_pos_write blk d + length bytes ≤ nvm.vblk_get_nbytes blk
      → is_negative (nvm.vblk_write blk bytes d).0 ≡ false
      → nvm.vblk_get_pos_write blk (nvm.vblk_write blk bytes d).1
        ≡ nvm.vblk_get_pos_write blk d + length bytes

module _ (nvm : Nvm) where
  open nvm use {vblk_write}

  -- One of `n` writes of these bytes, one after the other from the device `d` on, fails.
  pub data FailingWrite (blk : nvm.Vblk) (bytes : List ℕ) : ℕ → nvm.Device → Type 0 where
    now :
        (n : ℕ) (d : nvm.Device)
        → is_negative (vblk_write blk bytes d).0 ≡ true
        → FailingWrite blk bytes (suc n) d
    later :
        (n : ℕ) (d : nvm.Device)
        → FailingWrite blk bytes n (vblk_write blk bytes d).1
        → FailingWrite blk bytes (suc n) d

  -- One of the writes of the size `n` fails, which are as many as fill the virtual block, after it is
  -- erased and set to its start.
  pub record WriteFails (blk : nvm.Vblk) (n : ℕ) (r : Run nvm) : Type 0 where
    pub bytes : List ℕ
    pub len : length bytes ≡ n
    pub fails :
        FailingWrite blk bytes
          (nvm.vblk_get_nbytes blk / n)
          (nvm.vblk_set_pos_write blk 0 (nvm.vblk_erase blk r.dev).1)

  -- The assertion of the test failed: of a size `m` that divides the size of the virtual block, after the
  -- rows for those before it, a write failed.
  pub record Asserts (channels : List ℕ) (blk : nvm.Vblk) (n : ℕ) (rows : List (ℕ × ℤ))
      (o : Option (Run nvm)) : Type 0 where
    pub fails : o ≡ none
    pub count : ℕ
    pub before : Run nvm
    pub added : before.rows ≡ rows ++ map (row channels) (sizes n count)
    pub divide : All (λ m. nvm.vblk_get_nbytes blk % m ≡ 0) (sizes n (suc count))
    pub failed : WriteFails blk (doubled n count) before
