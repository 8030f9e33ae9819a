-- ===== src/Tests/Bench.antt =====
-- A device with small virtual blocks: the position of the one that is used is what the device keeps.
use light_nvm.Base.{
  ℕ, ◌+◌, ◌≡◌, ◌<◌, ◌*◌, refl, arith, List, [], ◌∷◌, Option, some, length, replicate,
}
use light_nvm.Base.Int.{pos}
use light_nvm.Vssd.Member.{NvmGeo}
use light_nvm.Conn.Nvm.{Nvm}
use light_nvm.Conn.Addresses.{NvmAddr}
use light_nvm.Bench.{Run, units}
use light_nvm.Bench.Outcomes.{Tests}
use light_nvm.Bench.Choice.{dev1}
use light_nvm.Bench.Write
use light_nvm.Bench.Read
use light_nvm.Bench.Read.Rows.{read_test-Tests}
use light_nvm.Bench.Single
use light_nvm.Bench.Single.Address.{address-number}
use light_nvm.Tests.Virtual
use light_nvm.Wire.Cursor.{cut}

-- Six channels of two LUNs, with requests of 16 bytes.
abbrev geo : NvmGeo
geo = record (Virtual.geo) { nplanes = 1; nsectors = 1; sector_nbytes = 16 }

abbrev nvm : Nvm
nvm = record {
  Device = ℕ;
  Vblk = List NvmAddr;
  dev_open = λ path d. some (geo, d);
  dev_close = λ d. d;
  vblk_alloc = λ addrs d. (some addrs, d);
  vblk_free = λ blk d. d;
  vblk_get_nbytes = λ blk. 96;
  vblk_erase = λ blk d. (pos 0, d);
  vblk_write = λ blk buf d. (pos (length buf), d + length buf);
  vblk_read = λ blk n d. (pos n, d + n);
  vblk_pread = λ blk n offset d. (pos n, replicate n 0, d);
  vblk_pwrite = λ blk buf offset d. (pos (length buf), d);
  vblk_set_pos_read = λ blk p d. p;
  vblk_set_pos_write = λ blk p d. p;
  vblk_get_pos_write = λ blk d. d;
  buf_alloc = λ n. [];
}

abbrev buf_alloc : ℕ → Option (List ℕ)
buf_alloc n = some (replicate n 205)

abbrev start : Run nvm
start = record { dev = 7; rows = [] }

abbrev channels : List ℕ
channels = 0 ∷ 1 ∷ []

abbrev path : List ℕ
path = dev1

read_test-Tests_example :
    Tests nvm channels 16 96 start (Read.test_vblk nvm buf_alloc geo channels start)
read_test-Tests_example =
    read_test-Tests nvm buf_alloc channels (units geo channels) (replicate 96 205) 16 refl refl
      (omega arith) (omega arith) (omega arith) geo start refl refl

-- Number 8 is LUN 1 of channel 2.
address-number_example :
    (a : NvmAddr) × (Single.address geo 8 ≡ some a)
    × (a.ch < 6)
    × (a.lun < 2)
    × (6 * a.lun + a.ch ≡ 8)
address-number_example = address-number geo 8 (omega arith) (omega arith) (omega arith)

-- Of 96 bytes, requests of 16 and 32 bytes are tried; 64 does not divide 96.
two_sizes :
    Write.test_vblk nvm buf_alloc geo channels start
    ≡ some (record { dev = 96; rows = (2, pos 16) ∷ (2, pos 32) ∷ [] })
unfolding Write.test_vblk cut
two_sizes = refl
