-- ===== src/Conn/Nvm.antt =====
-- What the programs call of liblightnvm for virtual blocks: an argument of the definitions that use it.
use light_nvm.Base.{ℕ, ◌≡◌, List, Option, some}
use light_nvm.Base.Int.{ℤ}
use light_nvm.Vssd.Member.{NvmGeo}
use light_nvm.Conn.Addresses.{NvmAddr}

-- `Device` is what liblightnvm works on: the devices with what is stored on them, and which of them
-- `dev_` is; `Vblk` is a `struct nvm_vblk`. Each call may change the devices and returns its `ssize_t`;
-- `dev_open` may fail, and gives the geometry of the device; `vblk_alloc` may return NULL. `vblk_pread`
-- also gives the bytes of the buffer that it was handed. The position of a virtual block, which a write
-- or a read starts at and moves on, is part of the devices.
pub record Nvm : Type 1 where
  pub Device : Type 0
  pub Vblk : Type 0
  pub dev_open : List ℕ → Device → Option (NvmGeo × Device)
  pub dev_close : Device → Device
  pub vblk_alloc : List NvmAddr → Device → Option Vblk × Device
  pub vblk_free : Vblk → Device → Device
  pub vblk_get_nbytes : Vblk → ℕ
  pub vblk_erase : Vblk → Device → ℤ × Device
  pub vblk_write : Vblk → List ℕ → Device → ℤ × Device
  pub vblk_read : Vblk → ℕ → Device → ℤ × Device
  pub vblk_pread : Vblk → ℕ → ℕ → Device → ℤ × List ℕ × Device
  pub vblk_pwrite : Vblk → List ℕ → ℕ → Device → ℤ × Device
  pub vblk_set_pos_read : Vblk → ℕ → Device → Device
  pub vblk_set_pos_write : Vblk → ℕ → Device → Device
  pub vblk_get_pos_write : Vblk → Device → ℕ
  pub buf_alloc : ℕ → List ℕ

-- What is documented of `nvm_vblk_alloc`: the virtual block that it returns is made of the addresses
-- that it was handed.
pub record AllocLaw (nvm : Nvm) : Type 0 where
  pub addrs_of : nvm.Vblk → List NvmAddr
  pub made_of :
      (addrs : List NvmAddr) (d : nvm.Device) (blk : nvm.Vblk)
      → (nvm.vblk_alloc addrs d).0 ≡ some blk
      → addrs_of blk ≡ addrs
