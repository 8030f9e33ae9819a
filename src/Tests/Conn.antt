-- ===== src/Tests/Conn.antt =====
-- The virtual blocks of a virtual unit with a shared and a whole channel, on a device where the erasure
-- of one block fails.
use light_nvm.Base.{
  length, suc, ℕ, ◌+◌, ◌*◌, ◌≡◌, inl, inr, refl, arith, List, [], ◌∷◌, All, some, ◌==◌,
  if◌then◌else◌, replicate,
}
use light_nvm.Base.Int.{ℤ, pos, negsuc}
use light_nvm.Vssd.Member.{VirtualUnit}
use light_nvm.Vssd.Channel.{VirtualChannel}
use light_nvm.Device.Drive.Moves.{OwnedAt}
use light_nvm.Conn.Nvm.{Nvm, AllocLaw}
use light_nvm.Device.Channel.Virtual.{IsGranted}
use light_nvm.Conn.Addresses.{NvmAddr, next_addrs}
use light_nvm.Conn.Addresses.Stripes.{runs, stripe, positions}
use light_nvm.Conn.Addresses.Rounds.{next_addrs-stripe}
use light_nvm.Conn.Addresses.Complete.{Addressed, next_addrs-Addressed}
use light_nvm.Conn.Blocks.{Blocks, initialize_vssd_blocks}
use light_nvm.Conn.Blocks.Picks.{Kept, initialize_vssd_blocks-Kept}
use light_nvm.Tests.Virtual.{geo, name, shared_channel, whole_channel}

abbrev channels : List VirtualChannel
channels = shared_channel ∷ whole_channel ∷ []

abbrev vunit : VirtualUnit
vunit = record { dev_name = name; geo = geo; channels = channels }

-- A virtual block is the list of its addresses; the device counts the requests. A virtual block whose
-- first address has block 1 cannot be erased.
abbrev erased : List NvmAddr → ℤ
erased [] = pos 0
erased (a ∷ blk) = if a.blk == 1 then negsuc 4 else pos 0

abbrev pub nvm : Nvm
nvm = record {
  Device = ℕ;
  Vblk = List NvmAddr;
  dev_open = λ path d. some (geo, d);
  dev_close = λ d. d;
  vblk_alloc = λ addrs d. (some addrs, d);
  vblk_free = λ blk d. d;
  vblk_get_nbytes = λ blk. 2 * 262144;
  vblk_erase = λ blk d. (erased blk, d + 1);
  vblk_write = λ blk buf d. (pos 262144, d + 1);
  vblk_read = λ blk n d. (pos n, d + 1);
  vblk_pread = λ blk n offset d. (pos n, replicate n 0, d + 1);
  vblk_pwrite = λ blk buf offset d. (pos (length buf), d + 1);
  vblk_set_pos_read = λ blk p d. d;
  vblk_set_pos_write = λ blk p d. d;
  vblk_get_pos_write = λ blk d. 0;
  buf_alloc = λ n. [];
}

abbrev pub law : AllocLaw nvm
law = record { addrs_of = λ blk. blk; made_of = λ addrs d blk e. cc e }

channels-IsGranted : All IsGranted channels
channels-IsGranted = (
  record { flag = omega arith; count = λ e. refl; runs_fit = (omega arith, (omega arith, tt)) },
  (record { flag = omega arith; count = λ e. absurd (omega arith); runs_fit = tt }, tt),
)

next_addrs-stripe_example :
    next_addrs geo channels (positions 1 (runs geo channels))
    ≡ some (stripe 1 (runs geo channels), positions 2 (runs geo channels))
next_addrs-stripe_example =
    next_addrs-stripe geo (omega arith) 1 channels channels-IsGranted (omega arith)

-- Block 6 of LUN 1 of the shared channel 0.
next_addrs-Addressed_example :
    (k : ℕ) × (addrs : List NvmAddr) × (next_addrs geo channels (positions k (runs geo channels))
      ≡ some (addrs, positions (suc k) (runs geo channels)))
    × Addressed (record { ch = 0; lun = 1; blk = 6 }) addrs
next_addrs-Addressed_example =
    next_addrs-Addressed geo channels 0 1 6 (omega arith) channels-IsGranted (omega arith)
      (inl (refl, inl (refl, inr (inl (refl, omega arith, omega arith)))))

abbrev pub before : Blocks nvm
before = record { dev = 0; curr_blocks = []; blks_array = []; blk_size = 0; count = 0 }

initialize_vssd_blocks-Kept_example :
    (b' : Blocks nvm) × (initialize_vssd_blocks nvm 9 geo vunit before ≡ some b')
    × (kept : Kept nvm law (runs geo channels) 0 before b') × All
        (λ blk. All (λ a. OwnedAt channels a.ch a.lun a.blk) blk)
        kept.new
initialize_vssd_blocks-Kept_example =
    initialize_vssd_blocks-Kept nvm law geo (omega arith) channels channels-IsGranted (omega arith)
      (λ addrs d e. cc e) 9 vunit before refl (omega arith) (omega arith)
