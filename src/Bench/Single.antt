-- ===== src/Bench/Single.antt =====
-- vblk_write.cc and vblk_read.cc: the first virtual block of one LUN is written or read.
pub mod Address
use light_nvm.Base.{
  ℕ, zero, suc, ◌+◌, ◌-◌, ◌*◌, ◌/◌, ◌%◌, ◌^◌, List, Bool, true, [], ◌∷◌, ◌++◌, Option, none, some,
  leb, ltb, get_elem?, length, if◌then◌else◌, ◌==◌,
}
use light_nvm.Base.Int.{ℤ, pos, negsuc}
use light_nvm.Base.Partial.{◌>>=◌}
use light_nvm.Wire.Cursor.{cut}
use light_nvm.Vssd.Member.{NvmGeo}
use light_nvm.Conn.Addresses.{NvmAddr}
use light_nvm.Conn.Nvm.{Nvm}
use light_nvm.Bench.{to_size}

-- `size`
abbrev pub request_size : ℕ
request_size = 4096 * 16

-- `addr`; a remainder by zero is undefined behaviour.
unfoldable pub address : NvmGeo → ℕ → Option NvmAddr
address geo channel =
    if geo.nchannels == 0
    then none
    else if geo.nluns == 0
    then none
    else some (record {
      ch = channel % geo.nchannels;
      lun = (channel / geo.nchannels) % geo.nluns;
      blk = 0;
    })

-- An `int` as a `char` keeps its low 8 bits.
abbrev pub low_byte : ℤ → ℕ
low_byte (pos n) = n % 256
low_byte (negsuc n) = 255 - n % 256

-- `i % 26 + 65 + offset` for the `n` positions from `i` on.
unfoldable pub pattern_from : ℤ → ℕ → ℕ → List ℕ
pattern_from offset i zero = []
pattern_from offset i (suc n) =
    ((i % 26 + 65 + low_byte offset) % 256) ∷ pattern_from offset (i + 1) n

-- Whether the largest of the sums is an `int`.
abbrev pub has_room : ℤ → Bool
has_room (pos n) = ltb (n + 90) (2 ^ 31)
has_room (negsuc n) = true

-- The buffer after the loop that fills it: undefined behaviour where it is too short, or a sum overflows.
unfoldable pub fill : ℤ → List ℕ → Option (List ℕ)
unfolding pattern_from
fill offset buf = do
  (_, rest) ← cut request_size buf
  if has_room offset then some (pattern_from offset 0 request_size ++ rest) else none

module _ (nvm : Nvm) (buf_alloc : ℕ → Option (List ℕ)) where
  open nvm use {
    Device, Vblk, dev_open, dev_close, vblk_alloc, vblk_free, vblk_erase, vblk_write, vblk_pwrite,
    vblk_pread,
  }

  -- `blks`: a virtual block of one address for each block of the LUN, of which `n` are left; NULL is `none`.
  unfoldable pub alloc_all : NvmAddr → ℕ → ℕ → Device → List (Option Vblk) × Device
  alloc_all addr blk_idx zero d = ([], d)
  alloc_all addr blk_idx (suc n) d =
      let (blk, d1) = vblk_alloc (record addr { blk = blk_idx } ∷ []) d in
      let (blks, d2) = alloc_all addr (blk_idx + 1) n d1 in (blk ∷ blks, d2)

  -- The loop that frees them. What liblightnvm does with NULL is not known: `none`.
  unfoldable pub free_all : List (Option Vblk) → Device → Option Device
  free_all [] d = some d
  free_all (none ∷ blks) d = none
  free_all (some blk ∷ blks) d = free_all blks (vblk_free blk d)

  -- `blks[0].second`, which is used: undefined behaviour where there is none, or where it is NULL.
  unfoldable pub first_of : List (Option Vblk) → Option Vblk
  first_of blks = get_elem? blks 0 >>= λ blk. blk

  -- `test_vblk` of vblk_write.cc.
  unfoldable pub test_vblk : NvmGeo → ℕ → ℤ → Device → Option Device
  unfolding address fill alloc_all free_all first_of
  test_vblk geo channel offset d = do
    addr ← address geo channel
    let (blks, d1) = alloc_all addr 0 geo.nblocks d
    blk ← first_of blks
    let d2 = (vblk_erase blk d1).1
    elim (buf_alloc request_size) [
      | none ↦ free_all blks d2
      | some buf ↦ do
        buf' ← fill offset buf
        (bytes, _) ← cut request_size buf'
        let d3 = (vblk_write blk bytes d2).1
        let d4 = (vblk_pwrite blk bytes request_size d3).1
        free_all blks d4
    ]

  -- The loop of `main` of vblk_write.cc over the channels, of which `n` are left.
  unfoldable pub write_channels : NvmGeo → ℕ → ℕ → Device → Option Device
  unfolding test_vblk
  write_channels geo channel zero d = some d
  write_channels geo channel (suc n) d =
      test_vblk geo channel (pos 0) d >>= write_channels geo (channel + 1) n

  -- `main` of vblk_write.cc: the exit status, and the devices afterwards.
  unfoldable pub write_main : ℕ → List ℕ → Device → Option (ℤ × Device)
  unfolding write_channels
  write_main argc path d = if ltb argc 2 then some (pos 1, d) else elim (dev_open path d) [
    | none ↦ some (pos 1, d)
    | some (geo, d1) ↦ do d2 ← write_channels geo 0 geo.nchannels d1; some (pos 0, dev_close d2)
  ]

  -- `main` of vblk_read.cc from `nvm_dev_get_geo` on; `channel` and `offset` are the numbers in the
  -- arguments.
  unfoldable pub read_blocks : NvmGeo → ℤ → ℤ → Device → Option Device
  unfolding address fill alloc_all free_all first_of
  read_blocks geo channel offset d = do
    addr ← address geo (to_size channel)
    let (blks, d1) = alloc_all addr 0 geo.nblocks d
    blk ← first_of blks
    elim (buf_alloc request_size) [
      | none ↦ free_all blks d1
      | some buf ↦ do
        _ ← fill offset buf
        let (_, _, d2) = vblk_pread blk request_size 0 d1
        let (_, _, d3) = vblk_pread blk request_size request_size d2
        free_all blks d3
    ]

  -- `main` of vblk_read.cc, which opens nvme0n1 (`path`) before it looks at its arguments.
  unfoldable pub read_main : ℕ → List ℕ → ℤ → ℤ → Device → Option (ℤ × Device)
  unfolding read_blocks
  read_main argc path channel offset d = elim (dev_open path d) [
    | none ↦ some (pos 1, d)
    | some (geo, d1) ↦
        if ltb argc 3
        then some (pos 1, d1)
        else (read_blocks geo channel offset d1 >>= λ d2. some (pos 0, dev_close d2))
  ]
