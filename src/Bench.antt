-- ===== src/Bench.antt =====
-- The programs vblk_writetest.cc, vblk_readtest.cc, vblk_write.cc and vblk_read.cc, which time the virtual
-- blocks of liblightnvm.
pub mod Sizes
pub mod Choice
pub mod Outcomes
pub mod Write
pub mod Read
pub mod Single
use light_nvm.Base.{
  ℕ, zero, suc, ◌+◌, ◌-◌, ◌*◌, ◌/◌, ◌%◌, ◌^◌, List, [], ◌∷◌, ◌++◌, Bool, true, false, Option, none,
  some, leb, ltb, ◌==◌, if◌then◌else◌, mul64,
}
use light_nvm.Base.Int.{ℤ, pos, negsuc, is_negative}
use light_nvm.Base.Partial.{◌>>=◌}
use light_nvm.Wire.Cursor.{u32}
use light_nvm.Vssd.Member.{NvmGeo}
use light_nvm.Conn.Addresses.{NvmAddr}
use light_nvm.Conn.Nvm.{Nvm}

-- `int` from a `size_t`, of which it keeps the low 32 bits.
abbrev pub to_int : ℕ → ℤ
to_int n = if ltb (u32 n) (2 ^ 31) then pos (u32 n) else negsuc (2 ^ 32 - 1 - u32 n)

-- `size_t` from an `int`.
abbrev pub to_size : ℤ → ℕ
to_size (pos n) = n
to_size (negsuc n) = 2 ^ 64 - 1 - n

abbrev pub magnitude : ℤ → ℕ
magnitude (pos n) = n
magnitude (negsuc n) = suc n

-- `a <= b`
abbrev pub is_le : ℤ → ℤ → Bool
is_le (pos a) (pos b) = leb a b
is_le (pos a) (negsuc b) = false
is_le (negsuc a) (pos b) = true
is_le (negsuc a) (negsuc b) = leb b a

-- `start_size <= end_size && (end_size % start_size) == 0`; a remainder by zero is undefined behaviour.
unfoldable pub goes_on : ℤ → ℤ → Option Bool
goes_on start end =
    if is_le start end
    then (if magnitude start == 0 then none else some ((magnitude end % magnitude start) == 0))
    else some false

-- How often `for (i = 0; i < end_size / start_size; i++)` runs its body.
unfoldable pub rounds : ℤ → ℤ → ℕ
rounds (pos s) (pos e) = e / s
rounds (negsuc s) (negsuc e) = suc e / suc s
rounds (pos s) (negsuc e) = 0
rounds (negsuc s) (pos e) = 0

-- `start_size *= 2`, which overflows outside of the range of `int`.
unfoldable pub twice : ℤ → Option ℤ
twice (pos n) = if ltb (2 * n) (2 ^ 31) then some (pos (2 * n)) else none
twice (negsuc n) = if leb (2 * suc n) (2 ^ 31) then some (negsuc (2 * suc n - 1)) else none

-- The loop over the sizes of a request. `body` is handed the size and how often the inner loop runs.
-- `none` is undefined behaviour, a failed assertion, or that `fuel` rounds are not enough.
unfoldable pub size_loop {ℓ} : {S : Type ℓ} → (ℤ → ℕ → S → Option S) → ℕ → ℤ → ℤ → S → Option S
unfolding goes_on rounds twice
size_loop body zero end start s = none
size_loop body (suc fuel) end start s = do
  more ← goes_on start end
  elim more [
    | false ↦ some s
    | true ↦ do
      s' ← body start (rounds start end) s
      start' ← twice start
      size_loop body fuel end start' s'
  ]

-- More rounds than an `int` can be doubled without an overflow.
abbrev pub size_fuel : ℕ
size_fuel = 32

-- `for (size_t lun = 0; lun < geo->nluns; lun++)`, of which `n` rounds are left, for one channel.
unfoldable pub units_of : ℕ → ℕ → ℕ → List NvmAddr
units_of channel lun zero = []
units_of channel lun (suc n) =
    record { ch = channel; lun = lun; blk = 0 } ∷ units_of channel (lun + 1) n

-- `units`: the LUNs of the channels, whose numbers are below 2^31.
unfoldable pub units : NvmGeo → List ℕ → List NvmAddr
unfolding units_of
units geo [] = []
units geo (c ∷ cs) = units_of c 0 geo.nluns ++ units geo cs

-- The size of a write to each plane, as an `int`.
abbrev pub first_size : NvmGeo → ℤ
first_size geo = to_int (mul64 (mul64 geo.nplanes geo.nsectors) geo.sector_nbytes)

-- What a test works on: the devices, and the rows of the output file, which are the number of channels and
-- the size of a request (and a bandwidth that depends on the clock).
pub record Run (nvm : Nvm) : Type 0 where
  pub dev : nvm.Device
  pub rows : List (ℕ × ℤ)
