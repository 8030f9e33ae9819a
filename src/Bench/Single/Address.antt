-- ===== src/Bench/Single/Address.antt =====
-- The numbers that vblk_write.cc and vblk_read.cc give to the LUNs of a device.
use light_nvm.Base.{ℕ, ◌+◌, ◌*◌, ◌/◌, ◌%◌, ◌<◌, ◌≡◌, refl, ap, ◌∙◌, arith, some, ==_eq_false}
use native.Mathlib.Nat.{div-add-mod, mod-lt, mod-eq_of_lt, div-lt_iff_lt-mul}
use light_nvm.Vssd.Member.{NvmGeo}
use light_nvm.Conn.Addresses.{NvmAddr}
use light_nvm.Bench.Single.{address}

-- On a device with channels and LUNs, each number below the number of all LUNs stands for the LUN
-- that it is counted as, all first LUNs of the channels before all second ones: the channel and the
-- LUN are in range, and the number is computed back from them.
pub address-number :
    (geo : NvmGeo) (n : ℕ)
    → 0 < geo.nchannels
    → 0 < geo.nluns
    → n < geo.nluns * geo.nchannels
    → (a : NvmAddr) × (address geo n ≡ some a)
      × (a.ch < geo.nchannels)
      × (a.lun < geo.nluns)
      × (geo.nchannels * a.lun + a.ch ≡ n)
unfolding address
address-number geo n p q h =
    let lun_in_range : n / geo.nchannels < geo.nluns = (div-lt_iff_lt-mul p).1 h in
    let same : (n / geo.nchannels) % geo.nluns ≡ n / geo.nchannels = mod-eq_of_lt lun_in_range in
    (
      record { ch = n % geo.nchannels; lun = (n / geo.nchannels) % geo.nluns; blk = 0 },
      rw
          (
            ==_eq_false geo.nchannels 0 (omega (arith, p)),
            ==_eq_false geo.nluns 0 (omega (arith, q)),
          )
          refl,
      mod-lt n p,
      omega (arith, same, lun_in_range),
      ap (λ l. geo.nchannels * l + n % geo.nchannels) same ∙ div-add-mod n geo.nchannels,
    )
