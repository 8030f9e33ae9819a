-- ===== src/Device/Drive/Counted.antt =====
-- The constructor of `ocssd_unit` does not end for more channels than an `int` can count.
use light_nvm.Base.{
  ℕ, zero, suc, ◌+◌, ◌^◌, ◌<◌, ◌≡◌, inl, inr, refl, sym, ap, ◌∙◌, arith, List, none, some,
  Option-cases, Nat-cases, length, inc_int, inc_int-bound,
}
use mathlib.Core.Option.{some-injective}
use light_nvm.Base.Partial.{◌>>=◌}
use light_nvm.Vssd.Member.{NvmGeo}
use light_nvm.Device.Drive.{OcssdUnit, add_channel, add_channels, initialize_dev, make}
use light_nvm.Device.Drive.Make.{add_channel-shared, add_channel-exclusive}

add_channel-counts :
    (u u' : OcssdUnit) (k : ℕ)
    → add_channel u k ≡ some u'
    → (u'.channel_count ≡ u.channel_count + 1) × (u'.channel_count < 2 ^ 31)
unfolding add_channel
add_channel-counts u u' k run = elim (Option-cases (inc_int u.channel_count)) [
  | inl e ↦
      let failed : add_channel u k ≡ none = rw (e, add_channel) refl in absurd (cc (failed, run))
  | inr (n, e) ↦
      let (next, small) = inc_int-bound u.channel_count n e in
      let room : u.channel_count + 1 < 2 ^ 31 = omega (arith, next, small) in
      elim (Nat-cases (length u.shared_channels) 4) [
        | inl few ↦ counted room (sym (add_channel-shared u k room few) ∙ run)
        | inr four ↦ counted room (sym (add_channel-exclusive u k room four) ∙ run)
      ]
]
  where
    counted :
        {v : OcssdUnit}
        → v.channel_count < 2 ^ 31
        → some v ≡ some u'
        → (u'.channel_count ≡ v.channel_count) × (u'.channel_count < 2 ^ 31)
    counted small run =
        let same = ap (λ (x : OcssdUnit). x.channel_count) (some-injective _ _ run) in
        (sym same, omega (arith, same, small))

add_channels-counts :
    (n k : ℕ) (u u' : OcssdUnit)
    → add_channels n k u ≡ some u'
    → u.channel_count < 2 ^ 31
    → u.channel_count + n < 2 ^ 31
unfolding add_channels
add_channels-counts zero k u u' run h = omega arith
add_channels-counts (suc n) k u u' run h = elim (Option-cases (add_channel u k)) [
  | inl e ↦
      let failed : add_channels (suc n) k u ≡ none = rw (e, add_channels, ◌>>=◌) refl in
      absurd (cc (failed, run))
  | inr (u1, e) ↦
      let rest : add_channels n (k + 1) u1 ≡ some u' =
        sym (rw (e, add_channels, ◌>>=◌) refl) ∙ run in
      let (counted, small) = add_channel-counts u u1 k e in
      let more = add_channels-counts n (k + 1) u1 u' rest small in omega (arith, counted, more)
]

-- Where the constructor ends without an overflow, an `int` can count the channels.
pub make-counts :
    (ip name : List ℕ) (geo : NvmGeo) (u : OcssdUnit)
    → make ip name geo ≡ some u
    → geo.nchannels < 2 ^ 31
unfolding make initialize_dev
make-counts ip name geo u run =
    let small = add_channels-counts geo.nchannels 0 _ u run (omega arith) in omega (arith, small)
