-- ===== src/Device/Drive/Grant.antt =====
-- `ocssd_unit::alloc_channels` as a whole: what a device grants to one request.
use native.Mathlib.Nat.{zero-add}
use light_nvm.Base.{
  ℕ, ◌/◌, ◌≤◌, ◌≡◌, ◌≢◌, inl, inr, arith, List, [], ◌∷◌, ◌++◌, length, Option, some, Bool-cases,
  ==_eq_false, ◌==◌, div64,
}
use light_nvm.Request.Alloc.{AllocRequest}
use light_nvm.Request.Alloc.RoundTrip.{InRange}
use light_nvm.Vssd.Channel.{VirtualChannel}
use light_nvm.Vssd.Member.{VirtualUnit}
use light_nvm.Vssd.Member
use light_nvm.Vssd.Ssd.{VirtualOcssd}
use light_nvm.Vssd.Ssd
use light_nvm.Device.Drive.{
  OcssdUnit, alloc_shared_channels, alloc_exclusive_channels, alloc_exclusive_loop, alloc_kind,
  alloc_channels,
}
use light_nvm.Device.Drive.Shared.{alloc_shared_loop-Granting}
use light_nvm.Device.Drive.Exclusive.{alloc_exclusive_loop-Granting}
use light_nvm.Device.Drive.Valid.{IsDevice, Gives, Gives-shared, Gives-exclusive, Gives-nothing}

-- The virtual unit of the device with these channels.
abbrev pub member : OcssdUnit → List VirtualChannel → VirtualUnit
member u vs = record { dev_name = u.name; geo = u.geo; channels = vs }

-- The virtual OCSSD with the channels that the device has granted, if there are any.
abbrev pub with_granted : VirtualOcssd → OcssdUnit → List VirtualChannel → VirtualOcssd
with_granted vssd u [] = vssd
with_granted vssd u (v ∷ vs) = record vssd { units = vssd.units ++ member u (v ∷ vs) ∷ [] }

module _ (u : OcssdUnit) (d : IsDevice u) (r : AllocRequest) (v : InRange r) where
  abbrev fresh : VirtualUnit
  fresh = record { dev_name = u.name; geo = u.geo; channels = [] }

  -- What a call for one kind of channels gives.
  abbrev Given : Option (OcssdUnit × VirtualUnit × ℕ) → Type 0
  Given out =
      (u' : OcssdUnit) × (vs : List VirtualChannel) × (out ≡ some (u', member u vs, length vs))
      × (length vs ≤ r.num_channels)
      × Gives u u' vs

  alloc_shared_channels-Given : r.num_channels ≢ 0 → Given (alloc_shared_channels u fresh r)
  unfolding alloc_shared_channels div64
  alloc_shared_channels-Given ne =
      let (g, run, p) =
        alloc_shared_loop-Granting (r.num_blocks / r.num_channels) r.num_channels
          (omega (arith, v.blocks)) v.channels u.shared_channels fresh 0 d.all_shared
          (omega arith) in
      (
        record u { shared_channels = g.left },
        p.new,
        rw (==_eq_false r.num_channels 0 ne, run, p.vunit_lem, p.count, zero-add),
        omega (arith, p.bounded, p.count),
        Gives-shared u d p.grants,
      )

  alloc_exclusive_channels-Given :
      r.num_channels ≢ 0 → Given (some (alloc_exclusive_channels u fresh r))
  unfolding alloc_exclusive_channels
  alloc_exclusive_channels-Given ne =
      let p =
        alloc_exclusive_loop-Granting r.num_channels v.channels u.exclusive_channels fresh 0
          d.all_exclusive (omega arith) in
      (
        record u {
          exclusive_channels =
              (alloc_exclusive_loop r.num_channels u.exclusive_channels fresh 0).left;
        },
        p.new,
        rw (p.vunit_lem, p.count, zero-add),
        omega (arith, p.bounded, p.count),
        Gives-exclusive u d p.grants,
      )

  alloc_kind-Given : r.num_channels ≢ 0 → Given (alloc_kind u fresh r)
  unfolding alloc_kind
  alloc_kind-Given ne = elim (Bool-cases (r.shared == 1)) [
    | inl e ↦ rw e (alloc_shared_channels-Given ne)
    | inr e ↦ rw e (alloc_exclusive_channels-Given ne)
  ]

  alloc_channels-of_kind :
      {u' : OcssdUnit} (vs : List VirtualChannel) (vssd : VirtualOcssd)
      → r.num_channels ≢ 0
      → alloc_kind u fresh r ≡ some (u', member u vs, length vs)
      → alloc_channels u vssd r ≡ some (u', with_granted vssd u vs, length vs)
  unfolding alloc_channels Ssd.add Member.make
  alloc_channels-of_kind [] vssd ne e = rw (==_eq_false r.num_channels 0 ne, e, alloc_channels)
  alloc_channels-of_kind (c ∷ cs) vssd ne e = rw (
    ==_eq_false r.num_channels 0 ne,
    e,
    alloc_channels,
    ==_eq_false (length (c ∷ cs)) 0 (omega arith),
  )

  -- A device meets no undefined behaviour. It grants at most as many channels as are asked for; what
  -- it grants goes into one unit of the virtual OCSSD, with the device's name and geometry, or leaves
  -- the virtual OCSSD as it was if that is nothing; and it is a well-formed device afterwards, whose
  -- channels have given exactly the granted channels.
  pub alloc_channels-Gives :
      (vssd : VirtualOcssd)
      → (u' : OcssdUnit) × (vs : List VirtualChannel) × (alloc_channels u vssd r
          ≡ some (u', with_granted vssd u vs, length vs))
        × (length vs ≤ r.num_channels)
        × Gives u u' vs
  unfolding alloc_channels
  alloc_channels-Gives vssd = elim (Bool-cases (r.num_channels == 0)) [
    | inl none_asked ↦ (u, [], rw none_asked, omega arith, Gives-nothing u d)
    | inr asked ↦
        let ne : r.num_channels ≢ 0 = ground arith in
        let (u', vs, e, le, gives) = alloc_kind-Given ne in
        (u', vs, alloc_channels-of_kind vs vssd ne e, le, gives)
  ]
