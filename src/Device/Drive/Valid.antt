-- ===== src/Device/Drive/Valid.antt =====
-- The invariant of a device, and which of its blocks are in use.
use light_nvm.Base.{
  ◌+◌, ◌^◌, ◌<◌, ◌≡◌, inl, inr, refl, List, [], ◌∷◌, ◌++◌, length, map, All, Distinct,
}
use light_nvm.Wire.Fields.{IsText}
use light_nvm.Vssd.Channel.{VirtualChannel}
use light_nvm.Vssd.RoundTrip.Units.{IsGeo}
use light_nvm.Device.Channel.{OcssdChannel}
use light_nvm.Device.Drive.{OcssdUnit}
use light_nvm.Device.Drive.Moves.{
  IsShared, IsExclusive, Moves, Grants, stop, next, Grants-All, Grants-ids,
}

abbrev pub channels_of : OcssdUnit → List OcssdChannel
channels_of u = u.shared_channels ++ u.exclusive_channels

-- The name and the geometry fit the wire format, the channels are valid for their kind, and no two
-- have the same id.
pub record IsDevice (u : OcssdUnit) : Type 0 where
  pub text : IsText u.name
  pub short : length u.name + 4 < 2 ^ 32
  pub geo_fits : IsGeo u.geo
  pub all_shared : All IsShared u.shared_channels
  pub all_exclusive : All IsExclusive u.exclusive_channels
  pub distinct : Distinct (map (λ c. c.channel_id) (channels_of u))

abbrev pub Anything : OcssdChannel → Type 0
Anything c = Unit {0}

Moves-kept : (c : OcssdChannel) → Moves Anything c c []
Moves-kept c = record {
  id = refl;
  keeps = tt;
  granted = tt;
  runs = tt;
  used = λ lun b. (λ u. inl u, λ o. elim o [ inl u ↦ u | inr v ↦ elim v [ ] ]);
  fresh = λ lun b o. elim o [ ];
}

Moves-Anything :
    {P : OcssdChannel → Type 0} {c c' : OcssdChannel} {now : List VirtualChannel}
    → Moves P c c' now
    → Moves Anything c c' now
Moves-Anything m = record {
  id = m.id;
  keeps = tt;
  granted = m.granted;
  runs = m.runs;
  used = m.used;
  fresh = m.fresh;
}

All-Anything : (cs : List OcssdChannel) → All Anything cs
All-Anything [] = tt
All-Anything (c ∷ cs) = (tt, All-Anything cs)

-- Grants of some channels of a device are grants of the device.
pub Grants-front :
    {P : OcssdChannel → Type 0} {cs cs' : List OcssdChannel} {vs : List VirtualChannel}
    (ds : List OcssdChannel)
    → Grants P cs cs' vs
    → Grants Anything (cs ++ ds) (cs' ++ ds) vs
Grants-front ds (stop cs h) = stop (cs ++ ds) (All-Anything (cs ++ ds))
Grants-front ds (next c c' now m g) = next c c' now (Moves-Anything m) (Grants-front ds g)

Grants-Anything :
    {P : OcssdChannel → Type 0} {cs cs' : List OcssdChannel} {vs : List VirtualChannel}
    → Grants P cs cs' vs
    → Grants Anything cs cs' vs
Grants-Anything (stop cs h) = stop cs (All-Anything cs)
Grants-Anything (next c c' now m g) = next c c' now (Moves-Anything m) (Grants-Anything g)

pub Grants-back :
    {P : OcssdChannel → Type 0} {cs cs' : List OcssdChannel} {vs : List VirtualChannel}
    (ds : List OcssdChannel)
    → Grants P cs cs' vs
    → Grants Anything (ds ++ cs) (ds ++ cs') vs
Grants-back [] g = Grants-Anything g
Grants-back (d ∷ ds) g = next d d [] (Moves-kept d) (Grants-back ds g)

-- A device before and after it has granted the virtual channels.
pub record Gives (u u' : OcssdUnit) (vs : List VirtualChannel) : Type 0 where
  pub same_name : u'.name ≡ u.name
  pub same_geo : u'.geo ≡ u.geo
  pub device : IsDevice u'
  pub grants : Grants Anything (channels_of u) (channels_of u') vs

-- A device whose shared or exclusive channels have granted some.
module _ (u : OcssdUnit) (d : IsDevice u) {vs : List VirtualChannel} where
  pub Gives-shared :
      {cs' : List OcssdChannel}
      → Grants IsShared u.shared_channels cs' vs
      → Gives u (record u { shared_channels = cs' }) vs
  Gives-shared {cs'} g =
      let whole = Grants-front u.exclusive_channels g in
      record {
        same_name = refl;
        same_geo = refl;
        device = record {
          text = d.text;
          short = d.short;
          geo_fits = d.geo_fits;
          all_shared = Grants-All g;
          all_exclusive = d.all_exclusive;
          distinct = rw (Grants-ids whole) d.distinct;
        };
        grants = whole;
      }

  pub Gives-exclusive :
      {cs' : List OcssdChannel}
      → Grants IsExclusive u.exclusive_channels cs' vs
      → Gives u (record u { exclusive_channels = cs' }) vs
  Gives-exclusive {cs'} g =
      let whole = Grants-back u.shared_channels g in
      record {
        same_name = refl;
        same_geo = refl;
        device = record {
          text = d.text;
          short = d.short;
          geo_fits = d.geo_fits;
          all_shared = d.all_shared;
          all_exclusive = Grants-All g;
          distinct = rw (Grants-ids whole) d.distinct;
        };
        grants = whole;
      }

-- A device that has granted nothing.
pub Gives-nothing : (u : OcssdUnit) → IsDevice u → Gives u u []
Gives-nothing u d = record {
  same_name = refl;
  same_geo = refl;
  device = d;
  grants = stop (channels_of u) (All-Anything (channels_of u));
}
