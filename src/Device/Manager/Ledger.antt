-- ===== src/Device/Manager/Ledger.antt =====
-- Which blocks of the devices of a node are in use, and which the units of a virtual OCSSD own.
use light_nvm.Base.{
  ℕ, ◌+◌, ◌^◌, ◌<◌, ◌≤◌, ◌≡◌, ◌≢◌, ◌⊎◌, ◌↔◌, inl, inr, refl, sym, ap₂, ◌∙◌, arith, List, [], ◌∷◌,
  ◌++◌, length, map, All, Any, Distinct, Any-append, Any-append_left, Any-append_right,
}
use light_nvm.Vssd.Channel.{VirtualChannel}
use light_nvm.Vssd.Member.{VirtualUnit}
use light_nvm.Vssd.RoundTrip.Units.{IsUnit}
use light_nvm.Device.Channel.Virtual.{IsGranted}
use light_nvm.Device.Drive.{OcssdUnit}
use light_nvm.Device.Drive.Moves.{UsedAt, OwnedAt, Grants-IsChannel, Grants-IsGranted}
use light_nvm.Device.Drive.Ledger.{Grants-fresh, Grants-used}
use light_nvm.Device.Drive.Valid.{IsDevice, Gives, channels_of}
use light_nvm.Device.Drive.Grant.{member}

-- The unit for these channels of the device, if there are any.
abbrev pub members : OcssdUnit → List VirtualChannel → List VirtualUnit
members u [] = []
members u (v ∷ vs) = member u (v ∷ vs) ∷ []

-- The devices of a node before and after, and the units that they have granted.
pub data Hands : List OcssdUnit → List OcssdUnit → List VirtualUnit → Type 0 where
  stop : (us : List OcssdUnit) → All IsDevice us → Hands us us []
  next :
      (u u' : OcssdUnit) (vs : List VirtualChannel) {us us' : List OcssdUnit}
      {ms : List VirtualUnit}
      → IsDevice u
      → Gives u u' vs
      → length vs < 2 ^ 32
      → Hands us us' ms
      → Hands (u ∷ us) (u' ∷ us') (members u vs ++ ms)

-- Block `b` of the LUN `lun` of the channel `ch` of the device `name` is in use.
abbrev pub UsedOn : List OcssdUnit → List ℕ → ℕ → ℕ → ℕ → Type 0
UsedOn us name ch lun b = Any (λ u. (u.name ≡ name) × UsedAt (channels_of u) ch lun b) us

-- The block belongs to one of the units.
abbrev pub OwnedOn : List VirtualUnit → List ℕ → ℕ → ℕ → ℕ → Type 0
OwnedOn ms name ch lun b = Any (λ m. (m.dev_name ≡ name) × OwnedAt m.channels ch lun b) ms

abbrev pub names_of : List OcssdUnit → List (List ℕ)
names_of us = map (λ u. u.name) us

pub Hands-IsDevice :
    {us us' : List OcssdUnit} {ms : List VirtualUnit} → Hands us us' ms → All IsDevice us'
Hands-IsDevice (stop us h) = h
Hands-IsDevice (next u u' vs d g few h) = (g.device, Hands-IsDevice h)

pub names_of-Hands :
    {us us' : List OcssdUnit} {ms : List VirtualUnit} → Hands us us' ms → names_of us' ≡ names_of us
names_of-Hands (stop us h) = refl
names_of-Hands (next u u' vs d g few h) = ap₂ ◌∷◌ g.same_name (names_of-Hands h)

members-IsUnit :
    {u u' : OcssdUnit} (vs : List VirtualChannel) (ms : List VirtualUnit)
    → IsDevice u
    → Gives u u' vs
    → length vs < 2 ^ 32
    → All IsUnit ms
    → All IsUnit (members u vs ++ ms)
members-IsUnit [] ms d g few h = h
members-IsUnit (v ∷ vs) ms d g few h = (
  record {
    text = d.text;
    short = d.short;
    geo_fits = d.geo_fits;
    count = few;
    channels_fit = Grants-IsChannel g.grants;
  },
  h,
)

-- The units fit the wire format.
pub Hands-IsUnit :
    {us us' : List OcssdUnit} {ms : List VirtualUnit} → Hands us us' ms → All IsUnit ms
Hands-IsUnit (stop us h) = tt
Hands-IsUnit (next u u' vs d g few h) = members-IsUnit vs _ d g few (Hands-IsUnit h)

members-IsGranted :
    {u u' : OcssdUnit} (vs : List VirtualChannel) (ms : List VirtualUnit)
    → Gives u u' vs
    → All (λ m. All IsGranted m.channels) ms
    → All (λ m. All IsGranted m.channels) (members u vs ++ ms)
members-IsGranted [] ms g h = h
members-IsGranted (v ∷ vs) ms g h = (Grants-IsGranted g.grants, h)

-- All their channels are as the server grants them.
pub Hands-IsGranted :
    {us us' : List OcssdUnit} {ms : List VirtualUnit}
    → Hands us us' ms
    → All (λ m. All IsGranted m.channels) ms
Hands-IsGranted (stop us h) = tt
Hands-IsGranted (next u u' vs d g few h) = members-IsGranted vs _ g (Hands-IsGranted h)

length-members-le :
    (u : OcssdUnit) (vs : List VirtualChannel) (ms : List VirtualUnit)
    → length (members u vs ++ ms) ≤ length ms + 1
length-members-le u [] ms = omega arith
length-members-le u (v ∷ vs) ms = omega arith

-- There is at most one unit for each device.
pub length-Hands :
    {us us' : List OcssdUnit} {ms : List VirtualUnit}
    → Hands us us' ms
    → (length ms ≤ length us) × (length us' ≡ length us)
length-Hands (stop us h) = omega arith
length-Hands (next u u' vs {ms = ms} d g few h) =
    omega (arith, length-Hands h, length-members-le u vs ms)

module _ (name : List ℕ) (ch lun b : ℕ) where
  members_owned :
      (u : OcssdUnit) (vs : List VirtualChannel)
      → OwnedOn (members u vs) name ch lun b
      → (u.name ≡ name) × OwnedAt vs ch lun b
  members_owned u [] o = elim o [ ]
  members_owned u (v ∷ vs) (inl o) = o
  members_owned u (v ∷ vs) (inr o) = elim o [ ]

  owned_members :
      (u : OcssdUnit) (vs : List VirtualChannel)
      → u.name ≡ name
      → OwnedAt vs ch lun b
      → OwnedOn (members u vs) name ch lun b
  owned_members u [] e o = elim o [ ]
  owned_members u (v ∷ vs) e o = inl (e, o)

  split_members :
      (u : OcssdUnit) (vs : List VirtualChannel) (ms : List VirtualUnit)
      → OwnedOn (members u vs ++ ms) name ch lun b
      → ((u.name ≡ name) × OwnedAt vs ch lun b) ⊎ OwnedOn ms name ch lun b
  split_members u vs ms o =
      elim (Any-append (λ m. (m.dev_name ≡ name) × OwnedAt m.channels ch lun b) (members u vs) ms
        o) [ inl here ↦ inl (members_owned u vs here) | inr later ↦ inr later ]

  -- A device with another name than all of a list is none of the list.
  used_elsewhere :
      (u : OcssdUnit) (us : List OcssdUnit)
      → All (λ y. u.name ≢ y) (names_of us)
      → UsedOn us name ch lun b
      → u.name ≢ name
  used_elsewhere u [] h o e = elim o [ ]
  used_elsewhere u (x ∷ us) h (inl o) e = h.0 (e ∙ sym o.0)
  used_elsewhere u (x ∷ us) h (inr o) e = used_elsewhere u us h.1 o e

  owned_elsewhere :
      (u : OcssdUnit) {us us' : List OcssdUnit} {ms : List VirtualUnit}
      → Hands us us' ms
      → All (λ y. u.name ≢ y) (names_of us)
      → OwnedOn ms name ch lun b
      → u.name ≢ name
  owned_elsewhere u (stop us h) ne o e = elim o [ ]
  owned_elsewhere u (next x x' vs {ms = ms} d g few h) ne o e = elim (split_members x vs ms o) [
    | inl here ↦ ne.0 (e ∙ sym here.0)
    | inr later ↦ owned_elsewhere u h ne.1 later e
  ]

  -- The blocks of the units were not in use, if no two devices have the same name.
  pub Hands-fresh :
      {us us' : List OcssdUnit} {ms : List VirtualUnit}
      → Hands us us' ms
      → Distinct (names_of us)
      → OwnedOn ms name ch lun b
      → ¬ UsedOn us name ch lun b
  Hands-fresh (stop us h) ne o used = elim o [ ]
  Hands-fresh (next u u' vs {us = us} {ms = ms} d g few h) ne o used =
      elim (split_members u vs ms o) [
        | inl here ↦ elim used [
          | inl now ↦ Grants-fresh ch lun b g.grants d.distinct here.1 now.1
          | inr other ↦ used_elsewhere u us ne.0 other here.0
        ]
        | inr later ↦ elim used [
          | inl now ↦ owned_elsewhere u h ne.0 later now.0
          | inr other ↦ Hands-fresh h ne.1 later other
        ]
      ]

  used_after :
      {us us' : List OcssdUnit} {ms : List VirtualUnit}
      → Hands us us' ms
      → UsedOn us' name ch lun b
      → UsedOn us name ch lun b ⊎ OwnedOn ms name ch lun b
  used_after (stop us h) used = inl used
  used_after (next u u' vs d g few h) (inl used) =
      let e = sym g.same_name ∙ used.0 in
      elim ((Grants-used ch lun b g.grants).0 used.1) [
        | inl old ↦ inl (inl (e, old))
        | inr new ↦ inr (
            Any-append_left (λ m. (m.dev_name ≡ name) × OwnedAt m.channels ch lun b) (members u vs)
              _ (owned_members u vs e new))
      ]
  used_after (next u u' vs d g few h) (inr used) = elim (used_after h used) [
    | inl old ↦ inl (inr old)
    | inr new ↦ inr (
        Any-append_right (λ m. (m.dev_name ≡ name) × OwnedAt m.channels ch lun b) (members u vs) _
          new)
  ]

  still_used :
      {us us' : List OcssdUnit} {ms : List VirtualUnit}
      → Hands us us' ms
      → UsedOn us name ch lun b
      → UsedOn us' name ch lun b
  still_used (stop us h) used = used
  still_used (next u u' vs d g few h) (inl used) =
      inl (g.same_name ∙ used.0, (Grants-used ch lun b g.grants).1 (inl used.1))
  still_used (next u u' vs d g few h) (inr used) = inr (still_used h used)

  now_used :
      {us us' : List OcssdUnit} {ms : List VirtualUnit}
      → Hands us us' ms
      → OwnedOn ms name ch lun b
      → UsedOn us' name ch lun b
  now_used (stop us h) o = elim o [ ]
  now_used (next u u' vs {ms = ms} d g few h) o = elim (split_members u vs ms o) [
    | inl here ↦ inl (g.same_name ∙ here.0, (Grants-used ch lun b g.grants).1 (inr here.1))
    | inr later ↦ inr (now_used h later)
  ]

  -- Afterwards the blocks in use are those that were, and those of the units.
  pub Hands-used :
      {us us' : List OcssdUnit} {ms : List VirtualUnit}
      → Hands us us' ms
      → UsedOn us' name ch lun b ↔ (UsedOn us name ch lun b ⊎ OwnedOn ms name ch lun b)
  Hands-used h = (used_after h, λ o. elim o [ inl u ↦ still_used h u | inr v ↦ now_used h v ])
