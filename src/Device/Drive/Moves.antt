-- ===== src/Device/Drive/Moves.antt =====
-- What the granting loops of a unit do to the channels: which blocks come into use, and who owns
-- them afterwards.
use light_nvm.Base.{
  ℕ, ◌+◌, ◌≤◌, ◌≡◌, ◌≢◌, ◌⊎◌, ◌↔◌, refl, sym, ap, ◌∙◌, List, [], ◌∷◌, ◌++◌, length, length-append,
  arith, ap₂, All-append, All, All-map, Any, map,
}
use mathlib.Core.List.{append-nil, append_assoc}
use light_nvm.Vssd.Channel.{VirtualChannel}
use light_nvm.Vssd.Member.{VirtualUnit}
use light_nvm.Vssd.RoundTrip.Luns.{IsChannel}
use light_nvm.Device.Channel.{OcssdChannel}
use light_nvm.Device.Channel.Valid.{IsValid}
use light_nvm.Device.Channel.Ledger.{UsedIn}
use light_nvm.Device.Channel.Virtual.{Owns, IsGranted}
use light_nvm.Device.Drive.{Granted, keep_channel}

-- Block `b` of the LUN `lun` of the channel is in use; a channel that is granted whole is all in use.
abbrev pub Used : OcssdChannel → ℕ → ℕ → Type 0
Used c lun b = (c.used ≢ 0) ⊎ UsedIn c.luns lun b

-- A channel that is shared is valid and never granted whole.
pub record IsShared (c : OcssdChannel) : Type 0 where
  pub valid : IsValid c
  pub not_used : c.used ≡ 0

-- No block of an exclusive channel is granted by itself.
pub record IsExclusive (c : OcssdChannel) : Type 0 where
  pub valid : IsValid c
  pub untouched : All (λ l. l.num_used ≡ 0) c.luns

-- One channel before and after, and the virtual channels made of it.
pub record Moves (P : OcssdChannel → Type 0) (c c' : OcssdChannel) (now : List VirtualChannel)
    : Type 0 where
  pub id : c'.channel_id ≡ c.channel_id
  pub keeps : P c'
  pub granted : All (λ v. IsChannel v × (v.channel_id ≡ c.channel_id)) now
  pub runs : All IsGranted now
  pub used : (lun b : ℕ) → Used c' lun b ↔ (Used c lun b ⊎ Any (λ v. Owns v lun b) now)
  pub fresh : (lun b : ℕ) → Any (λ v. Owns v lun b) now → ¬ Used c lun b

-- The channels of a device before and after, and the virtual channels made of them.
pub data Grants (P : OcssdChannel → Type 0)
    : List OcssdChannel → List OcssdChannel → List VirtualChannel → Type 0 where
  stop : (cs : List OcssdChannel) → All P cs → Grants P cs cs []
  next :
      (c c' : OcssdChannel) {cs cs' : List OcssdChannel} (now : List VirtualChannel)
      {later : List VirtualChannel}
      → Moves P c c' now
      → Grants P cs cs' later
      → Grants P (c ∷ cs) (c' ∷ cs') (now ++ later)

-- What a granting loop leaves, for its channels and its variables.
pub record Granting (P : OcssdChannel → Type 0) (want : ℕ) (cs : List OcssdChannel)
    (vunit : VirtualUnit) (channels : ℕ) (g : Granted) : Type 0 where
  pub new : List VirtualChannel
  pub vunit_lem : g.vunit ≡ record vunit { channels = vunit.channels ++ new }
  pub count : g.channels ≡ channels + length new
  pub bounded : g.channels ≤ want
  pub grants : Grants P cs g.left new

-- Block `b` of the LUN `lun` of the channel `ch` is in use, or belongs to one of the virtual channels.
abbrev pub UsedAt : List OcssdChannel → ℕ → ℕ → ℕ → Type 0
UsedAt cs ch lun b = Any (λ c. (c.channel_id ≡ ch) × Used c lun b) cs

abbrev pub OwnedAt : List VirtualChannel → ℕ → ℕ → ℕ → Type 0
OwnedAt vs ch lun b = Any (λ v. (v.channel_id ≡ ch) × Owns v lun b) vs

module _ {P : OcssdChannel → Type 0} where
  pub Grants-All :
      {cs cs' : List OcssdChannel} {vs : List VirtualChannel} → Grants P cs cs' vs → All P cs'
  Grants-All (stop cs h) = h
  Grants-All (next c c' now m g) = (m.keeps, Grants-All g)

  pub Grants-ids :
      {cs cs' : List OcssdChannel} {vs : List VirtualChannel}
      → Grants P cs cs' vs
      → map (λ c. c.channel_id) cs' ≡ map (λ c. c.channel_id) cs
  Grants-ids (stop cs h) = refl
  Grants-ids (next c c' now m g) = ap₂ ◌∷◌ m.id (Grants-ids g)

  pub Grants-IsChannel :
      {cs cs' : List OcssdChannel} {vs : List VirtualChannel}
      → Grants P cs cs' vs
      → All IsChannel vs
  Grants-IsChannel (stop cs h) = tt
  Grants-IsChannel (next c c' now m g) =
      All-append IsChannel now _ (All-map (λ v h. h.0) now m.granted) (Grants-IsChannel g)

  pub Grants-IsGranted :
      {cs cs' : List OcssdChannel} {vs : List VirtualChannel}
      → Grants P cs cs' vs
      → All IsGranted vs
  Grants-IsGranted (stop cs h) = tt
  Grants-IsGranted (next c c' now m g) = All-append IsGranted now _ m.runs (Grants-IsGranted g)

-- How the iterations of a granting loop add up.
module _ {P : OcssdChannel → Type 0} (want : ℕ) where
  pub Granting-done :
      (cs : List OcssdChannel) (vunit : VirtualUnit) (channels : ℕ)
      → All P cs
      → channels ≤ want
      → Granting P want cs vunit channels (record { left = cs; vunit = vunit; channels = channels })
  Granting-done cs vunit channels h le = record {
    new = [];
    vunit_lem = ap (λ vs. record vunit { channels = vs }) (sym (append-nil vunit.channels));
    count = omega arith;
    bounded = le;
    grants = stop cs h;
  }

  pub Granting-next :
      (c c' : OcssdChannel) (now : List VirtualChannel) {cs : List OcssdChannel}
      (vunit : VirtualUnit) (channels : ℕ) {channels' : ℕ} (g : Granted)
      → Moves P c c' now
      → channels' ≡ channels + length now
      → Granting P want cs (record vunit { channels = vunit.channels ++ now }) channels' g
      → Granting P want (c ∷ cs) vunit channels (keep_channel c' g)
  Granting-next c c' now vunit channels g m count p = record {
    new = now ++ p.new;
    vunit_lem =
        p.vunit_lem
        ∙ ap (λ vs. record vunit { channels = vs }) (append_assoc vunit.channels now p.new);
    count = omega (arith, p.count, count, length-append now p.new);
    bounded = p.bounded;
    grants = next c c' now m p.grants;
  }

  pub Granting-skip :
      (c c' : OcssdChannel) {cs : List OcssdChannel} (vunit : VirtualUnit) (channels : ℕ)
      (g : Granted)
      → Moves P c c' []
      → Granting P want cs vunit channels g
      → Granting P want (c ∷ cs) vunit channels (keep_channel c' g)
  Granting-skip c c' vunit channels g m p = record {
    new = p.new;
    vunit_lem = p.vunit_lem;
    count = p.count;
    bounded = p.bounded;
    grants = next c c' [] m p.grants;
  }
