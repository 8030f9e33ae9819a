-- ===== src/Device/Drive/Ledger.antt =====
-- Who owns which blocks after a granting loop: the loops grant only blocks that were not in use, and
-- what is in use afterwards is what was in use before and what was granted.
use light_nvm.Base.{
  ℕ, ◌≡◌, ◌≢◌, ◌⊎◌, ◌↔◌, inl, inr, sym, ◌∙◌, List, [], ◌∷◌, All, Any, map, Any-append,
  Any-append_left, Any-append_right, Distinct,
}
use light_nvm.Vssd.Channel.{VirtualChannel}
use light_nvm.Vssd.RoundTrip.Luns.{IsChannel}
use light_nvm.Device.Channel.{OcssdChannel}
use light_nvm.Device.Channel.Virtual.{Owns}
use light_nvm.Device.Drive.Moves.{Used, UsedAt, OwnedAt, Grants, stop, next}

-- Of virtual channels that are all made of one channel.
module _ (k ch lun b : ℕ) where
  owned_here :
      (now : List VirtualChannel)
      → All (λ v. IsChannel v × (v.channel_id ≡ k)) now
      → OwnedAt now ch lun b
      → (k ≡ ch) × Any (λ v. Owns v lun b) now
  owned_here [] h o = elim o [ ]
  owned_here (v ∷ vs) h (inl o) = (sym h.0.1 ∙ o.0, inl o.1)
  owned_here (v ∷ vs) h (inr o) = let (e, rest) = owned_here vs h.1 o in (e, inr rest)

  owned_at :
      (now : List VirtualChannel)
      → All (λ v. IsChannel v × (v.channel_id ≡ k)) now
      → k ≡ ch
      → Any (λ v. Owns v lun b) now
      → OwnedAt now ch lun b
  owned_at [] h e o = elim o [ ]
  owned_at (v ∷ vs) h e (inl o) = inl (h.0.1 ∙ e, o)
  owned_at (v ∷ vs) h e (inr o) = inr (owned_at vs h.1 e o)

-- A channel with another id than all of a list is none of the list.
not_among :
    (Q : OcssdChannel → Type 0) (k ch : ℕ) (cs : List OcssdChannel)
    → All (λ y. k ≢ y) (map (λ c. c.channel_id) cs)
    → Any (λ c. (c.channel_id ≡ ch) × Q c) cs
    → k ≢ ch
not_among Q k ch [] h a e = elim a [ ]
not_among Q k ch (c ∷ cs) h (inl a) e = h.0 (e ∙ sym a.0)
not_among Q k ch (c ∷ cs) h (inr a) e = not_among Q k ch cs h.1 a e

module _ {P : OcssdChannel → Type 0} (ch lun b : ℕ) where
  owned_id :
      {cs cs' : List OcssdChannel} {vs : List VirtualChannel}
      → Grants P cs cs' vs
      → OwnedAt vs ch lun b
      → Any (λ c. (c.channel_id ≡ ch) × Unit {0}) cs
  owned_id (stop cs h) o = elim o [ ]
  owned_id (next c c' now m g) o =
      elim (Any-append (λ v. (v.channel_id ≡ ch) × Owns v lun b) now _ o) [
        | inl here ↦ inl ((owned_here c.channel_id ch lun b now m.granted here).0, tt)
        | inr later ↦ inr (owned_id g later)
      ]

  -- The blocks of the virtual channels were not in use, if no two channels have the same id.
  pub Grants-fresh :
      {cs cs' : List OcssdChannel} {vs : List VirtualChannel}
      → Grants P cs cs' vs
      → Distinct (map (λ c. c.channel_id) cs)
      → OwnedAt vs ch lun b
      → ¬ UsedAt cs ch lun b
  Grants-fresh (stop cs h) d o u = elim o [ ]
  Grants-fresh (next c c' {cs = cs} now m g) d o u =
      elim (Any-append (λ v. (v.channel_id ≡ ch) × Owns v lun b) now _ o) [
        | inl here ↦
            let (e, owned) = owned_here c.channel_id ch lun b now m.granted here in
            elim u [
              | inl used ↦ m.fresh lun b owned used.1
              | inr used ↦ not_among (λ x. Used x lun b) c.channel_id ch cs d.0 used e
            ]
        | inr later ↦ elim u [
          | inl used ↦ not_among (λ _. Unit {0}) c.channel_id ch cs d.0 (owned_id g later) used.0
          | inr used ↦ Grants-fresh g d.1 later used
        ]
      ]

  used_after :
      {cs cs' : List OcssdChannel} {vs : List VirtualChannel}
      → Grants P cs cs' vs
      → UsedAt cs' ch lun b
      → UsedAt cs ch lun b ⊎ OwnedAt vs ch lun b
  used_after (stop cs h) u = inl u
  used_after (next c c' now m g) (inl u) = elim ((m.used lun b).0 u.1) [
    | inl old ↦ inl (inl (sym m.id ∙ u.0, old))
    | inr new ↦ inr (
        Any-append_left (λ v. (v.channel_id ≡ ch) × Owns v lun b) now _
          (owned_at c.channel_id ch lun b now m.granted (sym m.id ∙ u.0) new))
  ]
  used_after (next c c' now m g) (inr u) = elim (used_after g u) [
    | inl old ↦ inl (inr old)
    | inr new ↦ inr (Any-append_right (λ v. (v.channel_id ≡ ch) × Owns v lun b) now _ new)
  ]

  still_used :
      {cs cs' : List OcssdChannel} {vs : List VirtualChannel}
      → Grants P cs cs' vs
      → UsedAt cs ch lun b
      → UsedAt cs' ch lun b
  still_used (stop cs h) u = u
  still_used (next c c' now m g) (inl u) = inl (m.id ∙ u.0, (m.used lun b).1 (inl u.1))
  still_used (next c c' now m g) (inr u) = inr (still_used g u)

  now_used :
      {cs cs' : List OcssdChannel} {vs : List VirtualChannel}
      → Grants P cs cs' vs
      → OwnedAt vs ch lun b
      → UsedAt cs' ch lun b
  now_used (stop cs h) o = elim o [ ]
  now_used (next c c' now m g) o =
      elim (Any-append (λ v. (v.channel_id ≡ ch) × Owns v lun b) now _ o) [
        | inl here ↦
            let (e, owned) = owned_here c.channel_id ch lun b now m.granted here in
            inl (m.id ∙ e, (m.used lun b).1 (inr owned))
        | inr later ↦ inr (now_used g later)
      ]

  -- Afterwards the blocks in use are those that were, and those of the virtual channels.
  pub Grants-used :
      {cs cs' : List OcssdChannel} {vs : List VirtualChannel}
      → Grants P cs cs' vs
      → UsedAt cs' ch lun b ↔ (UsedAt cs ch lun b ⊎ OwnedAt vs ch lun b)
  Grants-used g = (used_after g, λ o. elim o [ inl u ↦ still_used g u | inr v ↦ now_used g v ])
