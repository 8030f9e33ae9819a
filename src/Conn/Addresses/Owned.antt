-- ===== src/Conn/Addresses/Owned.antt =====
-- The rounds of `initialize_vssd_blocks` address the blocks that the virtual unit owns.
use light_nvm.Base.{
  ℕ, zero, suc, ◌+◌, ◌<◌, ◌≡◌, ◌≢◌, inl, inr, refl, arith, List, [], ◌∷◌, All, All-append, All-map,
  Any-append_left, lt→ltb, le→ltb, Nat-cases, Bool-cases, ◌==◌, ==_iff,
}
use light_nvm.Vssd.Lun.{VirtualLun}
use light_nvm.Vssd.Channel.{VirtualChannel}
use light_nvm.Vssd.Member.{NvmGeo}
use light_nvm.Device.Channel.Virtual.{OwnedBy, Owns}
use light_nvm.Device.Drive.Moves.{OwnedAt}
use light_nvm.Conn.Addresses.Stripes.{Run, runs_shared, runs_whole, runs_of, runs, stripe}

-- A run of blocks that the channels own.
abbrev OwnedRun : List VirtualChannel → Run → Type 0
OwnedRun cs r = (k : ℕ) → k < r.count → OwnedAt cs r.ch r.lun (r.start + k)

stripe-All :
    (cs : List VirtualChannel) (k : ℕ) (rs : List Run)
    → All (OwnedRun cs) rs
    → All (λ a. OwnedAt cs a.ch a.lun a.blk) (stripe k rs)
stripe-All cs k [] h = tt
stripe-All cs k (r ∷ rs) h = elim (Nat-cases k r.count) [
  | inl more ↦ rw (lt→ltb k r.count more) (h.0 k more, stripe-All cs k rs h.1)
  | inr used_up ↦ rw (le→ltb k r.count used_up) (stripe-All cs k rs h.1)
]

shared-OwnedRun :
    (c : VirtualChannel) (ls : List VirtualLun)
    → ((lun b : ℕ) → OwnedBy ls lun b → OwnedBy c.luns lun b)
    → All (OwnedRun (c ∷ [])) (runs_shared c.channel_id ls)
shared-OwnedRun c [] h = tt
shared-OwnedRun c (l ∷ ls) h = (
  λ k lt. inl (refl, inr (h l.lun_id (l.block_start + k) (inl (refl, omega arith, omega arith)))),
  shared-OwnedRun c ls (λ lun b o. h lun b (inr o)),
)

whole-OwnedRun :
    (c : VirtualChannel) (nblocks n lun : ℕ)
    → c.shared ≢ 1
    → All (OwnedRun (c ∷ [])) (runs_whole nblocks c.channel_id n lun)
whole-OwnedRun c nblocks zero lun ne = tt
whole-OwnedRun c nblocks (suc n) lun ne =
    (λ k lt. inl (refl, inl ne), whole-OwnedRun c nblocks n (suc lun) ne)

channel-OwnedRun : (geo : NvmGeo) (c : VirtualChannel) → All (OwnedRun (c ∷ [])) (runs_of geo c)
channel-OwnedRun geo c = elim (Bool-cases (c.shared == 1)) [
  | inl e ↦ rw e (shared-OwnedRun c c.luns (λ lun b o. o))
  | inr e ↦
      rw e (whole-OwnedRun c geo.nblocks c.num_luns 0 (λ one. cc (e, (==_iff c.shared 1).1 one)))
]

runs-OwnedRun : (geo : NvmGeo) (cs : List VirtualChannel) → All (OwnedRun cs) (runs geo cs)
runs-OwnedRun geo [] = tt
runs-OwnedRun geo (c ∷ cs) =
    All-append (OwnedRun (c ∷ cs)) (runs_of geo c) (runs geo cs)
      (All-map
        (λ r own k lt.
          Any-append_left (λ v. (v.channel_id ≡ r.ch) × Owns v r.lun (r.start + k)) (c ∷ []) cs
            (own k lt))
        (runs_of geo c) (channel-OwnedRun geo c))
      (All-map (λ r own k lt. inr (own k lt)) (runs geo cs) (runs-OwnedRun geo cs))

-- Each address of each round is a block that belongs to one of the channels.
pub stripe-OwnedAt :
    (geo : NvmGeo) (cs : List VirtualChannel) (k : ℕ)
    → All (λ a. OwnedAt cs a.ch a.lun a.blk) (stripe k (runs geo cs))
stripe-OwnedAt geo cs k = stripe-All cs k (runs geo cs) (runs-OwnedRun geo cs)
