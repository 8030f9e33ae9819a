-- ===== src/Conn/Addresses/Complete.antt =====
-- The rounds of `initialize_vssd_blocks` address every block of the channels that the device has.
use light_nvm.Base.{
  length, some, ◌^◌, All, ℕ, zero, suc, ◌+◌, ◌-◌, ◌<◌, ◌≤◌, ◌≡◌, ◌≢◌, ◌⊎◌, inl, inr, refl, subst,
  arith, List, [], ◌∷◌, Any, Any-append_left, Any-append_right, lt→ltb, le→ltb, Nat-cases, ==_iff,
  ==_eq_false,
}
use light_nvm.Vssd.Lun.{VirtualLun}
use light_nvm.Vssd.Channel.{VirtualChannel}
use light_nvm.Vssd.Member.{NvmGeo}
use light_nvm.Device.Channel.Virtual.{OwnedBy}
use light_nvm.Device.Channel.Virtual.{IsGranted}
use light_nvm.Conn.Addresses.{NvmAddr, next_addrs}
use light_nvm.Conn.Addresses.Rounds.{next_addrs-stripe}
use light_nvm.Conn.Addresses.Stripes.{
  positions, Run, runs_shared, runs_whole, runs_of, runs, stripe,
}

-- The block is addressed in the round.
abbrev pub Addressed : NvmAddr → List NvmAddr → Type 0
Addressed a addrs = Any (λ x. x ≡ a) addrs

stripe-Addressed :
    (r : Run) (k : ℕ) (rs : List Run)
    → k < r.count
    → Any (λ x. x ≡ r) rs
    → Addressed (record { ch = r.ch; lun = r.lun; blk = r.start + k }) (stripe k rs)
stripe-Addressed r k [] lt m = elim m [ ]
stripe-Addressed r k (x ∷ rs) lt (inl e) = rw (e, lt→ltb k r.count lt) (inl refl)
stripe-Addressed r k (x ∷ rs) lt (inr m) = elim (Nat-cases k x.count) [
  | inl more ↦ rw (lt→ltb k x.count more) (inr (stripe-Addressed r k rs lt m))
  | inr used_up ↦ rw (le→ltb k x.count used_up) (stripe-Addressed r k rs lt m)
]

-- Block `b` of the LUN `lun` is in a run.
record Located (rs : List Run) (ch lun b : ℕ) : Type 0 where
  run : Run
  k : ℕ
  listed : Any (λ x. x ≡ run) rs
  ch_lem : run.ch ≡ ch
  lun_lem : run.lun ≡ lun
  within : k < run.count
  blk_lem : run.start + k ≡ b

located :
    {rs : List Run} {ch lun b : ℕ} (r : Run) (k : ℕ)
    → Any (λ x. x ≡ r) rs
    → r.ch ≡ ch
    → r.lun ≡ lun
    → k < r.count
    → r.start + k ≡ b
    → Located rs ch lun b
located r k m ch lun lt e = record {
  run = r;
  k = k;
  listed = m;
  ch_lem = ch;
  lun_lem = lun;
  within = lt;
  blk_lem = e;
}

module _ (ch lun b : ℕ) where
  Located-map :
      (rs ss : List Run)
      → ((r : Run) → Any (λ x. x ≡ r) rs → Any (λ x. x ≡ r) ss)
      → Located rs ch lun b
      → Located ss ch lun b
  Located-map rs ss f l = located l.run l.k (f l.run l.listed) l.ch_lem l.lun_lem l.within l.blk_lem

  shared-Located : (ls : List VirtualLun) → OwnedBy ls lun b → Located (runs_shared ch ls) ch lun b
  shared-Located [] o = elim o [ ]
  shared-Located (l ∷ ls) (inl o) =
      located (record { ch = ch; lun = l.lun_id; start = l.block_start; count = l.num_blocks })
        (b - l.block_start) (inl refl) refl o.0 (omega arith) (omega arith)
  shared-Located (l ∷ ls) (inr o) =
      Located-map (runs_shared ch ls) (runs_shared ch (l ∷ ls)) (λ r m. inr m) (shared-Located ls o)

  whole-Located :
      (nblocks n first : ℕ)
      → first ≤ lun
      → lun < first + n
      → b < nblocks
      → Located (runs_whole nblocks ch n first) ch lun b
  whole-Located nblocks zero first lo hi lt = absurd (omega arith)
  whole-Located nblocks (suc n) first lo hi lt = elim (Nat-cases first lun) [
    | inl later ↦
        Located-map (runs_whole nblocks ch n (suc first)) (runs_whole nblocks ch (suc n) first)
          (λ r m. inr m) (whole-Located nblocks n (suc first) (omega arith) (omega arith) lt)
    | inr here ↦
        located (record { ch = ch; lun = first; start = 0; count = nblocks }) b (inl refl) refl
          (omega arith) lt (omega arith)
  ]

-- A block of a channel that there is on the device: one of its runs, or any block of its LUNs if it is
-- granted whole.
abbrev pub HasBlock : NvmGeo → VirtualChannel → ℕ → ℕ → Type 0
HasBlock geo c lun b =
    ((c.shared ≡ 1) × OwnedBy c.luns lun b)
    ⊎ ((c.shared ≢ 1) × (lun < c.num_luns) × (b < geo.nblocks))

channel-Located :
    (geo : NvmGeo) (c : VirtualChannel) (lun b : ℕ)
    → HasBlock geo c lun b
    → Located (runs_of geo c) c.channel_id lun b
channel-Located geo c lun b (inl shared) =
    rw ((==_iff c.shared 1).1 shared.0) (shared-Located c.channel_id lun b c.luns shared.1)
channel-Located geo c lun b (inr whole) = rw (==_eq_false c.shared 1 whole.0) (
    whole-Located c.channel_id lun b geo.nblocks c.num_luns 0 (omega arith) (omega (arith, whole.1))
      whole.2)

channels-Located :
    (geo : NvmGeo) (cs : List VirtualChannel) (ch lun b : ℕ)
    → Any (λ c. (c.channel_id ≡ ch) × HasBlock geo c lun b) cs
    → Located (runs geo cs) ch lun b
channels-Located geo [] ch lun b o = elim o [ ]
channels-Located geo (c ∷ cs) ch lun b (inl o) =
    subst (λ (i : ℕ). Located (runs geo (c ∷ cs)) i lun b) o.0
      (Located-map c.channel_id lun b (runs_of geo c) (runs geo (c ∷ cs))
        (λ r m. Any-append_left (λ x. x ≡ r) (runs_of geo c) (runs geo cs) m)
        (channel-Located geo c lun b o.1))
channels-Located geo (c ∷ cs) ch lun b (inr o) =
    Located-map ch lun b (runs geo cs) (runs geo (c ∷ cs))
      (λ r m. Any-append_right (λ x. x ≡ r) (runs_of geo c) (runs geo cs) m)
      (channels-Located geo cs ch lun b o)

HasBlock-Addressed :
    (geo : NvmGeo) (cs : List VirtualChannel) (ch lun b : ℕ)
    → Any (λ c. (c.channel_id ≡ ch) × HasBlock geo c lun b) cs
    → (k : ℕ) × Addressed (record { ch = ch; lun = lun; blk = b }) (stripe k (runs geo cs))
HasBlock-Addressed geo cs ch lun b o =
    let l = channels-Located geo cs ch lun b o in
    (
      l.k,
      subst (λ a. Addressed a (stripe l.k (runs geo cs)))
          (λ i. record { ch = l.ch_lem i; lun = l.lun_lem i; blk = l.blk_lem i })
          (stripe-Addressed l.run l.k (runs geo cs) l.within l.listed),
    )

-- Where an `int` can index the runs of granted channels, every block of them that there is on the device is addressed in some round: when the
-- positions have been moved on `k` times, the loops give addresses with this block among them.
pub next_addrs-Addressed :
    (geo : NvmGeo) (cs : List VirtualChannel) (ch lun b : ℕ)
    → geo.nblocks < 2 ^ 32
    → All IsGranted cs
    → length (runs geo cs) < 2 ^ 31
    → Any (λ c. (c.channel_id ≡ ch) × HasBlock geo c lun b) cs
    → (k : ℕ) × (addrs : List NvmAddr) × (next_addrs geo cs (positions k (runs geo cs))
        ≡ some (addrs, positions (suc k) (runs geo cs)))
      × Addressed (record { ch = ch; lun = lun; blk = b }) addrs
next_addrs-Addressed geo cs ch lun b blocks granted few o =
    let (k, addressed) = HasBlock-Addressed geo cs ch lun b o in
    (k, stripe k (runs geo cs), next_addrs-stripe geo blocks k cs granted few, addressed)
