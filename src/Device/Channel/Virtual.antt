-- ===== src/Device/Channel/Virtual.antt =====
-- The virtual channel that `alloc_shared_channels` makes of `alloc_units`, and the one that
-- `alloc_exclusive_channels` makes of a whole channel.
use light_nvm.Base.{
  ℕ, suc, ◌+◌, ◌^◌, ◌<◌, ◌≤◌, ◌≡◌, ◌≢◌, ◌⊎◌, ◌↔◌, inl, inr, refl, sym, ap, ◌∙◌, subst, transport,
  arith, List, [], ◌∷◌, ◌++◌, length, All, Any, map, append_assoc, append-nil,
}
use light_nvm.Vssd.Lun.{VirtualLun}
use light_nvm.Vssd.Lun
use light_nvm.Vssd.Channel.{VirtualChannel, AllocUnit, add_unit, add_units, of_units}
use light_nvm.Vssd.Channel
use light_nvm.Vssd.RoundTrip.Luns.{IsChannel, IsLun}
use light_nvm.Device.Lun.{OcssdLun}
use light_nvm.Device.Lun.Alloc as Alloc
use light_nvm.Device.Channel.Spreads.{Spreads, stop, skip, empty, give}
use light_nvm.Device.Channel.Ledger.{OwnedIn, Numbered}

-- Block `b` of the LUN `lun` is in one of the runs.
abbrev pub OwnedBy : List VirtualLun → ℕ → ℕ → Type 0
OwnedBy ls lun b =
    Any (λ l. (l.lun_id ≡ lun) × (l.block_start ≤ b) × (b < l.block_start + l.num_blocks)) ls

-- Block `b` of the LUN `lun` belongs to the client that has the virtual channel.
abbrev pub Owns : VirtualChannel → ℕ → ℕ → Type 0
Owns c lun b = (c.shared ≢ 1) ⊎ OwnedBy c.luns lun b

-- A channel that the server has granted: its flag is 0 or 1, and its runs end below 2 ^ 32.
pub record IsGranted (c : VirtualChannel) : Type 0 where
  pub flag : c.shared < 2
  pub count : c.shared ≡ 1 → c.num_luns ≡ length c.luns
  pub runs_fit : All (λ l. l.block_start + l.num_blocks < 2 ^ 32) c.luns

-- The entry fits the `uint32_t` members of a virtual LUN.
abbrev pub IsEntry : AllocUnit → Type 0
IsEntry u = (u.0 < 2 ^ 32) × (u.1.0 + u.1.1 < 2 ^ 32)

pub Spreads-IsEntry :
    {ls ls' : List OcssdLun} {us : List AllocUnit} {n : ℕ} (k nb : ℕ)
    → Spreads ls ls' us n
    → Numbered k ls
    → k + length ls ≤ 2 ^ 32
    → All (Alloc.IsLun nb) ls
    → All IsEntry us
Spreads-IsEntry k nb (stop ls) h few v = tt
Spreads-IsEntry k nb (skip l s) h few v = Spreads-IsEntry (suc k) nb s h.1 (omega arith) v.1
Spreads-IsEntry k nb (empty l s) h few v =
    (omega arith, Spreads-IsEntry (suc k) nb s h.1 (omega arith) v.1)
Spreads-IsEntry k nb (give l l' m e pos fits s) h few v =
    (omega (arith, v.0.size, v.0.small), Spreads-IsEntry (suc k) nb s h.1 (omega arith) v.1)

abbrev lun_of : AllocUnit → VirtualLun
lun_of u = record { lun_id = u.0; block_start = u.1.0; num_blocks = u.1.1 }

-- What the loop of the constructor makes of entries that fit.
record Added (c : VirtualChannel) (us : List AllocUnit) (c' : VirtualChannel) : Type 0 where
  id : c'.channel_id ≡ c.channel_id
  flag : c'.shared ≡ c.shared
  luns : c'.luns ≡ c.luns ++ map lun_of us
  blocks : c'.total_blocks < 2 ^ 32
  count : c'.num_luns ≡ c.num_luns + length us

add_unit-Added :
    (c : VirtualChannel) (u : AllocUnit)
    → IsEntry u
    → c.num_luns + 1 < 2 ^ 32
    → Added c (u ∷ []) (add_unit c u)
unfolding add_unit Lun.make
add_unit-Added c u h few = record {
  id = refl;
  flag = refl;
  luns = ap (λ (l : VirtualLun). c.luns ++ l ∷ []) (ground arith);
  blocks = omega arith;
  count = omega arith;
}

add_units-Added :
    (c : VirtualChannel) (us : List AllocUnit)
    → All IsEntry us
    → c.total_blocks < 2 ^ 32
    → c.num_luns + length us < 2 ^ 32
    → Added c us (add_units c us)
unfolding add_units
add_units-Added c [] h small few = record {
  id = refl;
  flag = refl;
  luns = sym (append-nil c.luns);
  blocks = small;
  count = omega arith;
}
add_units-Added c (u ∷ us) h small few =
    let one = add_unit-Added c u h.0 (omega arith) in
    let rest = add_units-Added (add_unit c u) us h.1 one.blocks (omega (arith, one.count)) in
    record {
      id = rest.id ∙ one.id;
      flag = rest.flag ∙ one.flag;
      luns = rest.luns ∙ ap (λ ls. ls ++ map lun_of us) one.luns ∙ append_assoc c.luns _ _;
      blocks = rest.blocks;
      count = omega (arith, rest.count, one.count);
    }

lun_of-IsLun : (us : List AllocUnit) → All IsEntry us → All IsLun (map lun_of us)
lun_of-IsLun [] h = tt
lun_of-IsLun (u ∷ us) h =
    (record { id = h.0.0; start = omega arith; count = omega arith }, lun_of-IsLun us h.1)

lun_of-fits :
    (us : List AllocUnit)
    → All IsEntry us
    → All (λ l. l.block_start + l.num_blocks < 2 ^ 32) (map lun_of us)
lun_of-fits [] h = tt
lun_of-fits (u ∷ us) h = (h.0.1, lun_of-fits us h.1)

lun_of-OwnedBy :
    (us : List AllocUnit) (lun b : ℕ) → OwnedBy (map lun_of us) lun b ≡ OwnedIn us lun b
lun_of-OwnedBy [] lun b = refl
lun_of-OwnedBy (u ∷ us) lun b =
    ap (λ t. ((u.0 ≡ lun) × (u.1.0 ≤ b) × (b < u.1.0 + u.1.1)) ⊎ t) (lun_of-OwnedBy us lun b)

length-lun_of : (us : List AllocUnit) → length (map lun_of us) ≡ length us
length-lun_of [] = refl
length-lun_of (u ∷ us) = ap suc (length-lun_of us)

module _ (id : ℕ) (us : List AllocUnit) (hid : id < 2 ^ 32) (h : All IsEntry us)
    (few : length us < 2 ^ 32) where
  of_units-Added :
      Added
        (record { channel_id = id; shared = 1; total_blocks = 0; num_luns = 0; luns = [] })
        us
        (of_units id 1 us)
  unfolding of_units Channel.make
  of_units-Added =
      subst
        (λ (k : ℕ).
          Added (record { channel_id = k; shared = 1; total_blocks = 0; num_luns = 0; luns = [] })
            us (of_units id 1 us))
        (omega arith) (add_units-Added (Channel.make id 1 0 0) us h (omega arith) (omega arith))

  pub channel_id-of_units : (of_units id 1 us).channel_id ≡ id
  channel_id-of_units = of_units-Added.id

  -- The shared virtual channel of entries that fit is well formed.
  pub of_units-IsChannel : IsChannel (of_units id 1 us)
  of_units-IsChannel =
      let a = of_units-Added in
      record {
        id = omega (arith, a.id);
        flag = omega (arith, a.flag);
        blocks = a.blocks;
        count = omega (arith, a.count);
        listed = λ e. omega (arith, a.count, ap length a.luns, length-lun_of us);
        whole = λ ne. absurd (ne a.flag);
        luns_fit = rw a.luns (lun_of-IsLun us h);
      }

  pub of_units-IsGranted : IsGranted (of_units id 1 us)
  of_units-IsGranted =
      let a = of_units-Added in
      record {
        flag = omega (arith, a.flag);
        count = λ e. omega (arith, a.count, ap length a.luns, length-lun_of us);
        runs_fit = rw a.luns (lun_of-fits us h);
      }

  -- It owns the blocks of the entries.
  pub of_units-Owns : (lun b : ℕ) → Owns (of_units id 1 us) lun b ↔ OwnedIn us lun b
  of_units-Owns lun b =
      let a = of_units-Added in
      let same : OwnedBy (of_units id 1 us).luns lun b ≡ OwnedIn us lun b =
        rw a.luns (lun_of-OwnedBy us lun b) in
      (
        λ o. elim o [ inl ne ↦ absurd (ne a.flag) | inr owned ↦ transport same owned ],
        λ o. inr (transport (sym same) o),
      )

-- The virtual channel of a whole channel is well formed.
pub make-IsChannel :
    (id blocks luns : ℕ)
    → id < 2 ^ 32
    → IsChannel (Channel.make id 0 blocks luns)
      × ((Channel.make id 0 blocks luns).channel_id ≡ id)
      × ((Channel.make id 0 blocks luns).shared ≢ 1)
unfolding Channel.make
make-IsChannel id blocks luns h = (
  record {
    id = omega arith;
    flag = omega arith;
    blocks = omega arith;
    count = omega arith;
    listed = λ e. absurd (omega arith);
    whole = λ e. refl;
    luns_fit = tt;
  },
  omega arith,
  omega arith,
)

pub make-IsGranted : (id blocks luns : ℕ) → IsGranted (Channel.make id 0 blocks luns)
unfolding Channel.make
make-IsGranted id blocks luns = record {
  flag = omega arith;
  count = λ e. absurd (omega arith);
  runs_fit = tt;
}
