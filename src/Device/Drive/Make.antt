-- ===== src/Device/Drive/Make.antt =====
-- The constructor of `ocssd_unit` with `initialize_dev`: the channels of a new device.
use light_nvm.Base.{
  inc_int-small, some, ℕ, zero, suc, ◌+◌, ◌^◌, ◌<◌, ◌≤◌, ◌≡◌, ◌≢◌, inl, inr, refl, subst, sym, ap,
  ◌∙◌, arith, List, [], ◌∷◌, ◌++◌, append-nil, append_assoc, length, length-append, nil_of_length,
  map, min, All, All-append, Distinct, Nat-cases, lt→ltb, le→ltb,
}
use mathlib.Core.List.{map-append}
use native.Mathlib.Nat.{zero-add}
use light_nvm.Base.Partial.{◌>>=◌}
use light_nvm.Wire.Fields.{IsText}
use light_nvm.Vssd.Member.{NvmGeo}
use light_nvm.Vssd.RoundTrip.Units.{IsGeo}
use light_nvm.Device.Channel.{OcssdChannel}
use light_nvm.Device.Channel as Chan
use light_nvm.Device.Channel.Valid.{make-IsValid, flags-IsValid, make_luns-untouched}
use light_nvm.Device.Drive.{
  OcssdUnit, assign_to_shared, add_channel, add_channels, initialize_dev, make,
}
use light_nvm.Device.Drive.Moves.{IsShared, IsExclusive}
use light_nvm.Device.Drive.Valid.{IsDevice, channels_of}

-- The numbers from `lo` on, `n` of them.
abbrev pub ids_from : ℕ → ℕ → List ℕ
ids_from lo zero = []
ids_from lo (suc n) = lo ∷ ids_from (suc lo) n

ids_from-snoc : (lo n : ℕ) → ids_from lo (suc n) ≡ ids_from lo n ++ (lo + n) ∷ []
ids_from-snoc lo zero = ap (λ (k : ℕ). k ∷ []) (omega arith)
ids_from-snoc lo (suc n) =
    ap (◌∷◌ lo)
      (ids_from-snoc (suc lo) n ∙ ap (λ (k : ℕ). ids_from (suc lo) n ++ k ∷ []) (omega arith))

length-ids_from : (lo n : ℕ) → length (ids_from lo n) ≡ n
length-ids_from lo zero = refl
length-ids_from lo (suc n) = ap suc (length-ids_from (suc lo) n)

ids_from-ne : (x lo n : ℕ) → x < lo → All (λ y. x ≢ y) (ids_from lo n)
ids_from-ne x lo zero h = tt
ids_from-ne x lo (suc n) h = (omega arith, ids_from-ne x (suc lo) n (omega arith))

ids_from-Distinct : (lo n : ℕ) → Distinct (ids_from lo n)
ids_from-Distinct lo zero = tt
ids_from-Distinct lo (suc n) =
    (ids_from-ne lo (suc lo) n (omega arith), ids_from-Distinct (suc lo) n)

abbrev ids_of : List OcssdChannel → List ℕ
ids_of cs = map (λ c. c.channel_id) cs

length-ids_of : (cs : List OcssdChannel) → length (ids_of cs) ≡ length cs
length-ids_of [] = refl
length-ids_of (c ∷ cs) = ap suc (length-ids_of cs)

-- A channel of which nothing has been granted.
pub record IsUnused (c : OcssdChannel) : Type 0 where
  pub free : c.used ≡ 0
  pub untouched : All (λ l. l.num_used ≡ 0) c.luns

-- The two ways through the body of the loop.
module _ (u : OcssdUnit) (k : ℕ) (room : u.channel_count + 1 < 2 ^ 31) where
  pub add_channel-shared :
      length u.shared_channels < 4
      → add_channel u k
        ≡ some (record u {
          channel_count = u.channel_count + 1;
          shared_channels =
              u.shared_channels ++ Chan.set_shared (Chan.make k u.geo.nluns u.geo.nblocks) ∷ [];
        })
  unfolding add_channel assign_to_shared
  add_channel-shared few = rw (inc_int-small u.channel_count room, ◌>>=◌, lt→ltb _ _ few)

  pub add_channel-exclusive :
      4 ≤ length u.shared_channels
      → add_channel u k
        ≡ some (record u {
          channel_count = u.channel_count + 1;
          exclusive_channels = u.exclusive_channels ++ Chan.make k u.geo.nluns u.geo.nblocks ∷ [];
        })
  unfolding add_channel assign_to_shared
  add_channel-exclusive four = rw (inc_int-small u.channel_count room, ◌>>=◌, le→ltb _ _ four)

module _ (name : List ℕ) (geo : NvmGeo) (luns : geo.nluns < 2 ^ 32)
    (blocks : geo.nblocks < 2 ^ 32) where
  -- The device while `initialize_dev` has made the channels 0 to `k` - 1.
  record Building (k : ℕ) (u : OcssdUnit) : Type 0 where
    name_lem : u.name ≡ name
    geo_lem : u.geo ≡ geo
    all_shared : All IsShared u.shared_channels
    all_exclusive : All IsExclusive u.exclusive_channels
    ids : ids_of (channels_of u) ≡ ids_from 0 k
    count : u.channel_count ≡ k
    split : length u.shared_channels ≡ min 4 k
    unused : All IsUnused (channels_of u)

  abbrev fresh : ℕ → OcssdChannel
  fresh k = Chan.make k geo.nluns geo.nblocks

  fresh-IsUnused : (k : ℕ) → IsUnused (fresh k)
  unfolding Chan.make
  fresh-IsUnused k = record { free = refl; untouched = make_luns-untouched geo.nluns 0 geo.nblocks }

  channel_id-fresh : (k : ℕ) → (fresh k).channel_id ≡ k
  unfolding Chan.make
  channel_id-fresh k = refl

  fresh-IsShared : (k : ℕ) → k < 2 ^ 32 → IsShared (Chan.set_shared (fresh k))
  unfolding Chan.set_shared
  fresh-IsShared k h = record {
    valid = flags-IsValid (fresh k) 1 _ (make-IsValid k geo.nluns geo.nblocks h luns blocks);
    not_used = (fresh-IsUnused k).free;
  }

  set_shared-IsUnused : (k : ℕ) → IsUnused (Chan.set_shared (fresh k))
  unfolding Chan.set_shared
  set_shared-IsUnused k =
      let v = fresh-IsUnused k in record { free = v.free; untouched = v.untouched }

  channel_id-set_shared : (c : OcssdChannel) → (Chan.set_shared c).channel_id ≡ c.channel_id
  unfolding Chan.set_shared
  channel_id-set_shared c = refl

  fresh-IsExclusive : (k : ℕ) → k < 2 ^ 32 → IsExclusive (fresh k)
  fresh-IsExclusive k h = record {
    valid = make-IsValid k geo.nluns geo.nblocks h luns blocks;
    untouched = (fresh-IsUnused k).untouched;
  }

  module _ {k : ℕ} {u : OcssdUnit} (small : k + 1 < 2 ^ 31) (b : Building k u) where
    -- While there are fewer than four shared channels there is no exclusive one.
    no_exclusive : length u.shared_channels < 4 → u.exclusive_channels ≡ []
    no_exclusive h = nil_of_length u.exclusive_channels (
        omega (
          arith,
          b.split,
          ap length b.ids,
          length-ids_of (channels_of u),
          length-ids_from 0 k,
          length-append u.shared_channels u.exclusive_channels,
        ))

    appended_ids :
        (c : OcssdChannel)
        → c.channel_id ≡ k
        → ids_of (channels_of u ++ c ∷ []) ≡ ids_from 0 (suc k)
    appended_ids c e =
        map-append (λ (x : OcssdChannel). x.channel_id) (channels_of u) (c ∷ [])
        ∙ rw (b.ids, e) (sym (ids_from-snoc 0 k ∙ rw zero-add))

    abbrev counted : OcssdUnit
    counted = record u { channel_count = u.channel_count + 1 }

    shared_last :
        (c : OcssdChannel)
        → length u.shared_channels < 4
        → (u.shared_channels ++ c ∷ []) ++ u.exclusive_channels ≡ channels_of u ++ c ∷ []
    shared_last c h = rw (no_exclusive h) (append-nil _ ∙ rw append-nil)

    add_shared :
        length u.shared_channels < 4
        → Building (suc k) (record counted {
          shared_channels = u.shared_channels ++ Chan.set_shared (fresh k) ∷ [];
        })
    add_shared h =
        let c = Chan.set_shared (fresh k) in
        record {
          name_lem = b.name_lem;
          geo_lem = b.geo_lem;
          all_shared =
              All-append IsShared u.shared_channels _ b.all_shared
                (fresh-IsShared k (omega arith), tt);
          all_exclusive = b.all_exclusive;
          ids =
              ap ids_of (shared_last c h)
              ∙ appended_ids c (channel_id-set_shared (fresh k) ∙ channel_id-fresh k);
          count = omega (arith, b.count);
          split = omega (arith, b.split, length-append u.shared_channels (c ∷ []));
          unused =
              rw (shared_last c h)
                (All-append IsUnused (channels_of u) _ b.unused (set_shared-IsUnused k, tt));
        }

    add_exclusive :
        4 ≤ length u.shared_channels
        → Building
            (suc k)
            (record counted { exclusive_channels = u.exclusive_channels ++ fresh k ∷ [] })
    add_exclusive h =
        let last = append_assoc u.shared_channels u.exclusive_channels (fresh k ∷ []) in
        record {
          name_lem = b.name_lem;
          geo_lem = b.geo_lem;
          all_shared = b.all_shared;
          all_exclusive =
              All-append IsExclusive u.exclusive_channels _ b.all_exclusive
                (fresh-IsExclusive k (omega arith), tt);
          ids = ap ids_of (sym last) ∙ appended_ids (fresh k) (channel_id-fresh k);
          count = omega (arith, b.count);
          split = omega (arith, b.split);
          unused =
              rw (sym last) (All-append IsUnused (channels_of u) _ b.unused (fresh-IsUnused k, tt));
        }

    same_fresh : fresh k ≡ Chan.make k u.geo.nluns u.geo.nblocks
    same_fresh = ap (λ (g : NvmGeo). Chan.make k g.nluns g.nblocks) (sym b.geo_lem)

    add_channel-Building : (u' : OcssdUnit) × (add_channel u k ≡ some u') × Building (suc k) u'
    add_channel-Building = elim (Nat-cases (length u.shared_channels) 4) [
      | inl few ↦ (
        _,
        add_channel-shared u k (omega (arith, b.count)) few,
        subst
            (λ c.
              Building (suc k)
                (record counted { shared_channels = u.shared_channels ++ Chan.set_shared c ∷ [] }))
            same_fresh (add_shared few),
      )
      | inr four ↦ (
        _,
        add_channel-exclusive u k (omega (arith, b.count)) four,
        subst
            (λ c.
              Building (suc k)
                (record counted { exclusive_channels = u.exclusive_channels ++ c ∷ [] }))
            same_fresh (add_exclusive four),
      )
    ]

  add_channels-Building :
      (n k : ℕ) (u : OcssdUnit)
      → k + n < 2 ^ 31
      → Building k u
      → (u' : OcssdUnit) × (add_channels n k u ≡ some u') × Building (k + n) u'
  unfolding add_channels
  add_channels-Building zero k u h b = (u, refl, subst (λ (j : ℕ). Building j u) (omega arith) b)
  add_channels-Building (suc n) k u h b =
      let (u1, run, b1) = add_channel-Building {k = k} {u = u} (omega arith) b in
      let (u2, run2, b2) =
        add_channels-Building n (k + 1) u1 (omega arith)
          (subst (λ (j : ℕ). Building j u1) (omega arith) b1) in
      (u2, rw (◌>>=◌, run) run2, subst (λ (j : ℕ). Building j u2) (omega arith) b2)

-- A new device.
pub record NewDevice (name : List ℕ) (geo : NvmGeo) (u : OcssdUnit) : Type 0 where
  pub device : IsDevice u
  pub name_lem : u.name ≡ name
  pub geo_lem : u.geo ≡ geo
  pub count : u.channel_count ≡ geo.nchannels
  pub ids : map (λ c. c.channel_id) (channels_of u) ≡ ids_from 0 geo.nchannels
  pub split : length u.shared_channels ≡ min 4 geo.nchannels
  pub unused : All IsUnused (channels_of u)

-- The constructor of a device whose name and geometry fit, with fewer channels than an `int` can count,
-- ends without an overflow and makes a well-formed device with a channel for each number below
-- `nchannels`, in order; the first four (or all, if there are fewer) are shared
-- and the others exclusive, and nothing of any of them has been granted.
pub make-NewDevice :
    (ip name : List ℕ) (geo : NvmGeo)
    → IsText name
    → length name + 4 < 2 ^ 32
    → IsGeo geo
    → geo.nchannels < 2 ^ 31
    → geo.nluns < 2 ^ 32
    → geo.nblocks < 2 ^ 32
    → (u : OcssdUnit) × (make ip name geo ≡ some u) × NewDevice name geo u
unfolding make initialize_dev
make-NewDevice ip name geo text short fits channels luns blocks =
    let (u, run, b0) =
      add_channels-Building name geo luns blocks geo.nchannels 0 _ (omega arith) (record {
        name_lem = refl;
        geo_lem = refl;
        all_shared = tt;
        all_exclusive = tt;
        ids = refl;
        count = refl;
        split = omega arith;
        unused = tt;
      }) in
    let b : Building name geo luns blocks geo.nchannels u =
      subst (λ (j : ℕ). Building name geo luns blocks j u) (zero-add _) b0 in
    (
      u,
      run,
      record {
        device = record {
          text = rw b.name_lem text;
          short = rw b.name_lem short;
          geo_fits = rw b.geo_lem fits;
          all_shared = b.all_shared;
          all_exclusive = b.all_exclusive;
          distinct = rw b.ids (ids_from-Distinct 0 geo.nchannels);
        };
        name_lem = b.name_lem;
        geo_lem = b.geo_lem;
        count = b.count;
        ids = b.ids;
        split = b.split;
        unused = b.unused;
      },
    )
