-- ===== src/Conn/Addresses/Rounds.antt =====
-- The rounds of `initialize_vssd_blocks` for the channels of a virtual unit.
use light_nvm.Base.{
  ℕ, zero, suc, ◌+◌, ◌^◌, ◌<◌, ◌≡◌, inl, inr, refl, sym, ap, ap₂, ◌∙◌, arith, List, [], ◌∷◌, ◌++◌,
  length, append-nil, append_assoc, map, All, some, replicate, lt→ltb, le→ltb, if◌then◌else◌,
  Nat-cases, Bool-cases, ◌==◌, ==_iff, ==_eq_false,
}
use light_nvm.Base.Partial.{◌>>=◌}
use light_nvm.Vssd.Lun.{VirtualLun}
use light_nvm.Vssd.Channel.{VirtualChannel}
use light_nvm.Vssd.Channel
use light_nvm.Device.Channel.Virtual.{IsGranted}
use light_nvm.Vssd.Member.{NvmGeo, generate_units_of}
use light_nvm.Conn.Addresses.{visit_shared, visit_whole, visit_channels, next_addrs}
use light_nvm.Conn.Addresses.Stripes.{
  Fits, runs_shared, runs_whole, runs_of, runs, stripe, positions, positions-append, Visits,
  Visits-append, Visits-nothing, visit_shared-Visits, visit_whole-Visits,
}

runs_shared-Fits :
    (ch : ℕ) (ls : List VirtualLun)
    → All (λ l. l.block_start + l.num_blocks < 2 ^ 32) ls
    → All Fits (runs_shared ch ls)
runs_shared-Fits ch [] h = tt
runs_shared-Fits ch (l ∷ ls) h = (h.0, runs_shared-Fits ch ls h.1)

module _ (geo : NvmGeo) (blocks : geo.nblocks < 2 ^ 32) where
  visit_channel-Visits :
      (k : ℕ) (c : VirtualChannel)
      → IsGranted c
      → Visits
          (λ r.
            if Channel.is_shared c
            then visit_shared c.channel_id c.luns r
            else visit_whole geo.nblocks c.channel_id c.num_luns 0 r)
          k
          (runs_of geo c)
  unfolding Channel.is_shared
  visit_channel-Visits k c g = elim (Nat-cases 0 c.shared) [
    | inl shared ↦
        rw ((==_iff c.shared 1).1 (omega (arith, g.flag)), lt→ltb 0 c.shared shared)
          (visit_shared-Visits k c.channel_id c.luns
            (runs_shared-Fits c.channel_id c.luns g.runs_fit))
    | inr whole ↦
        rw (==_eq_false c.shared 1 (omega arith), le→ltb 0 c.shared whole)
          (visit_whole-Visits k geo.nblocks c.channel_id c.num_luns 0 0 blocks refl)
  ]

  visit_channels-Visits :
      (k : ℕ) (cs : List VirtualChannel)
      → All IsGranted cs
      → Visits (visit_channels geo cs) k (runs geo cs)
  unfolding visit_channels
  visit_channels-Visits k [] h = Visits-nothing k
  visit_channels-Visits k (c ∷ cs) h =
      Visits-append
        (λ r.
          if Channel.is_shared c
          then visit_shared c.channel_id c.luns r
          else visit_whole geo.nblocks c.channel_id c.num_luns 0 r)
        (visit_channels geo cs) k (runs_of geo c) (runs geo cs) (visit_channel-Visits k c h.0)
        (visit_channels-Visits k cs h.1)

  -- Where an `int` can index the runs of the granted channels, the k-th round accesses `curr_blocks`
  -- inside of its bounds and its index does not overflow. It makes one address for each run with more than k blocks, that of the run's block k, in the order of the runs.
  pub next_addrs-stripe :
      (k : ℕ) (cs : List VirtualChannel)
      → All IsGranted cs
      → length (runs geo cs) < 2 ^ 31
      → next_addrs geo cs (positions k (runs geo cs))
        ≡ some (stripe k (runs geo cs), positions (suc k) (runs geo cs))
  unfolding next_addrs
  next_addrs-stripe k cs h few =
      ap
        (λ ps. visit_channels geo cs (record { addrs = []; curr_blocks = ps; i = 0 }) >>= λ r.
          some (r.addrs, r.curr_blocks))
        (sym (append-nil (positions k (runs geo cs))))
      ∙ rw (visit_channels-Visits k cs h [] [] [] (omega (arith, few)), ◌>>=◌, append-nil)

-- What `generate_units` gives for granted channels is where their runs start.
module _ (geo : NvmGeo) where
  start_of_shared :
      (ch : ℕ) (ls : List VirtualLun)
      → map (λ l. l.block_start) ls ≡ positions 0 (runs_shared ch ls)
  start_of_shared ch [] = refl
  start_of_shared ch (l ∷ ls) = ap₂ ◌∷◌ (omega arith) (start_of_shared ch ls)

  start_of_whole :
      (nblocks ch n lun : ℕ) → replicate n 0 ≡ positions 0 (runs_whole nblocks ch n lun)
  start_of_whole nblocks ch zero lun = refl
  start_of_whole nblocks ch (suc n) lun =
      ap₂ ◌∷◌ (omega arith) (start_of_whole nblocks ch n (suc lun))

  channel_starts :
      (c : VirtualChannel) (units : List ℕ)
      → Channel.generate_units c units ≡ units ++ positions 0 (runs_of geo c)
  unfolding Channel.generate_units
  channel_starts c units = elim (Bool-cases (c.shared == 1)) [
    | inl e ↦ rw e (ap (◌++◌ units) (start_of_shared c.channel_id c.luns))
    | inr e ↦ rw e (ap (◌++◌ units) (start_of_whole geo.nblocks c.channel_id c.num_luns 0))
  ]

  pub generate_units_of-positions :
      (cs : List VirtualChannel) (units : List ℕ)
      → generate_units_of cs units ≡ units ++ positions 0 (runs geo cs)
  unfolding generate_units_of
  generate_units_of-positions [] units = sym (append-nil units)
  generate_units_of-positions (c ∷ cs) units = rw (channel_starts c units) (
      generate_units_of-positions cs (units ++ positions 0 (runs_of geo c))
      ∙ append_assoc units _ _
      ∙ ap (◌++◌ units) (sym (positions-append 0 (runs_of geo c) (runs geo cs))))
