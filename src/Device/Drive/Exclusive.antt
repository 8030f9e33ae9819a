-- ===== src/Device/Drive/Exclusive.antt =====
-- `alloc_exclusive_channels`: the loop grants whole channels.
use light_nvm.Base.{
  ℕ, ◌+◌, ◌^◌, ◌<◌, ◌≤◌, ◌≡◌, ◌≢◌, inl, inr, refl, arith, List, [], ◌∷◌, All, Nat-cases, add64,
  ==_iff, ==_eq_false,
}
use light_nvm.Vssd.Channel.{VirtualChannel}
use light_nvm.Vssd.Channel
use light_nvm.Vssd.Member.{VirtualUnit}
use light_nvm.Vssd.Member
use light_nvm.Device.Lun.{OcssdLun}
use light_nvm.Device.Channel.{OcssdChannel, set_used}
use light_nvm.Device.Channel.Valid.{flags-IsValid}
use light_nvm.Device.Channel.Ledger.{UsedIn}
use light_nvm.Device.Channel.Virtual.{make-IsChannel, make-IsGranted}
use light_nvm.Device.Drive.{keep_channel, alloc_exclusive_loop}
use light_nvm.Device.Drive.Moves.{
  IsExclusive, Moves, Granting, Granting-done, Granting-next, Granting-skip,
}

pub untouched_lem :
    (ls : List OcssdLun) (lun b : ℕ) → All (λ l. l.num_used ≡ 0) ls → ¬ UsedIn ls lun b
untouched_lem [] lun b h u = elim u [ ]
untouched_lem (l ∷ ls) lun b h (inl u) = omega arith
untouched_lem (l ∷ ls) lun b h (inr u) = untouched_lem ls lun b h.1 u

abbrev whole : OcssdChannel → VirtualChannel
whole c = Channel.make c.channel_id 0 c.num_total_blocks c.num_luns

module _ (c : OcssdChannel) (s : IsExclusive c) where
  Moves-kept : Moves IsExclusive c c []
  Moves-kept = record {
    id = refl;
    keeps = s;
    granted = tt;
    runs = tt;
    used = λ lun b. (λ u. inl u, λ o. elim o [ inl u ↦ u | inr v ↦ elim v [ ] ]);
    fresh = λ lun b o. elim o [ ];
  }

  -- A channel that nobody has is granted whole.
  Moves-whole : c.used ≡ 0 → Moves IsExclusive c (set_used c) (whole c ∷ [])
  unfolding set_used
  Moves-whole e =
      let (channel, id, flag) =
        make-IsChannel c.channel_id c.num_total_blocks c.num_luns s.valid.id in
      record {
        id = refl;
        keeps = record { valid = flags-IsValid c c.shared 1 s.valid; untouched = s.untouched };
        granted = ((channel, id), tt);
        runs = (make-IsGranted c.channel_id c.num_total_blocks c.num_luns, tt);
        used = λ lun b. (λ u. inr (inl (inl flag)), λ o. inl (omega arith));
        fresh = λ lun b o u. elim u [
          | inl taken ↦ taken e
          | inr old ↦ untouched_lem c.luns lun b s.untouched old
        ];
      }

-- The three ways through the body of the loop.
module _ (want : ℕ) (c : OcssdChannel) (cs : List OcssdChannel) (vunit : VirtualUnit)
    (channels : ℕ) where
  loop-skip :
      c.used ≢ 0
      → alloc_exclusive_loop want (c ∷ cs) vunit channels
        ≡ keep_channel c (alloc_exclusive_loop want cs vunit channels)
  unfolding alloc_exclusive_loop
  loop-skip taken = rw (==_eq_false c.used 0 taken)

  loop-stop :
      c.used ≡ 0
      → add64 channels 1 ≡ want
      → alloc_exclusive_loop want (c ∷ cs) vunit channels ≡ record {
        left = set_used c ∷ cs;
        vunit = Member.add vunit (whole c);
        channels = add64 channels 1;
      }
  unfolding alloc_exclusive_loop
  loop-stop free last = rw ((==_iff c.used 0).1 free, (==_iff (add64 channels 1) want).1 last)

  loop-continue :
      c.used ≡ 0
      → add64 channels 1 ≢ want
      → alloc_exclusive_loop want (c ∷ cs) vunit channels
        ≡ keep_channel
            (set_used c)
            (alloc_exclusive_loop want cs (Member.add vunit (whole c)) (add64 channels 1))
  unfolding alloc_exclusive_loop
  loop-continue free more = rw ((==_iff c.used 0).1 free, ==_eq_false (add64 channels 1) want more)

alloc_exclusive_loop-nil :
    (want : ℕ) (vunit : VirtualUnit) (channels : ℕ)
    → channels ≤ want
    → Granting IsExclusive want [] vunit channels (alloc_exclusive_loop want [] vunit channels)
unfolding alloc_exclusive_loop
alloc_exclusive_loop-nil want vunit channels le = Granting-done want [] vunit channels tt le

module _ (want : ℕ) (few : want < 2 ^ 32) where
  -- The loop grants channels of its list that nobody has, never more than `want`.
  pub alloc_exclusive_loop-Granting :
      (cs : List OcssdChannel) (vunit : VirtualUnit) (channels : ℕ)
      → All IsExclusive cs
      → channels < want
      → Granting IsExclusive want cs vunit channels (alloc_exclusive_loop want cs vunit channels)
  unfolding Member.add
  alloc_exclusive_loop-Granting [] vunit channels h lt =
      alloc_exclusive_loop-nil want vunit channels (omega arith)
  alloc_exclusive_loop-Granting (c ∷ cs) vunit channels h lt =
      let sum : add64 channels 1 ≡ channels + 1 = omega arith in
      elim (Nat-cases 0 c.used) [
        | inl taken ↦ rw (loop-skip want c cs vunit channels (omega arith)) (
            Granting-skip want c c vunit channels _ (Moves-kept c h.0)
              (alloc_exclusive_loop-Granting cs vunit channels h.1 lt))
        | inr free ↦ elim (Nat-cases (channels + 1) want) [
          | inl more ↦ rw (loop-continue want c cs vunit channels (omega arith) (omega arith)) (
              Granting-next want c (set_used c) (whole c ∷ []) vunit channels _
                (Moves-whole c h.0 (omega arith)) sum
                (alloc_exclusive_loop-Granting cs (Member.add vunit (whole c)) (add64 channels 1)
                  h.1 (omega arith)))
          | inr last ↦ rw (loop-stop want c cs vunit channels (omega arith) (omega arith)) (
              Granting-next want c (set_used c) (whole c ∷ []) vunit channels _
                (Moves-whole c h.0 (omega arith)) sum
                (Granting-done want cs _ (add64 channels 1) h.1 (omega arith)))
        ]
      ]
