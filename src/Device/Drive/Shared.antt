-- ===== src/Device/Drive/Shared.antt =====
-- `alloc_shared_channels`: the loop grants runs of blocks of shared channels.
use light_nvm.Base.{
  ℕ, ◌+◌, ◌^◌, ◌<◌, ◌≤◌, ◌≡◌, ◌≢◌, ◌⊎◌, ◌↔◌, inl, inr, refl, ap, ◌∙◌, arith, List, [], ◌∷◌, length,
  total, All, some, Nat-cases, add64, lt→ltb, ==_eq_false, ==_iff,
}
use mathlib.Core.Option
use light_nvm.Vssd.Channel.{AllocUnit, of_units}
use light_nvm.Vssd.Member.{VirtualUnit}
use light_nvm.Vssd.Member
use light_nvm.Device.Channel.{OcssdChannel}
use light_nvm.Device.Channel as Chan
use light_nvm.Device.Channel.Valid.{Allocates, Allocates-IsValid, alloc_blocks-Allocates}
use light_nvm.Device.Channel.Ledger.{OwnedIn, Spreads-used, Spreads-fresh, Spreads-total}
use light_nvm.Device.Channel.Virtual.{
  IsEntry, Spreads-IsEntry, of_units-IsChannel, of_units-IsGranted, of_units-Owns,
  channel_id-of_units,
}
use light_nvm.Device.Drive.{Granted, keep_channel, alloc_shared_loop}
use light_nvm.Device.Drive.Moves.{
  Used, IsShared, Moves, Granting, Granting-done, Granting-next, Granting-skip,
}

-- A list of entries that hold no block owns none.
none_owned : (us : List AllocUnit) (lun b : ℕ) → total (λ u. u.1.1) us ≡ 0 → ¬ OwnedIn us lun b
none_owned [] lun b e o = elim o [ ]
none_owned (u ∷ us) lun b e (inl o) = omega arith
none_owned (u ∷ us) lun b e (inr o) = none_owned us lun b (omega arith) o

module _ {c c' : OcssdChannel} {us : List AllocUnit} {n : ℕ} (s : IsShared c)
    (a : Allocates c c' us n) where
  open s use {valid}

  keeps : IsShared c'
  keeps = record {
    valid = Allocates-IsValid valid a;
    not_used = ap (λ (x : OcssdChannel). x.used) a.same ∙ s.not_used;
  }

  same_id : c'.channel_id ≡ c.channel_id
  same_id = ap (λ (x : OcssdChannel). x.channel_id) a.same

  used_lem : (lun b : ℕ) → Used c' lun b ↔ (Used c lun b ⊎ OwnedIn us lun b)
  used_lem lun b =
      let (after, before) = Spreads-used lun b a.spreads in
      (
        λ u. elim u [
          | inl whole ↦ absurd (whole keeps.not_used)
          | inr u' ↦ elim (after u') [ inl old ↦ inl (inr old) | inr new ↦ inr new ]
        ],
        λ o. elim o [
          | inl u ↦ elim u [
            | inl whole ↦ absurd (whole s.not_used)
            | inr old ↦ inr (before (inl old))
          ]
          | inr new ↦ inr (before (inr new))
        ],
      )

  Moves-nothing : n ≡ 0 → Moves IsShared c c' []
  Moves-nothing e = record {
    id = same_id;
    keeps = keeps;
    granted = tt;
    runs = tt;
    used = λ lun b. (
      λ u. elim ((used_lem lun b).0 u) [
        | inl old ↦ inl old
        | inr new ↦ absurd (none_owned us lun b ((Spreads-total a.spreads).2 ∙ e) new)
      ],
      λ o. elim o [ inl old ↦ (used_lem lun b).1 (inl old) | inr new ↦ elim new [ ] ],
    );
    fresh = λ lun b o. elim o [ ];
  }

  entries : All IsEntry us
  entries =
      Spreads-IsEntry 0 c.num_blocks a.spreads valid.numbered
        (omega (arith, valid.count, valid.few)) valid.luns_valid

  few : length us < 2 ^ 32
  few = omega (arith, Spreads-total a.spreads, valid.count, valid.few)

  Moves-units : Moves IsShared c c' (of_units c.channel_id 1 us ∷ [])
  Moves-units =
      let owns = of_units-Owns c.channel_id us valid.id entries few in
      record {
        id = same_id;
        keeps = keeps;
        granted = (
          (
            of_units-IsChannel c.channel_id us valid.id entries few,
            channel_id-of_units c.channel_id us valid.id entries few,
          ),
          tt,
        );
        runs = (of_units-IsGranted c.channel_id us valid.id entries few, tt);
        used = λ lun b. (
          λ u. elim ((used_lem lun b).0 u) [
            | inl old ↦ inl old
            | inr new ↦ inr (inl ((owns lun b).1 new))
          ],
          λ o. elim o [
            | inl old ↦ (used_lem lun b).1 (inl old)
            | inr v ↦ elim v [
              | inl own ↦ (used_lem lun b).1 (inr ((owns lun b).0 own))
              | inr rest ↦ elim rest [ ]
            ]
          ],
        );
        fresh = λ lun b o u. elim o [
          | inl own ↦ elim u [
            | inl whole ↦ whole s.not_used
            | inr old ↦ Spreads-fresh 0 lun b a.spreads valid.numbered ((owns lun b).0 own) old
          ]
          | inr rest ↦ elim rest [ ]
        ];
      }

-- The three ways through the body of the loop.
module _ (blocks want : ℕ) (c : OcssdChannel) (cs : List OcssdChannel) (vunit : VirtualUnit)
    (channels : ℕ) where
  module _ {c' : OcssdChannel} {us : List AllocUnit} {n : ℕ}
      (e : Chan.alloc_blocks c [] blocks ≡ some (c', us, n)) where
    loop-skip :
        n ≡ 0
        → alloc_shared_loop blocks want (c ∷ cs) vunit channels
          ≡ Option.map (keep_channel c') (alloc_shared_loop blocks want cs vunit channels)
    unfolding alloc_shared_loop
    loop-skip z = rw (e, z, alloc_shared_loop)

    loop-stop :
        0 < n
        → add64 channels 1 ≡ want
        → alloc_shared_loop blocks want (c ∷ cs) vunit channels
          ≡ some (record {
            left = c' ∷ cs;
            vunit = Member.add vunit (of_units c.channel_id 1 us);
            channels = add64 channels 1;
          })
    unfolding alloc_shared_loop
    loop-stop pos last =
        rw (e, lt→ltb 0 n pos, (==_iff (add64 channels 1) want).1 last, alloc_shared_loop)

    loop-continue :
        0 < n
        → add64 channels 1 ≢ want
        → alloc_shared_loop blocks want (c ∷ cs) vunit channels
          ≡ Option.map (keep_channel c') (
              alloc_shared_loop blocks want cs
                (Member.add vunit (of_units c.channel_id 1 us))
                (add64 channels 1))
    unfolding alloc_shared_loop
    loop-continue pos more =
        rw (e, lt→ltb 0 n pos, ==_eq_false (add64 channels 1) want more, alloc_shared_loop)

-- The result of the loop, and what it does to its channels.
abbrev Runs : ℕ → ℕ → List OcssdChannel → VirtualUnit → ℕ → Type 0
Runs blocks want cs vunit channels =
    (g : Granted) × (alloc_shared_loop blocks want cs vunit channels ≡ some g)
    × Granting IsShared want cs vunit channels g

alloc_shared_loop-nil :
    (blocks want : ℕ) (vunit : VirtualUnit) (channels : ℕ)
    → channels ≤ want
    → Runs blocks want [] vunit channels
unfolding alloc_shared_loop
alloc_shared_loop-nil blocks want vunit channels le = (
  record { left = []; vunit = vunit; channels = channels },
  refl,
  Granting-done want [] vunit channels tt le,
)

module _ (blocks want : ℕ) (small : blocks < 2 ^ 64) (few : want < 2 ^ 32) where
  -- The loop meets no undefined behaviour and grants channels of its list, never more than `want`.
  pub alloc_shared_loop-Granting :
      (cs : List OcssdChannel) (vunit : VirtualUnit) (channels : ℕ)
      → All IsShared cs
      → channels < want
      → Runs blocks want cs vunit channels
  unfolding Member.add
  alloc_shared_loop-Granting [] vunit channels h lt =
      alloc_shared_loop-nil blocks want vunit channels (omega arith)
  alloc_shared_loop-Granting (c ∷ cs) vunit channels h lt =
      let (c', us, n, e, le, a) = alloc_blocks-Allocates c blocks h.0.valid small in
      let sum : add64 channels 1 ≡ channels + 1 = omega arith in
      elim (Nat-cases 0 n) [
        | inr zero_given ↦
            let (g, run, p) = alloc_shared_loop-Granting cs vunit channels h.1 lt in
            (
              keep_channel c' g,
              loop-skip blocks want c cs vunit channels e (omega arith)
                  ∙ ap (Option.map (keep_channel c')) run,
              Granting-skip want c c' vunit channels g (Moves-nothing h.0 a (omega arith)) p,
            )
        | inl some_given ↦ elim (Nat-cases (channels + 1) want) [
          | inl more ↦
              let (g, run, p) =
                alloc_shared_loop-Granting cs (Member.add vunit (of_units c.channel_id 1 us))
                  (add64 channels 1) h.1 (omega arith) in
              (
                keep_channel c' g,
                loop-continue blocks want c cs vunit channels e some_given (omega arith)
                    ∙ ap (Option.map (keep_channel c')) run,
                Granting-next want c c' _ vunit channels g (Moves-units h.0 a) sum p,
              )
          | inr last ↦ (
            _,
            loop-stop blocks want c cs vunit channels e some_given (omega arith),
            Granting-next want c c' _ vunit channels _ (Moves-units h.0 a) sum
                (Granting-done want cs _ (add64 channels 1) h.1 (omega arith)),
          )
        ]
      ]
