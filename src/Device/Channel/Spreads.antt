-- ===== src/Device/Channel/Spreads.antt =====
-- The loop of `ocssd_channel::alloc_blocks` over the LUNs, as a relation: which LUN gave what.
use light_nvm.Base.{
  ℕ, ◌+◌, ◌*◌, ◌^◌, ◌<◌, ◌≤◌, ◌≡◌, ◌≢◌, inl, inr, refl, sym, ◌∙◌, arith, List, [], ◌∷◌, ◌++◌,
  append-nil, append_assoc, length, All, Nat-cases, add64, sub64,
}
use light_nvm.Vssd.Channel.{AllocUnit}
use light_nvm.Device.Lun.{OcssdLun}
use light_nvm.Device.Lun
use light_nvm.Device.Lun.Alloc.{IsLun, alloc_blocks_cases}
use light_nvm.Device.Channel.{Spread, keep_lun, alloc_luns}

-- LUNs before and after, the entries of `alloc_units`, and the number of blocks in them.
pub data Spreads : List OcssdLun → List OcssdLun → List AllocUnit → ℕ → Type 0 where
  stop : (ls : List OcssdLun) → Spreads ls ls [] 0
  skip :
      (l : OcssdLun) {ls ls' : List OcssdLun} {us : List AllocUnit} {n : ℕ}
      → Spreads ls ls' us n
      → Spreads (l ∷ ls) (l ∷ ls') us n
  empty :
      (l : OcssdLun) {ls ls' : List OcssdLun} {us : List AllocUnit} {n : ℕ}
      → Spreads ls ls' us n
      → Spreads (l ∷ ls) (l ∷ ls') ((l.lun_id, (0, 0)) ∷ us) n
  give :
      (l l' : OcssdLun) (k : ℕ) {ls ls' : List OcssdLun} {us : List AllocUnit} {n : ℕ}
      → l' ≡ record l { num_used = l.num_used + k }
      → 0 < k
      → l.num_used + k ≤ l.num_blocks
      → Spreads ls ls' us n
      → Spreads (l ∷ ls) (l' ∷ ls') ((l.lun_id, (l.num_used, k)) ∷ us) (k + n)

module _ (nb per : ℕ) (l : OcssdLun) (ls : List OcssdLun) (us : List AllocUnit)
    (request done : ℕ) where
  alloc_luns-skip :
      nb ≤ l.num_used
      → alloc_luns nb per (l ∷ ls) us request done
        ≡ keep_lun l (alloc_luns nb per ls us request done)
  unfolding alloc_luns
  alloc_luns-skip h = ground arith

  module _ (l' : OcssdLun) (unit : ℕ × ℕ) (k : ℕ)
      (given : Lun.alloc_blocks l (0, 0) per ≡ (l', unit, k)) (room : l.num_used < nb) where
    alloc_luns-stop :
        sub64 request k ≡ 0
        → alloc_luns nb per (l ∷ ls) us request done
          ≡ record { luns = l' ∷ ls; units = us ++ (l.lun_id, unit) ∷ []; allocated = add64 done k }
    unfolding alloc_luns
    alloc_luns-stop e = rw (given, alloc_luns) (ground arith)

    alloc_luns-continue :
        sub64 request k ≢ 0
        → alloc_luns nb per (l ∷ ls) us request done
          ≡ keep_lun l'
              (alloc_luns nb per ls (us ++ (l.lun_id, unit) ∷ []) (sub64 request k) (add64 done k))
    unfolding alloc_luns
    alloc_luns-continue e = rw (given, alloc_luns) (ground arith)

-- What the loop leaves, for the LUNs `ls` and its variables.
pub record Spreading (per : ℕ) (ls : List OcssdLun) (us : List AllocUnit) (done : ℕ) (s : Spread)
    : Type 0 where
  pub new : List AllocUnit
  pub count : ℕ
  pub units : s.units ≡ us ++ new
  pub allocated : s.allocated ≡ done + count
  pub bounded : count ≤ per * length ls
  pub spreads : Spreads ls s.luns new count

keep_lun-Spreading :
    (per : ℕ) (l : OcssdLun) (ls : List OcssdLun) (us : List AllocUnit) (done : ℕ) (s : Spread)
    → Spreading per ls us done s
    → Spreading per (l ∷ ls) us done (keep_lun l s)
keep_lun-Spreading per l ls us done s p = record {
  new = p.new;
  count = p.count;
  units = p.units;
  allocated = p.allocated;
  bounded = grind (arith, p.bounded);
  spreads = skip l p.spreads;
}

keep_lun-empty :
    (per : ℕ) (l : OcssdLun) (ls : List OcssdLun) (us : List AllocUnit) (done : ℕ) (s : Spread)
    → Spreading per ls (us ++ (l.lun_id, (0, 0)) ∷ []) done s
    → Spreading per (l ∷ ls) us done (keep_lun l s)
keep_lun-empty per l ls us done s p = record {
  new = (l.lun_id, (0, 0)) ∷ p.new;
  count = p.count;
  units = p.units ∙ append_assoc us _ _;
  allocated = p.allocated;
  bounded = grind (arith, p.bounded);
  spreads = empty l p.spreads;
}

keep_lun-give :
    (per k : ℕ) (l : OcssdLun) (ls : List OcssdLun) (us : List AllocUnit) (done : ℕ) (s : Spread)
    → 0 < k
    → k ≤ per
    → l.num_used + k ≤ l.num_blocks
    → Spreading per ls (us ++ (l.lun_id, (l.num_used, k)) ∷ []) (done + k) s
    → Spreading per (l ∷ ls) us done (keep_lun (record l { num_used = l.num_used + k }) s)
keep_lun-give per k l ls us done s pos le fits p = record {
  new = (l.lun_id, (l.num_used, k)) ∷ p.new;
  count = k + p.count;
  units = p.units ∙ append_assoc us _ _;
  allocated = omega (arith, p.allocated);
  bounded = grind (arith, p.bounded);
  spreads = give l _ k refl pos fits p.spreads;
}

-- The loop stops here: what is left of the LUNs stays as it is.
stop-Spreading :
    (per k : ℕ) (l : OcssdLun) (ls : List OcssdLun) (us : List AllocUnit) (done : ℕ)
    → 0 < k
    → k ≤ per
    → l.num_used + k ≤ l.num_blocks
    → Spreading per (l ∷ ls) us done (record {
      luns = record l { num_used = l.num_used + k } ∷ ls;
      units = us ++ (l.lun_id, (l.num_used, k)) ∷ [];
      allocated = done + k;
    })
stop-Spreading per k l ls us done pos le fits = record {
  new = (l.lun_id, (l.num_used, k)) ∷ [];
  count = k + 0;
  units = refl;
  allocated = omega arith;
  bounded = grind (arith, le);
  spreads = give l _ k refl pos fits (stop ls);
}

-- A share of none: an entry for no blocks.
stop_empty-Spreading :
    (per : ℕ) (l : OcssdLun) (ls : List OcssdLun) (us : List AllocUnit) (done : ℕ)
    → Spreading per
        (l ∷ ls)
        us
        done
        (record { luns = l ∷ ls; units = us ++ (l.lun_id, (0, 0)) ∷ []; allocated = done })
stop_empty-Spreading per l ls us done = record {
  new = (l.lun_id, (0, 0)) ∷ [];
  count = 0;
  units = refl;
  allocated = omega arith;
  bounded = omega arith;
  spreads = empty l (stop ls);
}

alloc_luns-nil :
    (nb per : ℕ) (us : List AllocUnit) (request done : ℕ)
    → Spreading per [] us done (alloc_luns nb per [] us request done)
unfolding alloc_luns
alloc_luns-nil nb per us request done = record {
  new = [];
  count = 0;
  units = sym (append-nil us);
  allocated = omega arith;
  bounded = omega arith;
  spreads = stop [];
}

module _ (nb per : ℕ) where
  -- From valid LUNs, with a share per LUN that the request covers, and where no sum wraps, the loop
  -- spreads the request.
  pub alloc_luns-Spreading :
      (ls : List OcssdLun) (us : List AllocUnit) (request done : ℕ)
      → All (IsLun nb) ls
      → per * length ls ≤ request
      → done + request < 2 ^ 64
      → Spreading per ls us done (alloc_luns nb per ls us request done)
  alloc_luns-Spreading [] us request done v fits small = alloc_luns-nil nb per us request done
  alloc_luns-Spreading (l ∷ ls) us request done v fits small = elim (Nat-cases l.num_used nb) [
    | inr full ↦ rw (alloc_luns-skip nb per l ls us request done full) (
        keep_lun-Spreading per l ls us done _
          (alloc_luns-Spreading ls us request done v.1 (grind arith) small))
    | inl room ↦ elim (alloc_blocks_cases v.0 (0, 0) per room) [
      | inl (none_asked, e) ↦
          let same : sub64 request 0 ≡ request = omega arith in
          let same_done : add64 done 0 ≡ done = omega arith in
          elim (Nat-cases 0 request) [
            | inl more ↦
                rw
                  (
                    alloc_luns-continue nb per l ls us request done l (0, 0) 0 e room (omega arith),
                    same,
                    same_done,
                  )
                  (keep_lun-empty per l ls us done _
                    (alloc_luns-Spreading ls _ request done v.1 (grind arith) small))
            | inr last ↦
                rw
                  (
                    alloc_luns-stop nb per l ls us request done l (0, 0) 0 e room (omega arith),
                    same_done,
                  )
                  (stop_empty-Spreading per l ls us done)
          ]
      | inr (k, pos, le, within, e) ↦
          let sum : add64 done k ≡ done + k = grind arith in
          elim (Nat-cases k request) [
            | inl more ↦
                rw
                  (
                    alloc_luns-continue nb per l ls us request done _ (l.num_used, k) k e room
                        (omega arith),
                    sum,
                  )
                  (keep_lun-give per k l ls us done _ pos le within (
                    alloc_luns-Spreading ls _ (sub64 request k) (done + k) v.1 (grind arith)
                      (omega arith)))
            | inr last ↦
                rw
                  (
                    alloc_luns-stop nb per l ls us request done _ (l.num_used, k) k e room
                        (grind arith),
                    sum,
                  )
                  (stop-Spreading per k l ls us done pos le within)
          ]
    ]
  ]
