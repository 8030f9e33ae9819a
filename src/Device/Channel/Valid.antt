-- ===== src/Device/Channel/Valid.antt =====
-- The invariant of a channel, and what `ocssd_channel::alloc_blocks` does to a valid one.
use light_nvm.Base.{
  ℕ, zero, suc, ◌+◌, ◌*◌, ◌/◌, ◌^◌, ◌<◌, ◌≤◌, ◌≡◌, ◌≢◌, inl, inr, refl, subst, sym, ap, ◌∙◌, arith,
  List, [], ◌∷◌, length, All, some, div64, add64, ◌||◌, ◌==◌, Bool-cases, ==_eq_false, false,
}
use native.Mathlib.Nat.{zero-add}
use light_nvm.Vssd.Channel.{AllocUnit}
use light_nvm.Device.Lun.{OcssdLun}
use light_nvm.Device.Lun
use light_nvm.Device.Lun.Alloc.{IsLun, make-IsLun}
use light_nvm.Device.Channel.{OcssdChannel, make, make_luns, alloc_luns, alloc_blocks}
use light_nvm.Device.Channel.Spreads.{Spreads, stop, Spreading, alloc_luns-Spreading}
use light_nvm.Device.Channel.Ledger.{
  Numbered, used_total, Spreads-Numbered, Spreads-IsLun, Spreads-total,
}

-- The sizes fit 32 bits; the LUNs are as many as the channel says, valid and numbered from 0; and
-- the two counters of the channel agree with its LUNs.
pub record IsValid (c : OcssdChannel) : Type 0 where
  pub id : c.channel_id < 2 ^ 32
  pub small : c.num_blocks < 2 ^ 32
  pub few : c.num_luns < 2 ^ 32
  pub blocks : c.num_total_blocks ≡ c.num_blocks * c.num_luns
  pub count : length c.luns ≡ c.num_luns
  pub luns_valid : All (IsLun c.num_blocks) c.luns
  pub numbered : Numbered 0 c.luns
  pub used_sum : c.num_used_blocks ≡ used_total c.luns

used_total-le : (nb : ℕ) (ls : List OcssdLun) → All (IsLun nb) ls → used_total ls ≤ nb * length ls
used_total-le nb [] h = omega arith
used_total-le nb (l ∷ ls) h = grind (arith, used_total-le nb ls h.1, h.0.within)

make_luns-valid :
    (n k nb : ℕ)
    → nb < 2 ^ 32
    → All (IsLun nb) (make_luns n k nb)
      × Numbered k (make_luns n k nb)
      × (length (make_luns n k nb) ≡ n)
      × (used_total (make_luns n k nb) ≡ 0)
unfolding make_luns Lun.make
make_luns-valid zero k nb h = (tt, tt, refl, refl)
make_luns-valid (suc n) k nb h =
    let (v, numbered, len, used) = make_luns-valid n (k + 1) nb h in
    (
      (make-IsLun k nb h, v),
      (refl, subst (λ (j : ℕ). Numbered j (make_luns n (k + 1) nb)) (omega arith) numbered),
      ap suc len,
      omega (arith, used),
    )

pub make_luns-untouched : (n k nb : ℕ) → All (λ l. l.num_used ≡ 0) (make_luns n k nb)
unfolding make_luns Lun.make
make_luns-untouched zero k nb = tt
make_luns-untouched (suc n) k nb = (refl, make_luns-untouched n (k + 1) nb)

-- A channel before and after `alloc_blocks`, the entries that were added and the count returned.
pub record Allocates (c c' : OcssdChannel) (us : List AllocUnit) (n : ℕ) : Type 0 where
  pub same : c' ≡ record c { luns = c'.luns; num_used_blocks = c.num_used_blocks + n }
  pub spreads : Spreads c.luns c'.luns us n

share-le : (request n : ℕ) → n ≢ 0 → (request / n) * n ≤ request
share-le request n h = grind arith

pub product-lt : (a b : ℕ) → a < 2 ^ 32 → b < 2 ^ 32 → a * b < 2 ^ 64
product-lt a b h k = grind arith

-- A channel of a device whose sizes fit 32 bits is valid when it is made.
pub make-IsValid : (id n nb : ℕ) → id < 2 ^ 32 → n < 2 ^ 32 → nb < 2 ^ 32 → IsValid (make id n nb)
unfolding make
make-IsValid id n nb hid hn hnb =
    let (v, numbered, len, used) = make_luns-valid n 0 nb hnb in
    record {
      id = hid;
      small = hnb;
      few = hn;
      blocks = omega (arith, product-lt nb n hnb hn);
      count = len;
      luns_valid = v;
      numbered = numbered;
      used_sum = sym used;
    }

module _ {c c' : OcssdChannel} {us : List AllocUnit} {n : ℕ} (v : IsValid c) where
  -- `alloc_blocks` keeps the invariant.
  pub Allocates-IsValid : Allocates c c' us n → IsValid c'
  Allocates-IsValid a =
      let (grown, len, counts, few) = Spreads-total a.spreads in
      rw a.same (record {
        id = v.id;
        small = v.small;
        few = v.few;
        blocks = v.blocks;
        count = len ∙ v.count;
        luns_valid = Spreads-IsLun c.num_blocks a.spreads v.luns_valid;
        numbered = Spreads-Numbered 0 a.spreads v.numbered;
        used_sum = omega (arith, grown, v.used_sum);
      })

module _ (c : OcssdChannel) (request : ℕ) (v : IsValid c) where
  pub used_le : c.num_used_blocks ≤ c.num_total_blocks
  used_le = omega (
    arith,
    v.used_sum,
    v.blocks,
    used_total-le c.num_blocks c.luns v.luns_valid,
    ap (λ (t : ℕ). c.num_blocks * t) v.count,
  )

  -- The early return is also what keeps the division from a channel without LUNs.
  luns_ne_zero : c.num_used_blocks ≢ c.num_total_blocks → c.num_luns ≢ 0
  luns_ne_zero h none_left =
      h (omega (arith, used_le, v.blocks, ap (λ (t : ℕ). c.num_blocks * t) none_left))

  spread :
      request < 2 ^ 64
      → c.num_luns ≢ 0
      → Spreading
          (request / c.num_luns)
          c.luns
          []
          0
          (alloc_luns c.num_blocks (request / c.num_luns) c.luns [] request 0)
  spread h ne =
      alloc_luns-Spreading c.num_blocks (request / c.num_luns) c.luns [] request 0 v.luns_valid
        (rw v.count (share-le request c.num_luns ne)) (omega arith)

  alloc_blocks-spread :
      (c.num_used_blocks == c.num_total_blocks || request == 0) ≡ false
      → c.num_luns ≢ 0
      → let s = alloc_luns c.num_blocks (request / c.num_luns) c.luns [] request 0 in
        alloc_blocks c [] request
        ≡ some (
          record c { luns = s.luns; num_used_blocks = add64 c.num_used_blocks s.allocated },
          s.units,
          s.allocated,
        )
  unfolding alloc_blocks div64
  alloc_blocks-spread busy ne = rw (busy, ==_eq_false c.num_luns 0 ne)

  -- The counter of the channel does not wrap.
  no_wrap :
      {ls' : List OcssdLun} {us : List AllocUnit} {n : ℕ}
      → Spreads c.luns ls' us n
      → add64 c.num_used_blocks n ≡ c.num_used_blocks + n
  no_wrap {ls'} p =
      let (grown, len, counts, few) = Spreads-total p in
      let bound = used_total-le c.num_blocks ls' (Spreads-IsLun c.num_blocks p v.luns_valid) in
      let cap = product-lt c.num_blocks c.num_luns v.small v.few in
      omega (arith, v.used_sum, grown, bound, cap, ap (λ (t : ℕ). c.num_blocks * t) (len ∙ v.count))

  -- On a valid channel `alloc_blocks` divides by no zero; it returns no more than was asked for, and
  -- the counters grow by what the LUNs hand out.
  pub alloc_blocks-Allocates :
      request < 2 ^ 64
      → (c' : OcssdChannel) × (us : List AllocUnit) × (n : ℕ) × (alloc_blocks c [] request
          ≡ some (c', us, n))
        × (n ≤ request)
        × Allocates c c' us n
  unfolding alloc_blocks
  alloc_blocks-Allocates h =
      elim (Bool-cases (c.num_used_blocks == c.num_total_blocks || request == 0)) [
        | inl idle ↦
            (c, [], 0, rw idle, omega arith, record { same = ground arith; spreads = stop c.luns })
        | inr busy ↦
            let ne : c.num_luns ≢ 0 = luns_ne_zero (ground arith) in
            spreads_out busy ne (spread h ne)
      ]
    where
      spreads_out :
          (c.num_used_blocks == c.num_total_blocks || request == 0) ≡ false
          → c.num_luns ≢ 0
          → Spreading
              (request / c.num_luns)
              c.luns
              []
              0
              (alloc_luns c.num_blocks (request / c.num_luns) c.luns [] request 0)
          → (c' : OcssdChannel) × (us : List AllocUnit) × (n : ℕ) × (alloc_blocks c [] request
              ≡ some (c', us, n))
            × (n ≤ request)
            × Allocates c c' us n
      spreads_out busy ne p = (
        record c { luns = _; num_used_blocks = c.num_used_blocks + p.count },
        p.new,
        p.count,
        alloc_blocks-spread busy ne ∙ rw (p.units, p.allocated, zero-add, no_wrap p.spreads),
        omega (
          arith,
          p.bounded,
          share-le request c.num_luns ne,
          ap (λ (t : ℕ). request / c.num_luns * t) v.count,
        ),
        record { same = refl; spreads = p.spreads },
      )

-- The flags are no part of the invariant.
pub flags-IsValid :
    (c : OcssdChannel) (shared used : ℕ)
    → IsValid c
    → IsValid (record c { shared = shared; used = used })
flags-IsValid c shared used v = record {
  id = v.id;
  small = v.small;
  few = v.few;
  blocks = v.blocks;
  count = v.count;
  luns_valid = v.luns_valid;
  numbered = v.numbered;
  used_sum = v.used_sum;
}
