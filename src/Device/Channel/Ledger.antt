-- ===== src/Device/Channel/Ledger.antt =====
-- Which blocks of a channel's LUNs are in use, and which an `alloc_units` list grants.
use light_nvm.Base.{
  ℕ, suc, ◌+◌, ◌<◌, ◌≤◌, ◌≡◌, ◌⊎◌, inl, inr, ap, ◌∙◌, arith, List, [], ◌∷◌, length, total, All, Any,
  ◌↔◌,
}
use light_nvm.Vssd.Channel.{AllocUnit}
use light_nvm.Device.Lun.{OcssdLun}
use light_nvm.Device.Lun.Alloc.{IsLun}
use light_nvm.Device.Channel.Spreads.{Spreads, stop, skip, empty, give}

-- Block `b` of the LUN `lun` has been handed out.
abbrev pub UsedIn : List OcssdLun → ℕ → ℕ → Type 0
UsedIn ls lun b = Any (λ l. (l.lun_id ≡ lun) × (b < l.num_used)) ls

-- Block `b` of the LUN `lun` is in an entry of the list.
abbrev pub OwnedIn : List AllocUnit → ℕ → ℕ → Type 0
OwnedIn us lun b = Any (λ u. (u.0 ≡ lun) × (u.1.0 ≤ b) × (b < u.1.0 + u.1.1)) us

-- The LUNs are numbered from `k` on.
abbrev pub Numbered : ℕ → List OcssdLun → Type 0
Numbered k [] = Unit
Numbered k (l ∷ ls) = (l.lun_id ≡ k) × Numbered (suc k) ls

abbrev pub used_total : List OcssdLun → ℕ
used_total ls = total (λ l. l.num_used) ls

pub Spreads-Numbered :
    {ls ls' : List OcssdLun} {us : List AllocUnit} {n : ℕ} (k : ℕ)
    → Spreads ls ls' us n
    → Numbered k ls
    → Numbered k ls'
Spreads-Numbered k (stop ls) h = h
Spreads-Numbered k (skip l s) h = (h.0, Spreads-Numbered (suc k) s h.1)
Spreads-Numbered k (empty l s) h = (h.0, Spreads-Numbered (suc k) s h.1)
Spreads-Numbered k (give l l' m e pos fits s) h =
    (ap (λ (x : OcssdLun). x.lun_id) e ∙ h.0, Spreads-Numbered (suc k) s h.1)

pub Spreads-IsLun :
    {ls ls' : List OcssdLun} {us : List AllocUnit} {n : ℕ} (nb : ℕ)
    → Spreads ls ls' us n
    → All (IsLun nb) ls
    → All (IsLun nb) ls'
Spreads-IsLun nb (stop ls) h = h
Spreads-IsLun nb (skip l s) h = (h.0, Spreads-IsLun nb s h.1)
Spreads-IsLun nb (empty l s) h = (h.0, Spreads-IsLun nb s h.1)
Spreads-IsLun nb (give l l' m e pos fits s) h = (rw e (ground (arith, h.0)), Spreads-IsLun nb s h.1)

-- The blocks in use grow by those that were handed out, and the LUNs stay as many.
pub Spreads-total :
    {ls ls' : List OcssdLun} {us : List AllocUnit} {n : ℕ}
    → Spreads ls ls' us n
    → (used_total ls' ≡ used_total ls + n)
      × (length ls' ≡ length ls)
      × (total (λ u. u.1.1) us ≡ n)
      × (length us ≤ length ls)
Spreads-total (stop ls) = omega arith
Spreads-total (skip l s) = omega (arith, Spreads-total s)
Spreads-total (empty l s) = omega (arith, Spreads-total s)
Spreads-total (give l l' m e pos fits s) =
    omega (arith, Spreads-total s, ap (λ (x : OcssdLun). x.num_used) e)

-- A block that is handed out lies in a LUN of the list and was not in use.
OwnedIn-ge :
    {ls ls' : List OcssdLun} {us : List AllocUnit} {n : ℕ} (k lun b : ℕ)
    → Spreads ls ls' us n
    → Numbered k ls
    → OwnedIn us lun b
    → k ≤ lun
OwnedIn-ge k lun b (stop ls) h o = elim o [ ]
OwnedIn-ge k lun b (skip l s) h o = omega (arith, OwnedIn-ge (suc k) lun b s h.1 o)
OwnedIn-ge k lun b (empty l s) h (inl o) = omega arith
OwnedIn-ge k lun b (empty l s) h (inr o) = omega (arith, OwnedIn-ge (suc k) lun b s h.1 o)
OwnedIn-ge k lun b (give l l' m e pos fits s) h (inl o) = omega arith
OwnedIn-ge k lun b (give l l' m e pos fits s) h (inr o) =
    omega (arith, OwnedIn-ge (suc k) lun b s h.1 o)

UsedIn-ge : (ls : List OcssdLun) (k lun b : ℕ) → Numbered k ls → UsedIn ls lun b → k ≤ lun
UsedIn-ge [] k lun b h u = elim u [ ]
UsedIn-ge (l ∷ ls) k lun b h (inl u) = omega arith
UsedIn-ge (l ∷ ls) k lun b h (inr u) = omega (arith, UsedIn-ge ls (suc k) lun b h.1 u)

-- No block that is handed out was in use.
pub Spreads-fresh :
    {ls ls' : List OcssdLun} {us : List AllocUnit} {n : ℕ} (k lun b : ℕ)
    → Spreads ls ls' us n
    → Numbered k ls
    → OwnedIn us lun b
    → ¬ UsedIn ls lun b
Spreads-fresh k lun b (stop ls) h o u = elim o [ ]
Spreads-fresh k lun b (skip l s) h o (inl u) =
    absurd (omega (arith, OwnedIn-ge (suc k) lun b s h.1 o))
Spreads-fresh k lun b (skip l s) h o (inr u) = Spreads-fresh (suc k) lun b s h.1 o u
Spreads-fresh k lun b (empty l s) h (inl o) u = absurd (omega arith)
Spreads-fresh k lun b (empty l s) h (inr o) (inl u) =
    absurd (omega (arith, OwnedIn-ge (suc k) lun b s h.1 o))
Spreads-fresh k lun b (empty l s) h (inr o) (inr u) = Spreads-fresh (suc k) lun b s h.1 o u
Spreads-fresh k lun b (give l l' m e pos fits s) h (inl o) (inl u) = absurd (omega arith)
Spreads-fresh k lun b (give l l' m {ls = ls} e pos fits s) h (inl o) (inr u) =
    absurd (omega (arith, UsedIn-ge ls (suc k) lun b h.1 u))
Spreads-fresh k lun b (give l l' m e pos fits s) h (inr o) (inl u) =
    absurd (omega (arith, OwnedIn-ge (suc k) lun b s h.1 o))
Spreads-fresh k lun b (give l l' m e pos fits s) h (inr o) (inr u) =
    Spreads-fresh (suc k) lun b s h.1 o u

-- Afterwards exactly the blocks in use before and those that were handed out are in use.
pub Spreads-used :
    {ls ls' : List OcssdLun} {us : List AllocUnit} {n : ℕ} (lun b : ℕ)
    → Spreads ls ls' us n
    → UsedIn ls' lun b ↔ (UsedIn ls lun b ⊎ OwnedIn us lun b)
Spreads-used lun b s = (after s, before s)
  where
    after :
        {ls ls' : List OcssdLun} {us : List AllocUnit} {n : ℕ}
        → Spreads ls ls' us n
        → UsedIn ls' lun b
        → UsedIn ls lun b ⊎ OwnedIn us lun b
    after (stop ls) u = inl u
    after (skip l s) (inl u) = inl (inl u)
    after (skip l s) (inr u) = ground (arith, after s u)
    after (empty l s) (inl u) = inl (inl u)
    after (empty l s) (inr u) = ground (arith, after s u)
    after (give l l' m e pos fits s) (inl u) = grind (arith, e)
    after (give l l' m e pos fits s) (inr u) = ground (arith, after s u)

    before :
        {ls ls' : List OcssdLun} {us : List AllocUnit} {n : ℕ}
        → Spreads ls ls' us n
        → UsedIn ls lun b ⊎ OwnedIn us lun b
        → UsedIn ls' lun b
    before (stop ls) (inl u) = u
    before (stop ls) (inr o) = elim o [ ]
    before (skip l s) (inl (inl u)) = inl u
    before (skip l s) (inl (inr u)) = inr (before s (inl u))
    before (skip l s) (inr o) = inr (before s (inr o))
    before (empty l s) (inl (inl u)) = inl u
    before (empty l s) (inl (inr u)) = inr (before s (inl u))
    before (empty l s) (inr (inl o)) = absurd (omega arith)
    before (empty l s) (inr (inr o)) = inr (before s (inr o))
    before (give l l' m e pos fits s) (inl (inl u)) = inl (rw e (ground arith))
    before (give l l' m e pos fits s) (inl (inr u)) = inr (before s (inl u))
    before (give l l' m e pos fits s) (inr (inl o)) = inl (rw e (ground arith))
    before (give l l' m e pos fits s) (inr (inr o)) = inr (before s (inr o))
