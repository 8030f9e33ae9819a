-- ===== src/Device/Lun/Alloc.antt =====
-- What one LUN hands out.
use light_nvm.Base.{
  ℕ, min, ◌+◌, ◌-◌, ◌^◌, ◌<◌, ◌≤◌, ◌≡◌, ◌≢◌, ◌⊎◌, inl, inr, refl, arith, ◌==◌, Bool-cases,
}
use light_nvm.Device.Lun.{OcssdLun, make, alloc_blocks}

-- The LUN has `num_blocks` blocks, a number below 2 ^ 32, and has handed out no more than that.
pub record IsLun (num_blocks : ℕ) (l : OcssdLun) : Type 0 where
  pub size : l.num_blocks ≡ num_blocks
  pub small : num_blocks < 2 ^ 32
  pub within : l.num_used ≤ num_blocks

pub make-IsLun : (id n : ℕ) → n < 2 ^ 32 → IsLun n (make id n)
unfolding make
make-IsLun id n h = record { size = refl; small = h; within = omega arith }

module _ {n : ℕ} {l : OcssdLun} (v : IsLun n l) (unit : ℕ × ℕ) (request : ℕ) where
  -- A LUN hands out as many blocks as are asked for, or all that are left if these are fewer, and
  -- stays valid. The blocks follow those that were handed out before; where there are none,
  -- `block_unit` stays as it was.
  pub alloc_blocks-min :
      let (l', unit', count) = alloc_blocks l unit request in
      (count ≡ min request (l.num_blocks - l.num_used))
      × (l' ≡ record l { num_used = l.num_used + count })
      × IsLun n l'
      × (count ≢ 0 → unit' ≡ (l.num_used, count))
      × (count ≡ 0 → unit' ≡ unit)
  unfolding alloc_blocks
  alloc_blocks-min = ground arith

  -- The two outcomes of a LUN that is not used up.
  pub alloc_blocks_cases :
      l.num_used < n
      → ((request ≡ 0) × (alloc_blocks l unit request ≡ (l, unit, 0)))
        ⊎ ((k : ℕ) × (0 < k)
            × (k ≤ request)
            × (l.num_used + k ≤ l.num_blocks)
            × (alloc_blocks l unit request
                ≡ (record l { num_used = l.num_used + k }, (l.num_used, k), k)))
  unfolding alloc_blocks
  alloc_blocks_cases h = elim (Bool-cases (request == 0)) [
    | inl e ↦ inl (ground arith, ground arith)
    | inr e ↦ inr (
      min request (l.num_blocks - l.num_used),
      ground arith,
      omega arith,
      ground arith,
      ground arith,
    )
  ]
