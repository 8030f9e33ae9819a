-- ===== src/Device/Drive/Stats.antt =====
-- `ocssd_unit::get_ocssd_stats`: the numbers that are published of a device.
use light_nvm.Base.{
  ℕ, ◌+◌, ◌-◌, ◌*◌, ◌^◌, ◌<◌, ◌≤◌, ◌≡◌, inl, inr, ap₂, ◌∙◌, arith, List, [], ◌∷◌, ◌++◌, length,
  length-append, total, All, All-map, Bool-cases, false, ltb, ◌==◌, if◌then◌else◌,
}
use light_nvm.Device.Channel.{OcssdChannel, get_free_blocks}
use light_nvm.Device.Channel.Valid.{IsValid, used_le, product-lt}
use light_nvm.Device.Channel.Ledger.{used_total}
use light_nvm.Device.Drive.{OcssdUnit, count_free, get_ocssd_stats}
use light_nvm.Device.Drive.Valid.{IsDevice, channels_of}

-- The blocks of a channel, and those that can still be granted: none of a channel that is granted
-- whole, and of any other those that no LUN has handed out.
abbrev pub capacity : OcssdChannel → ℕ
capacity c = c.num_blocks * c.num_luns

abbrev pub available : OcssdChannel → ℕ
available c = if c.used == 0 then capacity c - used_total c.luns else 0

-- How many channels of a list have a block that can be granted.
abbrev pub with_room : List OcssdChannel → ℕ
with_room cs = total (λ c. if ltb 0 (available c) then 1 else 0) cs

get_free_blocks-available : (c : OcssdChannel) → IsValid c → get_free_blocks c ≡ available c
unfolding get_free_blocks
get_free_blocks-available c v = elim (Bool-cases (c.used == 0)) [
  | inl free ↦ rw free (
      omega (
        arith,
        used_le c 0 v,
        v.blocks,
        v.used_sum,
        product-lt c.num_blocks c.num_luns v.small v.few,
      ))
  | inr taken ↦ rw taken
]

available-le : (c : OcssdChannel) → available c ≤ capacity c
available-le c = ground arith

total-le : (cs : List OcssdChannel) → total available cs ≤ total capacity cs
total-le [] = omega arith
total-le (c ∷ cs) = omega (arith, total-le cs, available-le c)

total-append :
    (f : OcssdChannel → ℕ) (cs ds : List OcssdChannel)
    → total f (cs ++ ds) ≡ total f cs + total f ds
total-append f [] ds = omega arith
total-append f (c ∷ cs) ds = omega (arith, total-append f cs ds)

zero_of : {n : ℕ} → ltb 0 n ≡ false → n ≡ 0
zero_of h = ground arith

-- One round of the loop.
count_free-cons :
    (c : OcssdChannel) (cs : List OcssdChannel) (n b : ℕ)
    → IsValid c
    → n + 1 < 2 ^ 64
    → b + available c < 2 ^ 64
    → count_free (c ∷ cs) (n, b)
      ≡ count_free cs (n + (if ltb 0 (available c) then 1 else 0), b + available c)
unfolding count_free
count_free-cons c cs n b v few small =
    rw (get_free_blocks-available c v) (elim (Bool-cases (ltb 0 (available c))) [
      | inl some_left ↦
          rw some_left (ap₂ (λ (x y : ℕ). count_free cs (x, y)) (omega arith) (omega arith))
      | inr none_left ↦
          rw none_left (
            ap₂ (λ (x y : ℕ). count_free cs (x, y)) (omega arith)
              (omega (arith, zero_of none_left)))
    ])

count_free_lem :
    (cs : List OcssdChannel) (n b : ℕ)
    → All IsValid cs
    → n + length cs < 2 ^ 64
    → b + total capacity cs < 2 ^ 64
    → count_free cs (n, b) ≡ (n + with_room cs, b + total available cs)
unfolding count_free
count_free_lem [] n b v few small = ap₂ (λ (x y : ℕ). (x, y)) (omega arith) (omega arith)
count_free_lem (c ∷ cs) n b v few small =
    let one : ℕ = if ltb 0 (available c) then 1 else 0 in
    let le : one ≤ 1 = ground arith in
    let room = available-le c in
    count_free-cons c cs n b v.0 (omega arith) (omega (arith, room))
    ∙ count_free_lem cs (n + one) (b + available c) v.1 (omega (arith, le)) (omega (arith, room))
    ∙ ap₂ (λ (x y : ℕ). (x, y)) (omega arith) (omega arith)

stats_sum :
    (u : OcssdUnit)
    → ◌≡◌ {A = ℕ × ℕ × ℕ}
        (
          0 + with_room u.shared_channels,
          0 + with_room u.exclusive_channels,
          0 + total available u.shared_channels + total available u.exclusive_channels,
        )
        (
          with_room u.shared_channels,
          with_room u.exclusive_channels,
          total available (channels_of u),
        )
stats_sum u = ground (arith, total-append available u.shared_channels u.exclusive_channels)

-- Of a well-formed device whose channels and blocks are not too many for `size_t`,
-- `get_ocssd_stats` gives the number of shared channels with a block that can be granted, that of
-- exclusive channels, and the number of all blocks that can be granted; no sum wraps.
pub get_ocssd_stats_lem :
    (u : OcssdUnit)
    → IsDevice u
    → length (channels_of u) < 2 ^ 64
    → total capacity (channels_of u) < 2 ^ 64
    → get_ocssd_stats u ≡ (
      with_room u.shared_channels,
      with_room u.exclusive_channels,
      total available (channels_of u),
    )
unfolding get_ocssd_stats
get_ocssd_stats_lem u d few small =
    let lens = length-append u.shared_channels u.exclusive_channels in
    let sizes = total-append capacity u.shared_channels u.exclusive_channels in
    let shared = total-le u.shared_channels in
    rw
      (
        count_free_lem u.shared_channels 0 0
            (All-map (λ c s. s.valid) u.shared_channels d.all_shared) (omega (arith, lens))
            (omega (arith, sizes)),
        count_free_lem u.exclusive_channels 0 (0 + total available u.shared_channels)
            (All-map (λ c s. s.valid) u.exclusive_channels d.all_exclusive) (omega (arith, lens))
            (omega (arith, sizes, shared)),
      )
      (stats_sum u)
