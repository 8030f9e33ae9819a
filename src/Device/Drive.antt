-- ===== src/Device/Drive.antt =====
-- `ocssd_unit`: one physical device. liblightnvm opens it and tells its geometry; both are arguments.
pub mod Moves
pub mod Ledger
pub mod Shared
pub mod Exclusive
pub mod Valid
pub mod Grant
pub mod Make
pub mod Counted
pub mod Stats
use light_nvm.Base.{
  inc_int, ℕ, zero, suc, ◌+◌, List, [], ◌∷◌, ◌++◌, length, map, Option, some, not, ◌==◌, ltb,
  if◌then◌else◌, add64, div64,
}
use mathlib.Core.Option
use light_nvm.Base.Partial.{◌>>=◌}
use light_nvm.Request.Alloc.{AllocRequest}
use light_nvm.Vssd.Channel
use light_nvm.Vssd.Member.{VirtualUnit, NvmGeo}
use light_nvm.Vssd.Member
use light_nvm.Vssd.Ssd.{VirtualOcssd}
use light_nvm.Vssd.Ssd
use light_nvm.Device.Channel as Chan
use light_nvm.Device.Channel.{OcssdChannel}

pub record OcssdUnit : Type 0 where
  pub ip : List ℕ
  pub name : List ℕ
  pub desc : List ℕ
  pub geo : NvmGeo
  pub channel_count : ℕ
  pub shared_channels : List OcssdChannel
  pub exclusive_channels : List OcssdChannel

-- `std::replace(desc.begin(), desc.end(), '/', '_')`
unfoldable pub replace_slash : ℕ → ℕ
replace_slash ch = if ch == b'/' then b'_' else ch

unfoldable pub assign_to_shared : OcssdUnit → ℕ
assign_to_shared u = if ltb (length u.shared_channels) 4 then 1 else 0

-- The body of the loop of `initialize_dev`; `channel_count_` is an `int`.
unfoldable pub add_channel : OcssdUnit → ℕ → Option OcssdUnit
unfolding assign_to_shared Chan.make Chan.set_shared inc_int
add_channel u channel_id = do
  let channel = Chan.make channel_id u.geo.nluns u.geo.nblocks
  count ← inc_int u.channel_count
  let counted : OcssdUnit = record u { channel_count = count }
  some (
      if not (assign_to_shared u == 0)
      then record counted { shared_channels = u.shared_channels ++ Chan.set_shared channel ∷ [] }
      else record counted { exclusive_channels = u.exclusive_channels ++ channel ∷ [] })

-- The loop, `n` rounds from `channel_id` on.
unfoldable pub add_channels : ℕ → ℕ → OcssdUnit → Option OcssdUnit
add_channels zero channel_id u = some u
add_channels (suc n) channel_id u = add_channel u channel_id >>= add_channels n (channel_id + 1)

unfoldable pub initialize_dev : OcssdUnit → Option OcssdUnit
unfolding add_channels add_channel
initialize_dev u = add_channels u.geo.nchannels 0 u

-- The constructor, for a device that liblightnvm has opened with this geometry.
unfoldable pub make : List ℕ → List ℕ → NvmGeo → Option OcssdUnit
unfolding initialize_dev replace_slash
make ip name geo = initialize_dev (record {
  ip = ip;
  name = name;
  desc = map replace_slash (ip ++ name);
  geo = geo;
  channel_count = 0;
  shared_channels = [];
  exclusive_channels = [];
})

-- What a loop that grants channels leaves: the device's channels, the virtual unit and `channels`.
pub record Granted : Type 0 where
  pub left : List OcssdChannel
  pub vunit : VirtualUnit
  pub channels : ℕ

abbrev pub keep_channel : OcssdChannel → Granted → Granted
keep_channel c g = record g { left = c ∷ g.left }

-- The loop of `alloc_shared_channels`, with `blocks_per_channel`, the channels that are wanted, and
-- its variables `vunit` and `channels`.
unfoldable pub alloc_shared_loop : ℕ → ℕ → List OcssdChannel → VirtualUnit → ℕ → Option Granted
unfolding Chan.alloc_blocks Channel.of_units Member.add
alloc_shared_loop blocks want [] vunit channels =
    some (record { left = []; vunit = vunit; channels = channels })
alloc_shared_loop blocks want (c ∷ cs) vunit channels = do
  (c', alloc_units, allocated) ← Chan.alloc_blocks c [] blocks
  let vunit' = Member.add vunit (Channel.of_units c.channel_id 1 alloc_units)
  let channels' = add64 channels 1
  let skipped = Option.map (keep_channel c') (alloc_shared_loop blocks want cs vunit channels)
  let continued = Option.map (keep_channel c') (alloc_shared_loop blocks want cs vunit' channels')
  let stopped : Granted = record { left = c' ∷ cs; vunit = vunit'; channels = channels' }
  if ltb 0 allocated then (if channels' == want then some stopped else continued) else skipped

unfoldable pub alloc_shared_channels :
    OcssdUnit → VirtualUnit → AllocRequest → Option (OcssdUnit × VirtualUnit × ℕ)
unfolding alloc_shared_loop div64
alloc_shared_channels u vunit request = do
  blocks_per_channel ← div64 request.num_blocks request.num_channels
  g ← alloc_shared_loop blocks_per_channel request.num_channels u.shared_channels vunit 0
  some (record u { shared_channels = g.left }, g.vunit, g.channels)

-- The loop of `alloc_exclusive_channels`.
unfoldable pub alloc_exclusive_loop : ℕ → List OcssdChannel → VirtualUnit → ℕ → Granted
unfolding Chan.set_used Channel.make Member.add
alloc_exclusive_loop want [] vunit channels = record {
  left = [];
  vunit = vunit;
  channels = channels;
}
alloc_exclusive_loop want (c ∷ cs) vunit channels =
    let c' = Chan.set_used c in
    let vunit' = Member.add vunit (Channel.make c.channel_id 0 c.num_total_blocks c.num_luns) in
    let channels' = add64 channels 1 in
    let skipped = keep_channel c (alloc_exclusive_loop want cs vunit channels) in
    let continued = keep_channel c' (alloc_exclusive_loop want cs vunit' channels') in
    let stopped : Granted = record { left = c' ∷ cs; vunit = vunit'; channels = channels' } in
    if not (c.used == 0) then skipped else if channels' == want then stopped else continued

unfoldable pub alloc_exclusive_channels :
    OcssdUnit → VirtualUnit → AllocRequest → OcssdUnit × VirtualUnit × ℕ
unfolding alloc_exclusive_loop
alloc_exclusive_channels u vunit request =
    let g = alloc_exclusive_loop request.num_channels u.exclusive_channels vunit 0 in
    (record u { exclusive_channels = g.left }, g.vunit, g.channels)

-- Which of the two `alloc_channels` calls.
unfoldable pub alloc_kind :
    OcssdUnit → VirtualUnit → AllocRequest → Option (OcssdUnit × VirtualUnit × ℕ)
unfolding alloc_shared_channels alloc_exclusive_channels
alloc_kind u vunit request =
    if request.shared == 1
    then alloc_shared_channels u vunit request
    else some (alloc_exclusive_channels u vunit request)

-- The unit and the virtual OCSSD afterwards, and the number of channels that is returned.
unfoldable pub alloc_channels :
    OcssdUnit → VirtualOcssd → AllocRequest → Option (OcssdUnit × VirtualOcssd × ℕ)
unfolding Member.make Ssd.add
alloc_channels u vssd request = if request.num_channels == 0 then some (u, vssd, 0) else (do
  (u', vunit, channels) ← alloc_kind u (Member.make u.name u.geo) request
  some (u', (if channels == 0 then vssd else Ssd.add vssd vunit), channels))

-- The loop of `get_ocssd_stats` over one list: the channels with free blocks, and their free blocks.
unfoldable pub count_free : List OcssdChannel → ℕ × ℕ → ℕ × ℕ
unfolding Chan.get_free_blocks
count_free [] s = s
count_free (c ∷ cs) (channels, blocks) = count_free cs (
    if ltb 0 (Chan.get_free_blocks c)
    then (add64 channels 1, add64 blocks (Chan.get_free_blocks c))
    else (channels, blocks))

-- `numSharedChannels`, `numExclusiveChannels` and `freeBlocks`.
unfoldable pub get_ocssd_stats : OcssdUnit → ℕ × ℕ × ℕ
unfolding count_free
get_ocssd_stats u =
    let (shared, blocks) = count_free u.shared_channels (0, 0) in
    let (exclusive, blocks') = count_free u.exclusive_channels (0, blocks) in
    (shared, exclusive, blocks')
