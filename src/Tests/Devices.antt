-- ===== src/Tests/Devices.antt =====
-- A node with one device of six channels, each of two LUNs with eight blocks.
use light_nvm.Base.{
  ℕ, ◌+◌, ◌-◌, ◌≤◌, ◌≡◌, ◌≢◌, refl, arith, List, [], ◌∷◌, ◌++◌, Option, none, some, length, total,
  subst, sym, ap, inc_int,
}
use light_nvm.Request.Alloc.{AllocRequest}
use light_nvm.Vssd.Channel.{VirtualChannel, AllocUnit}
use light_nvm.Vssd.Member.{VirtualUnit, NvmGeo}
use light_nvm.Vssd.Ssd.{VirtualOcssd}
use light_nvm.Vssd.Ssd
use light_nvm.Device.Lun.{OcssdLun}
use light_nvm.Device.Lun
use light_nvm.Device.Lun.Alloc.{IsLun, alloc_blocks-min}
use light_nvm.Device.Channel.{OcssdChannel}
use light_nvm.Device.Channel
use light_nvm.Device.Channel.Valid.{Allocates, make-IsValid, alloc_blocks-Allocates}
use light_nvm.Device.Drive.{OcssdUnit}
use light_nvm.Device.Drive
use light_nvm.Device.Drive.Valid.{Gives, channels_of}
use light_nvm.Device.Drive.Make.{NewDevice, make-NewDevice}
use light_nvm.Device.Drive.Grant.{with_granted, alloc_channels-Gives}
use light_nvm.Device.Drive.Stats.{with_room, available, get_ocssd_stats_lem}
use light_nvm.Device.Manager.{OcssdManager}
use light_nvm.Device.Manager
use light_nvm.Device.Manager.Grant.{IsManager, Serves, granted, alloc_ocssd_resource-Serves}
use light_nvm.Device.Manager.Devices.{Adds, make-IsManager, add_ocssd-Adds}
use light_nvm.Device.Manager.History.{Served, serve, serve-Served}
use light_nvm.Tests.Virtual.{geo, name}

abbrev half_used : OcssdLun
half_used = record { lun_id = 1; num_used = 5; num_blocks = 8 }

-- Of five blocks that are asked for, the three that are left are handed out.
alloc_blocks-min_example :
    let (l, unit, count) = Lun.alloc_blocks half_used (0, 0) 5 in
    (count ≡ 3)
    × (l ≡ record half_used { num_used = 5 + count })
    × IsLun 8 l
    × (count ≢ 0 → unit ≡ (5, count))
    × (count ≡ 0 → unit ≡ (0, 0))
alloc_blocks-min_example =
    alloc_blocks-min (record { size = refl; small = omega arith; within = omega arith }) (0, 0) 5

alloc_blocks-Allocates_example :
    (c' : OcssdChannel) × (us : List AllocUnit) × (n : ℕ) × (Channel.alloc_blocks
        (Channel.make 0 2 8)
        []
        5
      ≡ some (c', us, n))
    × (n ≤ 5)
    × Allocates (Channel.make 0 2 8) c' us n
alloc_blocks-Allocates_example =
    alloc_blocks-Allocates (Channel.make 0 2 8) 5
      (make-IsValid 0 2 8 (omega arith) (omega arith) (omega arith)) (omega arith)

abbrev unit_of : Option OcssdUnit → OcssdUnit
unit_of none = record {
  ip = [];
  name = [];
  desc = [];
  geo = geo;
  channel_count = 0;
  shared_channels = [];
  exclusive_channels = [];
}
unit_of (some u) = u

abbrev device : OcssdUnit
device = unit_of (Drive.make [] name geo)

device-new : NewDevice name geo device
device-new =
    let (u, run, new) =
      make-NewDevice [] name geo (omega arith) (omega arith) (omega arith) (omega arith)
        (omega arith) (omega arith) in
    subst (NewDevice name geo) (sym (ap unit_of run)) new

make-NewDevice_example : (u : OcssdUnit) × (Drive.make [] name geo ≡ some u) × NewDevice name geo u
make-NewDevice_example =
    make-NewDevice [] name geo (omega arith) (omega arith) (omega arith) (omega arith) (omega arith)
      (omega arith)

abbrev pub two_shared : AllocRequest
two_shared = record { num_channels = 2; num_blocks = 8; shared = 1; numa_id = 0; remote = 0 }

abbrev three_whole : AllocRequest
three_whole = record { num_channels = 3; num_blocks = 0; shared = 0; numa_id = 0; remote = 0 }

alloc_channels-Gives_example :
    (u' : OcssdUnit) × (vs : List VirtualChannel) × (Drive.alloc_channels device Ssd.make two_shared
      ≡ some (u', with_granted Ssd.make device vs, length vs))
    × (length vs ≤ 2)
    × Gives device u' vs
alloc_channels-Gives_example =
    alloc_channels-Gives device device-new.device two_shared (omega arith) Ssd.make

get_ocssd_stats_example : Drive.get_ocssd_stats device ≡ (
  with_room device.shared_channels,
  with_room device.exclusive_channels,
  total available (channels_of device),
)
unfolding Drive.make Drive.add_channels Drive.add_channel Channel.make inc_int
get_ocssd_stats_example = get_ocssd_stats_lem device device-new.device (omega arith) (omega arith)

abbrev pub node : OcssdManager
node = record { ip = []; ocssds = device ∷ []; count = 1; vssd_id = 7 }

pub node-IsManager : IsManager node
node-IsManager = record {
  devices = (device-new.device, tt);
  distinct = (tt, tt);
  few = omega arith;
  id_fits = omega arith;
}

abbrev opens : List ℕ → Option NvmGeo
opens _ = some geo

add_ocssd-Adds_example :
    (m : OcssdManager) × (Manager.add_ocssd opens (Manager.make []) name ≡ some m)
    × Adds (Manager.make []) m name geo
unfolding Manager.make
add_ocssd-Adds_example =
    add_ocssd-Adds opens (Manager.make []) name geo (make-IsManager []) refl tt (omega arith)
      (omega arith) (omega arith) (omega arith) (omega arith) (omega arith) (omega arith)
      (omega arith)

alloc_ocssd_resource-Serves_example :
    (m : OcssdManager) × (ms : List VirtualUnit) × (Manager.alloc_ocssd_resource node Ssd.make
        two_shared
      ≡ some (
        m,
        record { id = 7; units = Ssd.make.units ++ ms },
        record two_shared { num_channels = 2 - granted ms },
        granted ms,
      ))
    × (granted ms ≤ 2)
    × Serves node m ms
alloc_ocssd_resource-Serves_example =
    alloc_ocssd_resource-Serves node Ssd.make two_shared node-IsManager (omega arith)

serve-Served_example :
    (m : OcssdManager) × (vs : List VirtualOcssd) × (serve node (two_shared ∷ three_whole ∷ [])
      ≡ some (m, vs))
    × (length vs ≡ 2)
    × Served node m vs
serve-Served_example =
    serve-Served node (two_shared ∷ three_whole ∷ []) node-IsManager
      (omega arith, (omega arith, tt))
