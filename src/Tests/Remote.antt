-- ===== src/Tests/Remote.antt =====
-- A client that was granted two shared channels, and its virtual blocks.
use light_nvm.Base.{
  ℕ, ◌≡◌, inl, refl, sym, ap, ◌∙◌, arith, List, [], ◌∷◌, subst, Any, All, Option, none, some,
}
use light_nvm.Vssd.Lun as VLun
use light_nvm.Vssd.Channel as VChannel
use light_nvm.Vssd.Channel.{VirtualChannel}
use light_nvm.Vssd.Member
use light_nvm.Vssd.Member.{VirtualUnit}
use light_nvm.Vssd.Ssd.{VirtualOcssd}
use light_nvm.Vssd.Ssd
use light_nvm.Request.Alloc.{AllocRequest, dec_channels}
use light_nvm.Device.Lun
use light_nvm.Device.Channel
use light_nvm.Device.Drive
use light_nvm.Device.Manager.{OcssdManager, alloc_ocssd_resource, alloc_units}
use light_nvm.Device.Manager.Grant.{Serves, alloc_ocssd_resource-Serves}
use light_nvm.Conn.Addresses.Stripes.{runs}
use light_nvm.Conn.Blocks.{Blocks, initialize_vssd_blocks}
use light_nvm.Conn.Blocks.Picks.{Kept}
use light_nvm.Conn.Blocks.Served.{NewOn, served-Kept}
use light_nvm.Tests.Virtual.{geo, name}
use light_nvm.Tests.Devices.{node, node-IsManager, two_shared}
use light_nvm.Tests.Conn.{nvm, law, before}

abbrev units_of : Option (OcssdManager × VirtualOcssd × AllocRequest × ℕ) → List VirtualUnit
units_of none = []
units_of (some (m, v, r, n)) = v.units

abbrev shared_two : ℕ → VirtualChannel
shared_two id = record {
  channel_id = id;
  shared = 1;
  total_blocks = 4;
  num_luns = 2;
  luns =
      record { lun_id = 0; block_start = 0; num_blocks = 2 }
      ∷ record { lun_id = 1; block_start = 0; num_blocks = 2 }
      ∷ [];
}

abbrev unit : VirtualUnit
unit = record { dev_name = name; geo = geo; channels = shared_two 0 ∷ shared_two 1 ∷ [] }

run_units : units_of (alloc_ocssd_resource node Ssd.make two_shared) ≡ unit ∷ []
unfolding alloc_ocssd_resource alloc_units dec_channels Ssd.make Ssd.add Ssd.set_id Drive.make
    Drive.initialize_dev Drive.add_channels Drive.add_channel Drive.assign_to_shared
    Drive.alloc_channels Drive.alloc_kind Drive.alloc_shared_channels Drive.alloc_shared_loop
    Channel.make Channel.make_luns Channel.set_shared Channel.alloc_blocks Channel.alloc_luns
    Channel.get_free_blocks Lun.make Lun.alloc_blocks VLun.make VChannel.make VChannel.of_units
    VChannel.add_units VChannel.add_unit Member.make Member.add
run_units = refl

-- The node after it has served the request, and what it has granted.
granted_units : (m : OcssdManager) × (us : List VirtualUnit) × Serves node m us × (us ≡ unit ∷ [])
unfolding Ssd.make
granted_units =
    let (m, us, run, le, s) =
      alloc_ocssd_resource-Serves node Ssd.make two_shared node-IsManager (omega arith) in
    (m, us, s, start run ∙ run_units)
  where
    start :
        {m : OcssdManager} {us : List VirtualUnit} {r : AllocRequest} {n : ℕ}
        → alloc_ocssd_resource node Ssd.make two_shared
          ≡ some (m, record { id = 7; units = us }, r, n)
        → us ≡ units_of (alloc_ocssd_resource node Ssd.make two_shared)
    start run = ap units_of (sym run)

granted_unit : (us : List VirtualUnit) → us ≡ unit ∷ [] → Any (λ x. x ≡ unit) us
granted_unit us e = subst (Any (λ x. x ≡ unit)) (sym e) (inl refl)

served-Kept_example :
    (b' : Blocks nvm) × (initialize_vssd_blocks nvm 3 geo unit before ≡ some b')
    × (kept : Kept nvm law (runs geo unit.channels) 0 before b') × All
        (λ blk. All (NewOn node granted_units.1 name) blk)
        kept.new
served-Kept_example =
    served-Kept nvm law node granted_units.0 granted_units.1 unit geo 3 before node-IsManager
      granted_units.2 (granted_unit granted_units.1 granted_units.3) (omega arith)
      (λ addrs d e. cc e) (omega arith) (omega arith) (omega arith)
