-- ===== src/Device/Manager.antt =====
-- `ocssd_manager`: all the devices of a node, and the numbering of the virtual OCSSDs.
pub mod Ledger
pub mod Grant
pub mod History
pub mod Devices
use light_nvm.Base.{inc_int, ℕ, ◌+◌, List, [], ◌∷◌, ◌++◌, Option, some, ◌==◌, if◌then◌else◌, add64}
use mathlib.Core.Option
use light_nvm.Base.Partial.{◌>>=◌}
use light_nvm.Wire.Cursor.{u32}
use light_nvm.Request.Alloc.{AllocRequest, dec_channels}
use light_nvm.Vssd.Member.{NvmGeo}
use light_nvm.Vssd.Ssd.{VirtualOcssd}
use light_nvm.Vssd.Ssd
use light_nvm.Device.Drive.{OcssdUnit}
use light_nvm.Device.Drive

pub record OcssdManager : Type 0 where
  pub ip : List ℕ
  pub ocssds : List OcssdUnit
  pub count : ℕ
  pub vssd_id : ℕ

unfoldable pub make : List ℕ → OcssdManager
make ip = record { ip = ip; ocssds = []; count = 0; vssd_id = 0 }

-- `opened` is the geometry of the device that `nvm_dev_open` gives; without one the constructor of
-- the unit throws, and the manager stays as it is; that is `none`, and so is an overflow of an `int`.
unfoldable pub add_ocssd : (List ℕ → Option NvmGeo) → OcssdManager → List ℕ → Option OcssdManager
unfolding Drive.make inc_int
add_ocssd opened m name = do
  geo ← opened name
  unit ← Drive.make m.ip name geo
  count ← inc_int m.count
  some (record m { ocssds = m.ocssds ++ unit ∷ []; count = count })

-- What the loop over the units leaves: the units, `vssd`, `request` and `channels`.
pub record Allocated : Type 0 where
  pub ocssds : List OcssdUnit
  pub vssd : VirtualOcssd
  pub request : AllocRequest
  pub channels : ℕ

abbrev pub keep_unit : OcssdUnit → Allocated → Allocated
keep_unit u a = record a { ocssds = u ∷ a.ocssds }

unfoldable pub alloc_units : List OcssdUnit → VirtualOcssd → AllocRequest → ℕ → Option Allocated
unfolding Drive.alloc_channels dec_channels
alloc_units [] vssd request channels =
    some (record { ocssds = []; vssd = vssd; request = request; channels = channels })
alloc_units (u ∷ us) vssd request channels = do
  (u', vssd', ret) ← Drive.alloc_channels u vssd request
  let channels' = add64 channels ret
  let request' = dec_channels request ret
  let stopped : Allocated = record {
    ocssds = u' ∷ us;
    vssd = vssd';
    request = request';
    channels = channels';
  }
  let continued = Option.map (keep_unit u') (alloc_units us vssd' request' channels')
  if request'.num_channels == 0 then some stopped else continued

-- The manager, the virtual OCSSD and the request afterwards, and the number of channels.
unfoldable pub alloc_ocssd_resource :
    OcssdManager
    → VirtualOcssd
    → AllocRequest
    → Option (OcssdManager × VirtualOcssd × AllocRequest × ℕ)
unfolding alloc_units Ssd.set_id
alloc_ocssd_resource m vssd request = do
  a ← alloc_units m.ocssds vssd request 0
  some (
    record m { ocssds = a.ocssds; vssd_id = u32 (m.vssd_id + 1) },
    Ssd.set_id a.vssd m.vssd_id,
    a.request,
    a.channels,
  )
