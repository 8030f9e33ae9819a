-- ===== src/Device/Manager/Devices.antt =====
-- `ocssd_manager::add_ocssd`: a node gets one more device.
use mathlib.Core.List.{map-append}
use light_nvm.Base.{
  inc_int-small, ℕ, ◌+◌, ◌^◌, ◌<◌, ◌≡◌, ◌≢◌, ◌↔◌, inl, inr, refl, ◌∙◌, arith, List, [], ◌∷◌, ◌++◌,
  length, length-append, All, All-append, Any-append, Any-append_left, Distinct-snoc, Option, some,
}
use light_nvm.Base.Partial.{◌>>=◌}
use light_nvm.Wire.Fields.{IsText}
use light_nvm.Vssd.Member.{NvmGeo}
use light_nvm.Vssd.RoundTrip.Units.{IsGeo}
use light_nvm.Device.Channel.{OcssdChannel}
use light_nvm.Device.Drive.{OcssdUnit}
use light_nvm.Device.Drive.Exclusive.{untouched_lem}
use light_nvm.Device.Drive.Moves.{UsedAt}
use light_nvm.Device.Drive.Make.{IsUnused, make-NewDevice}
use light_nvm.Device.Drive.Valid.{IsDevice, channels_of}
use light_nvm.Device.Manager.{OcssdManager, make, add_ocssd}
use light_nvm.Device.Manager.Ledger.{UsedOn, names_of}
use light_nvm.Device.Manager.Grant.{IsManager}

unused_lem : (cs : List OcssdChannel) (ch lun b : ℕ) → All IsUnused cs → ¬ UsedAt cs ch lun b
unused_lem [] ch lun b h u = elim u [ ]
unused_lem (c ∷ cs) ch lun b h (inl u) = elim u.1 [
  | inl taken ↦ taken h.0.free
  | inr used ↦ untouched_lem c.luns lun b h.0.untouched used
]
unused_lem (c ∷ cs) ch lun b h (inr u) = unused_lem cs ch lun b h.1 u

-- A manager before and after it has got a device of this name and geometry.
pub record Adds (m m' : OcssdManager) (name : List ℕ) (geo : NvmGeo) : Type 0 where
  pub manager : IsManager m'
  pub count : m'.count ≡ m.count + 1
  pub names : names_of m'.ocssds ≡ names_of m.ocssds ++ name ∷ []
  pub same_id : m'.vssd_id ≡ m.vssd_id
  pub used :
      (device : List ℕ) (ch lun b : ℕ)
      → UsedOn m'.ocssds device ch lun b ↔ UsedOn m.ocssds device ch lun b

-- A new node without devices is well formed.
pub make-IsManager : (ip : List ℕ) → IsManager (make ip)
unfolding make
make-IsManager ip = record { devices = tt; distinct = tt; few = omega arith; id_fits = omega arith }

module _ (opened : List ℕ → Option NvmGeo) (m : OcssdManager) (name : List ℕ) where
  -- A device that liblightnvm opens, whose name is new on the node and whose name and sizes fit, with
  -- fewer channels than an `int` can count, is added to a well-formed node whose devices an `int` can
  -- count with one more: nothing overflows, the node stays well formed, and no block comes into use.
  pub add_ocssd-Adds :
      (geo : NvmGeo)
      → IsManager m
      → opened name ≡ some geo
      → All (λ other. other ≢ name) (names_of m.ocssds)
      → length m.ocssds + 1 < 2 ^ 32
      → m.count + 1 < 2 ^ 31
      → IsText name
      → length name + 4 < 2 ^ 32
      → IsGeo geo
      → geo.nchannels < 2 ^ 31
      → geo.nluns < 2 ^ 32
      → geo.nblocks < 2 ^ 32
      → (m' : OcssdManager) × (add_ocssd opened m name ≡ some m') × Adds m m' name geo
  unfolding add_ocssd
  add_ocssd-Adds geo i e new few countable text short fits channels luns blocks =
      let (u, made, d) = make-NewDevice m.ip name geo text short fits channels luns blocks in
      let names : names_of (m.ocssds ++ u ∷ []) ≡ names_of m.ocssds ++ name ∷ [] =
        map-append (λ (x : OcssdUnit). x.name) m.ocssds (u ∷ []) ∙ rw d.name_lem in
      (
        record m { ocssds = m.ocssds ++ u ∷ []; count = m.count + 1 },
        rw (e, add_ocssd, ◌>>=◌, made, inc_int-small m.count countable),
        record {
          manager = record {
            devices = All-append IsDevice m.ocssds (u ∷ []) i.devices (d.device, tt);
            distinct = rw names (Distinct-snoc (names_of m.ocssds) name i.distinct new);
            few = omega (arith, length-append m.ocssds (u ∷ []));
            id_fits = i.id_fits;
          };
          count = refl;
          names = names;
          same_id = refl;
          used = λ device ch lun b. (
            λ o.
                elim (Any-append (λ x. (x.name ≡ device) × UsedAt (channels_of x) ch lun b) m.ocssds
                  (u ∷ []) o) [
                    | inl old ↦ old
                    | inr last ↦ elim last [
                      | inl used ↦ absurd (unused_lem (channels_of u) ch lun b d.unused used.1)
                      | inr none_left ↦ elim none_left [ ]
                    ]
                  ],
            λ o.
                Any-append_left (λ x. (x.name ≡ device) × UsedAt (channels_of x) ch lun b) m.ocssds
                  (u ∷ []) o,
          );
        },
      )
