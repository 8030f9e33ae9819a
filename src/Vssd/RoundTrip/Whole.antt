-- ===== src/Vssd/RoundTrip/Whole.antt =====
-- The wire format of a whole virtual OCSSD, as the server sends it and the client reads it.
use light_nvm.Base.{
  All, total, ℕ, ◌+◌, ◌^◌, ◌<◌, ◌≤◌, ◌≡◌, arith, subst, List, [], ◌++◌, length, some, none,
}
use light_nvm.Wire.Cursor.{at, u32}
use light_nvm.Wire.Codec.{
  Codes, Codes-bind, Codes-map, Codes-sized, Codes-counted, Codes-cast, Codes-buffer,
}
use light_nvm.Wire.Fields.{Codes-data4}
use light_nvm.Wire.Loops.{for_each, read_many}
use light_nvm.Vssd.RoundTrip.Luns.{Codes-members}
use light_nvm.Vssd.RoundTrip.Units.{IsUnit, unit_size, Codes-unit}
use light_nvm.Vssd.Member.{NvmGeo}
use light_nvm.Vssd.Member
use light_nvm.Vssd.Ssd.{
  VirtualOcssd, serialize_magic, make, new_unit, serialize, deserialize_units, returned,
  deserialize,
}

-- The id and the number of units fit their `uint32_t`, and each unit is well formed.
pub record IsVssd (v : VirtualOcssd) : Type 0 where
  pub id_fits : v.id < 2 ^ 32
  pub count : length v.units < 2 ^ 32
  pub units_fit : All IsUnit v.units

-- The bytes that the virtual OCSSD takes.
abbrev pub vssd_size : VirtualOcssd → ℕ
vssd_size v = 12 + total unit_size v.units

Codes-new_unit :
    (garbage : NvmGeo) (u : Member.VirtualUnit)
    → IsUnit u
    → Codes (Member.serialize u) (unit_size u) (new_unit garbage) u (unit_size u)
unfolding new_unit
Codes-new_unit garbage u v = Codes-map _ (Codes-unit u garbage v)

module _ (v : VirtualOcssd) (garbage : NvmGeo) (w : IsVssd v) where
  Codes-units :
      Codes
        (for_each Member.serialize v.units)
        tt
        (read_many (u32 (length v.units)) (new_unit garbage))
        v.units
        (total unit_size v.units)
  Codes-units =
      subst
        (λ (n : ℕ).
          Codes (for_each Member.serialize v.units) tt (read_many n (new_unit garbage)) v.units
            (total unit_size v.units))
        (omega (arith, w.count))
        (Codes-members Member.serialize (new_unit garbage) unit_size unit_size
          (Codes-new_unit garbage) v.units w.units_fit)

  narrowed_lem : some (record v { id = u32 v.id }) ≡ some v
  narrowed_lem = ground (arith, w.id_fits)

  pub Codes-vssd :
      Codes (serialize v) (vssd_size v) (deserialize garbage make) (v, vssd_size v) (vssd_size v)
  unfolding serialize deserialize deserialize_units returned make
  Codes-vssd = Codes-map (returned make) (
      Codes-counted (
        Codes-sized (
          Codes-cast narrowed_lem (omega arith) (
            Codes-bind _ _ (Codes-data4 serialize_magic) (
              Codes-bind _ _ (Codes-data4 v.id)
                (Codes-bind _ _ (Codes-data4 (length v.units)) (Codes-map _ Codes-units)))))))

-- A well-formed virtual OCSSD, serialized into a buffer that is long enough, comes back from
-- `deserialize` at the start of that buffer, whatever else the buffer holds and whatever the members
-- of a new `nvm_geo` are; both return its size, and the serializer has stored that many bytes.
pub vssd_round_trip :
    (v : VirtualOcssd) (garbage : NvmGeo) (buffer : List ℕ)
    → IsVssd v
    → vssd_size v ≤ length buffer
    → (out : List ℕ) × (rest : List ℕ) × (length out ≡ vssd_size v)
      × (serialize v (at [] buffer) ≡ some (vssd_size v, at out rest))
      × (deserialize garbage make (at [] (out ++ rest)) ≡ some ((v, vssd_size v), at out rest))
vssd_round_trip v garbage buffer w h = Codes-buffer (Codes-vssd v garbage w) buffer h

-- In a buffer that is shorter than the virtual OCSSD, `serialize` stores behind the end.
pub serialize-overflow :
    (v : VirtualOcssd) (buffer : List ℕ)
    → IsVssd v
    → length buffer < vssd_size v
    → serialize v (at [] buffer) ≡ none
serialize-overflow v buffer w h = (Codes-vssd v zeros w).faults [] buffer h
  where
    zeros : NvmGeo
    zeros = record {
      nchannels = 0;
      nluns = 0;
      nplanes = 0;
      nblocks = 0;
      npages = 0;
      nsectors = 0;
      page_nbytes = 0;
      sector_nbytes = 0;
      meta_nbytes = 0;
    }
