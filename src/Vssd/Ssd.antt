-- ===== src/Vssd/Ssd.antt =====
-- `virtual_ocssd`: the units that were granted to one client.
use light_nvm.Base.{
  ℕ, List, [], ◌∷◌, ◌++◌, length, not, ◌==◌, if◌then◌else◌, Option, none, some, get_elem?,
}
use light_nvm.Wire.Cursor.{
  M, pure, ◌>>=◌, ◌>>◌, u32, serialize_data4, deserialize_data4, sized, counted,
}
use light_nvm.Wire.Loops.{for_each, read_many}
use light_nvm.Vssd.Member.{VirtualUnit, NvmGeo}
use light_nvm.Vssd.Member

pub record VirtualOcssd : Type 0 where
  pub id : ℕ
  pub units : List VirtualUnit

unfoldable pub make : VirtualOcssd
make = record { id = 0; units = [] }

unfoldable pub add : VirtualOcssd → VirtualUnit → VirtualOcssd
add v u = record v { units = v.units ++ u ∷ [] }

unfoldable pub set_id : VirtualOcssd → ℕ → VirtualOcssd
set_id v id = record v { id = u32 id }

unfoldable pub get_num_units : VirtualOcssd → ℕ
get_num_units v = length v.units

-- `units_[i]`; out of range it is undefined behaviour, here `none`.
unfoldable pub get_unit : VirtualOcssd → ℕ → Option VirtualUnit
get_unit v i = get_elem? v.units i

abbrev pub serialize_magic : ℕ
serialize_magic = 0x6502

unfoldable pub serialize : VirtualOcssd → M ℕ
unfolding for_each Member.serialize
serialize v = sized (do
  serialize_data4 serialize_magic
  serialize_data4 v.id
  serialize_data4 (length v.units)
  for_each Member.serialize v.units)

-- A unit as the loop of `deserialize` makes it; `new nvm_geo` is not initialised.
unfoldable pub new_unit : NvmGeo → M VirtualUnit
unfolding Member.make Member.deserialize
new_unit garbage = do (u, _) ← Member.deserialize (Member.make [] garbage); pure u

-- What `deserialize` reads into an object, appending the units; `none` where the magic is wrong.
unfoldable pub deserialize_units : NvmGeo → VirtualOcssd → M (Option VirtualOcssd)
unfolding read_many new_unit
deserialize_units garbage v = do
  magic ← deserialize_data4
  if not (magic == serialize_magic) then pure none else (do
    id ← deserialize_data4
    num_unit ← deserialize_data4
    units ← read_many num_unit (new_unit garbage)
    pure (some (record { id = id; units = v.units ++ units })))

-- The object afterwards and the number that is returned: with a wrong magic the object stays as it
-- is and the number is 0.
unfoldable pub returned : VirtualOcssd → Option VirtualOcssd × ℕ → VirtualOcssd × ℕ
returned v (none, n) = (v, 0)
returned v (some v', n) = (v', n)

unfoldable pub deserialize : NvmGeo → VirtualOcssd → M (VirtualOcssd × ℕ)
unfolding deserialize_units returned
deserialize garbage v = counted (deserialize_units garbage v) >>= λ r. pure (returned v r)
