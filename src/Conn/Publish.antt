-- ===== src/Conn/Publish.antt =====
-- What is published of the devices of a node.
use light_nvm.Base.{ℕ, List, map, length}
use light_nvm.Device.Drive.{OcssdUnit, get_ocssd_stats}
use light_nvm.Device.Manager.{OcssdManager}

-- What `azure_insert_entity` is handed.
pub record Entity : Type 0 where
  pub desc : List ℕ
  pub shared : ℕ
  pub exclusive : ℕ
  pub blocks : ℕ

unfoldable pub entity_of : OcssdUnit → Entity
unfolding get_ocssd_stats
entity_of u =
    let (shared, exclusive, blocks) = get_ocssd_stats u in
    record { desc = u.desc; shared = shared; exclusive = exclusive; blocks = blocks }

-- The entities that `ocssd_conn::publish_resource` inserts, and its result. `get_ocssd_stats` always returns 0, and the result of
-- the insertion is not looked at.
unfoldable pub publish_resource : OcssdManager → List Entity × ℕ
unfolding entity_of
publish_resource m = (map entity_of m.ocssds, length m.ocssds)
