-- ===== src/Connector/Local/Fdus.antt =====
-- `Local` of zconnector/local.rs: the records of the FDU instances of the node.
use fog.Prelude.{List}
use fog.Sdk.Outcome.{Task, ◌>>=◌}
use fog.Sdk.Types.{Uuid}
use fog.Zenoh.{Zenoh, id}
use fog.Connector.Codecs.{Codecs}
use fog.Connector.Query.{get_one, get_all, put_value, delete_key}
use fog.Connector.LocalKeys.{
  local_prefix, node_instance_path, node_instance_selector, node_instance_selector2,
  node_instance_selector3,
}
use fog.Connector.Local.Defs.{Local}
use fog.Sdk.Im.Fdu.{FduRecord}

module _ (z : Zenoh) (c : Codecs) (self : Local) where
  unfoldable pub get_instance : Uuid → Task z.World FduRecord
  unfolding node_instance_selector
  get_instance instance_uuid =
      get_one z c.instance_record
        (node_instance_selector local_prefix (id self.node_uuid) (id instance_uuid))

  unfoldable pub get_all_instances : Task z.World (List FduRecord)
  unfolding node_instance_selector3
  get_all_instances =
      get_all z c.instance_record (node_instance_selector3 local_prefix (id self.node_uuid))

  unfoldable pub get_all_fdu_instances : Uuid → Task z.World (List FduRecord)
  unfolding node_instance_selector2
  get_all_fdu_instances fdu_uuid =
      get_all z c.instance_record
        (node_instance_selector2 local_prefix (id self.node_uuid) (id fdu_uuid))

  unfoldable pub add_instance : FduRecord → Task z.World Unit
  unfolding node_instance_path
  add_instance instance_info =
      put_value z c.instance_record
        (node_instance_path local_prefix (id self.node_uuid) (id instance_info.fdu_uuid)
          (id instance_info.uuid))
        instance_info

  unfoldable pub remove_instance : Uuid → Task z.World Unit
  unfolding get_instance node_instance_path
  remove_instance instance_uuid = do
    instance_info ← get_instance instance_uuid
    delete_key z (
        node_instance_path local_prefix (id self.node_uuid) (id instance_info.fdu_uuid)
          (id instance_info.uuid))
