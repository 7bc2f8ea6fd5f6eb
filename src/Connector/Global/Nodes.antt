-- ===== src/Connector/Global/Nodes.antt =====
-- `Global` of zconnector/mod.rs: the configuration of the system, nodes and their plugins.
use fog.Prelude.{List, [], ◌∷◌}
use fog.Sdk.Fresult.{FError}
use fog.Sdk.Outcome.{Task, raise, codec_value, ◌>>=◌}
use fog.Sdk.Types.{Uuid, PluginInfo}
use fog.Zenoh.{Zenoh, id, raw, other, Entry}
use fog.Connector.Codecs.{Codecs}
use fog.Connector.Query.{query, get_one, get_all, put_value, delete_key}
use fog.Connector.Keys.{
  global_prefix, nodes_selector, node_info_path, node_status_path, node_plugin_path, sys_conf_path,
  sys_info_path,
}
use fog.Connector.Global.Defs.{Global}
use fog.Sdk.Im.Node.{SystemInfo, SystemConfig, NodeInfo, NodeStatus}

module _ (z : Zenoh) (c : Codecs) (self : Global) where
  -- `get_system_info` has errors of its own where there is no one answer that it can decode.
  one_system_info : List Entry → Task z.World SystemInfo
  one_system_info [] = raise FError.not_found
  one_system_info ((k, raw buf) ∷ []) = codec_value (c.system_info.deserialize buf)
  one_system_info ((k, other) ∷ []) = raise FError.zconnector_error
  one_system_info (kv ∷ kv' ∷ rest) = raise FError.zconnector_error

  unfoldable pub get_system_info : Task z.World SystemInfo
  unfolding one_system_info sys_info_path
  get_system_info = do
    answers ← query z (sys_info_path global_prefix (id self.system_id))
    one_system_info answers

  unfoldable pub get_system_config : Task z.World SystemConfig
  unfolding sys_conf_path
  get_system_config = get_one z c.system_config (sys_conf_path global_prefix (id self.system_id))

  unfoldable pub get_all_nodes : Task z.World (List NodeInfo)
  unfolding nodes_selector
  get_all_nodes =
      get_all z c.node_info (nodes_selector global_prefix (id self.system_id) (id self.tenant_id))

  unfoldable pub get_node_info : Uuid → Task z.World NodeInfo
  unfolding node_info_path
  get_node_info node_uuid =
      get_one z c.node_info
        (node_info_path global_prefix (id self.system_id) (id self.tenant_id) (id node_uuid))

  unfoldable pub remove_node_info : Uuid → Task z.World Unit
  unfolding node_info_path
  remove_node_info node_uuid =
      delete_key z
        (node_info_path global_prefix (id self.system_id) (id self.tenant_id) (id node_uuid))

  unfoldable pub add_node_info : NodeInfo → Task z.World Unit
  unfolding node_info_path
  add_node_info node_info =
      put_value z c.node_info
        (node_info_path global_prefix (id self.system_id) (id self.tenant_id) (id node_info.uuid))
        node_info

  unfoldable pub get_node_status : Uuid → Task z.World NodeStatus
  unfolding node_status_path
  get_node_status node_uuid =
      get_one z c.node_status
        (node_status_path global_prefix (id self.system_id) (id self.tenant_id) (id node_uuid))

  unfoldable pub add_node_status : NodeStatus → Task z.World Unit
  unfolding node_status_path
  add_node_status node_status =
      put_value z c.node_status
        (node_status_path global_prefix (id self.system_id) (id self.tenant_id)
          (id node_status.uuid))
        node_status

  unfoldable pub remove_node_status : Uuid → Task z.World Unit
  unfolding node_status_path
  remove_node_status node_uuid =
      delete_key z
        (node_status_path global_prefix (id self.system_id) (id self.tenant_id) (id node_uuid))

  unfoldable pub get_plugin : Uuid → Uuid → Task z.World PluginInfo
  unfolding node_plugin_path
  get_plugin nodeid plugin_uuid = get_one z c.plugin (
      node_plugin_path global_prefix (id self.system_id) (id self.tenant_id) (id nodeid)
        (id plugin_uuid))
