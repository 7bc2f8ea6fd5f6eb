-- ===== src/Connector/Local/Nodes.antt =====
-- `Local` of zconnector/local.rs: the node itself and its plugins.
use fog.Sdk.Outcome.{Task}
use fog.Sdk.Types.{Uuid, PluginInfo}
use fog.Zenoh.{Zenoh, id}
use fog.Connector.Codecs.{Codecs}
use fog.Connector.Query.{get_one, put_value, delete_key}
use fog.Connector.LocalKeys.{local_prefix, node_info_path, node_status_path, node_plugin_path}
use fog.Connector.Local.Defs.{Local}
use fog.Sdk.Im.Node.{NodeInfo, NodeStatus}

module _ (z : Zenoh) (c : Codecs) (self : Local) where
  unfoldable pub get_node_info : Task z.World NodeInfo
  unfolding node_info_path
  get_node_info = get_one z c.node_info (node_info_path local_prefix (id self.node_uuid))

  unfoldable pub remove_node_info : Task z.World Unit
  unfolding node_info_path
  remove_node_info = delete_key z (node_info_path local_prefix (id self.node_uuid))

  unfoldable pub add_node_info : NodeInfo → Task z.World Unit
  unfolding node_info_path
  add_node_info node_info =
      put_value z c.node_info (node_info_path local_prefix (id self.node_uuid)) node_info

  unfoldable pub get_node_status : Task z.World NodeStatus
  unfolding node_status_path
  get_node_status = get_one z c.node_status (node_status_path local_prefix (id self.node_uuid))

  unfoldable pub add_node_status : NodeStatus → Task z.World Unit
  unfolding node_status_path
  add_node_status node_status =
      put_value z c.node_status (node_status_path local_prefix (id self.node_uuid)) node_status

  unfoldable pub remove_node_status : Task z.World Unit
  unfolding node_status_path
  remove_node_status = delete_key z (node_status_path local_prefix (id self.node_uuid))

  unfoldable pub get_plugin : Uuid → Task z.World PluginInfo
  unfolding node_plugin_path
  get_plugin plugin_uuid =
      get_one z c.plugin (node_plugin_path local_prefix (id self.node_uuid) (id plugin_uuid))

  unfoldable pub add_plugin : PluginInfo → Task z.World Unit
  unfolding node_plugin_path
  add_plugin plugin_info =
      put_value z c.plugin (node_plugin_path local_prefix (id self.node_uuid) (id plugin_info.uuid))
        plugin_info

  unfoldable pub remove_plugin : Uuid → Task z.World Unit
  unfolding node_plugin_path
  remove_plugin plugin_uuid =
      delete_key z (node_plugin_path local_prefix (id self.node_uuid) (id plugin_uuid))
