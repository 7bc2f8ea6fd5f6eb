-- ===== src/Connector/Local/Networks.antt =====
-- `Local` of zconnector/local.rs: networks, connection points, interfaces and namespaces of the node.
use fog.Prelude.{List}
use fog.Sdk.Outcome.{Task}
use fog.Sdk.Types.{Uuid, VirtualNetwork, ConnectionPoint, VirtualInterface, NetworkNamespace}
use fog.Zenoh.{Zenoh, id, star}
use fog.Connector.Codecs.{Codecs}
use fog.Connector.Query.{get_one, get_all, put_value, delete_key}
use fog.Connector.LocalKeys.{
  local_prefix, node_vnet_path, node_cp_path, node_viface_path, node_netns_path,
}
use fog.Connector.Local.Defs.{Local}

module _ (z : Zenoh) (c : Codecs) (self : Local) where
  unfoldable pub get_virtual_network : Uuid → Task z.World VirtualNetwork
  unfolding node_vnet_path
  get_virtual_network net_uuid =
      get_one z c.network (node_vnet_path local_prefix (id self.node_uuid) (id net_uuid))

  unfoldable pub add_virutal_network : VirtualNetwork → Task z.World Unit
  unfolding node_vnet_path
  add_virutal_network vnet_info =
      put_value z c.network (node_vnet_path local_prefix (id self.node_uuid) (id vnet_info.uuid))
        vnet_info

  unfoldable pub remove_virtual_network : Uuid → Task z.World Unit
  unfolding node_vnet_path
  remove_virtual_network net_uuid =
      delete_key z (node_vnet_path local_prefix (id self.node_uuid) (id net_uuid))

  unfoldable pub get_connection_point : Uuid → Task z.World ConnectionPoint
  unfolding node_cp_path
  get_connection_point cp_uuid =
      get_one z c.connection_point (node_cp_path local_prefix (id self.node_uuid) (id cp_uuid))

  unfoldable pub add_connection_point : ConnectionPoint → Task z.World Unit
  unfolding node_cp_path
  add_connection_point cp_info =
      put_value z c.connection_point
        (node_cp_path local_prefix (id self.node_uuid) (id cp_info.uuid)) cp_info

  unfoldable pub remove_connection_point : Uuid → Task z.World Unit
  unfolding node_cp_path
  remove_connection_point cp_uuid =
      delete_key z (node_cp_path local_prefix (id self.node_uuid) (id cp_uuid))

  unfoldable pub get_interface : Uuid → Task z.World VirtualInterface
  unfolding node_viface_path
  get_interface iface_uuid =
      get_one z c.interface (node_viface_path local_prefix (id self.node_uuid) (id iface_uuid))

  unfoldable pub get_all_interfaces : Task z.World (List VirtualInterface)
  unfolding node_viface_path
  get_all_interfaces =
      get_all z c.interface (node_viface_path local_prefix (id self.node_uuid) star)

  unfoldable pub add_interface : VirtualInterface → Task z.World Unit
  unfolding node_viface_path
  add_interface iface_info =
      put_value z c.interface
        (node_viface_path local_prefix (id self.node_uuid) (id iface_info.uuid)) iface_info

  unfoldable pub remove_interface : Uuid → Task z.World Unit
  unfolding node_viface_path
  remove_interface iface_uuid =
      delete_key z (node_viface_path local_prefix (id self.node_uuid) (id iface_uuid))

  unfoldable pub get_network_namespace : Uuid → Task z.World NetworkNamespace
  unfolding node_netns_path
  get_network_namespace ns_uuid =
      get_one z c.namespace (node_netns_path local_prefix (id self.node_uuid) (id ns_uuid))

  unfoldable pub add_network_namespace : NetworkNamespace → Task z.World Unit
  unfolding node_netns_path
  add_network_namespace ns_info =
      put_value z c.namespace (node_netns_path local_prefix (id self.node_uuid) (id ns_info.uuid))
        ns_info

  unfoldable pub remove_network_namespace : Uuid → Task z.World Unit
  unfolding node_netns_path
  remove_network_namespace ns_uuid =
      delete_key z (node_netns_path local_prefix (id self.node_uuid) (id ns_uuid))
