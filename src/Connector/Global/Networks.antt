-- ===== src/Connector/Global/Networks.antt =====
-- `Global` of zconnector/mod.rs: virtual networks, connection points and interfaces.
use fog.Sdk.Outcome.{Task}
use fog.Sdk.Types.{Uuid, VirtualNetwork, ConnectionPoint, VirtualInterface}
use fog.Zenoh.{Zenoh, id}
use fog.Connector.Codecs.{Codecs}
use fog.Connector.Query.{get_one, put_value, delete_key}
use fog.Connector.Keys.{global_prefix, vnet_path, cp_path, viface_path}
use fog.Connector.Global.Defs.{Global}

module _ (z : Zenoh) (c : Codecs) (self : Global) where
  unfoldable pub get_virtual_network : Uuid → Task z.World VirtualNetwork
  unfolding vnet_path
  get_virtual_network net_uuid =
      get_one z c.network
        (vnet_path global_prefix (id self.system_id) (id self.tenant_id) (id net_uuid))

  unfoldable pub add_virutal_network : VirtualNetwork → Task z.World Unit
  unfolding vnet_path
  add_virutal_network vnet_info =
      put_value z c.network
        (vnet_path global_prefix (id self.system_id) (id self.tenant_id) (id vnet_info.uuid))
        vnet_info

  unfoldable pub remove_virtual_network : Uuid → Task z.World Unit
  unfolding vnet_path
  remove_virtual_network net_uuid =
      delete_key z (vnet_path global_prefix (id self.system_id) (id self.tenant_id) (id net_uuid))

  unfoldable pub get_connection_point : Uuid → Task z.World ConnectionPoint
  unfolding cp_path
  get_connection_point cp_uuid =
      get_one z c.connection_point
        (cp_path global_prefix (id self.system_id) (id self.tenant_id) (id cp_uuid))

  unfoldable pub add_connection_point : ConnectionPoint → Task z.World Unit
  unfolding cp_path
  add_connection_point cp_info =
      put_value z c.connection_point
        (cp_path global_prefix (id self.system_id) (id self.tenant_id) (id cp_info.uuid)) cp_info

  unfoldable pub remove_connection_point : Uuid → Task z.World Unit
  unfolding cp_path
  remove_connection_point cp_uuid =
      delete_key z (cp_path global_prefix (id self.system_id) (id self.tenant_id) (id cp_uuid))

  unfoldable pub get_interface : Uuid → Task z.World VirtualInterface
  unfolding viface_path
  get_interface iface_uuid =
      get_one z c.interface
        (viface_path global_prefix (id self.system_id) (id self.tenant_id) (id iface_uuid))

  unfoldable pub add_interface : VirtualInterface → Task z.World Unit
  unfolding viface_path
  add_interface iface_info =
      put_value z c.interface
        (viface_path global_prefix (id self.system_id) (id self.tenant_id) (id iface_info.uuid))
        iface_info

  unfoldable pub remove_interface : Uuid → Task z.World Unit
  unfolding viface_path
  remove_interface iface_uuid =
      delete_key z
        (viface_path global_prefix (id self.system_id) (id self.tenant_id) (id iface_uuid))
