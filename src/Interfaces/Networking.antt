-- ===== src/Interfaces/Networking.antt =====
-- `NetworkingPlugin` of fog05-sdk/src/plugins.rs. `M A` is a call that ends in an `FResult<A>`.
use fog.Prelude.{ℕ, String, Bool, Option, List}
use fog.Sdk.Types.{
  Uuid, VirtualNetwork, ConnectionPoint, VirtualInterface, VirtualInterfaceConfig, NetworkNamespace,
  IpAddress, MacAddress,
}

pub record NetworkingPlugin (M : Type 0 → Type 0) : Type 0 where
  pub create_default_virtual_network : Bool → M VirtualNetwork
  pub create_virtual_network : Uuid → M VirtualNetwork
  pub get_virtual_network : Uuid → M VirtualNetwork
  pub delete_virtual_network : Uuid → M VirtualNetwork
  pub create_connection_point : M ConnectionPoint
  pub get_connection_point : Uuid → M ConnectionPoint
  pub delete_connection_point : Uuid → M Uuid
  pub create_virtual_interface : VirtualInterfaceConfig → M VirtualInterface
  pub get_virtual_interface : Uuid → M VirtualInterface
  pub delete_virtual_interface : Uuid → M VirtualInterface
  pub create_virtual_bridge : String → M VirtualInterface
  pub get_virtual_bridge : Uuid → M VirtualInterface
  pub delete_virtual_bridge : Uuid → M VirtualInterface
  pub set_default_route_in_network_namespace : Uuid → Uuid → M Unit
  pub create_network_namespace : M NetworkNamespace
  pub get_network_namespace : Uuid → M NetworkNamespace
  pub delete_network_namespace : Uuid → M NetworkNamespace
  pub bind_interface_to_connection_point : Uuid → Uuid → M VirtualInterface
  pub unbind_interface_from_connection_point : Uuid → Uuid → M VirtualInterface
  pub bind_connection_point_to_virtual_network : Uuid → Uuid → M ConnectionPoint
  pub unbind_connection_point_from_virtual_network : Uuid → Uuid → M ConnectionPoint
  pub get_interface_addresses : Uuid → M (List IpAddress)
  pub get_overlay_iface : M String
  pub get_vlan_face : M String
  pub create_macvlan_interface : String → M VirtualInterface
  pub delete_macvan_interface : Uuid → M VirtualInterface
  pub move_interface_info_namespace : Uuid → Uuid → M VirtualInterface
  pub move_interface_into_default_namespace : Uuid → M VirtualInterface
  pub rename_virtual_interface : Uuid → String → M VirtualInterface
  pub attach_interface_to_bridge : Uuid → Uuid → M VirtualInterface
  pub detach_interface_from_bridge : Uuid → M VirtualInterface
  pub create_virtual_interface_in_namespace : VirtualInterfaceConfig → Uuid → M VirtualInterface
  pub delete_virtual_interface_in_namespace : Uuid → Uuid → M VirtualInterface
  pub assing_address_to_interface : Uuid → Option (IpAddress × ℕ) → M VirtualInterface
  pub remove_address_from_interface : Uuid → IpAddress → M VirtualInterface
  pub set_macaddres_of_interface : Uuid → MacAddress → M VirtualInterface
