-- ===== src/Interfaces/AgentPlugin.antt =====
-- `AgentPluginInterface` of fog05-sdk/src/agent.rs. `M A` is a call that ends in an `FResult<A>`.
use fog.Prelude.{String}
use fog.Sdk.Types.{
  Uuid, VirtualNetwork, VirtualNetworkConfig, ConnectionPoint, ConnectionPointConfig, IpAddress,
  PluginKind,
}
use fog.Sdk.Im.Fdu.{FduDescriptor, FduRecord, Image}

pub record AgentPluginInterface (M : Type 0 → Type 0) : Type 0 where
  pub fdu_info : Uuid → M FduDescriptor
  pub image_info : Uuid → M Image
  pub node_fdu_info : Uuid → Uuid → Uuid → M FduRecord
  pub network_info : Uuid → M VirtualNetwork
  pub connection_point_info : Uuid → M ConnectionPoint
  pub node_management_address : Uuid → M IpAddress
  pub create_virtual_network : VirtualNetworkConfig → M VirtualNetwork
  pub remove_virtual_network : Uuid → M Uuid
  pub create_connection_point : ConnectionPointConfig → M ConnectionPoint
  pub remove_connection_point : Uuid → M Uuid
  pub bind_cp_to_fdu_face : Uuid → Uuid → String → M Uuid
  pub unbind_cp_from_fdu_face : Uuid → Uuid → String → M Uuid
  pub bind_cp_to_network : Uuid → Uuid → M Uuid
  pub unbind_cp_from_network : Uuid → Uuid → M Uuid
  pub get_node_uuid : M Uuid
  pub register_plugin : Uuid → PluginKind → M Uuid
  pub unregister_plugin : Uuid → M Uuid
