-- ===== src/Dummy/Env.antt =====
-- What the example plugins call and do not implement: zenoh, serde, the remote interfaces of the
-- agent and of the networking plugin, random names, and the order in which a hash map is emptied.
-- The first argument of a remote call is the UUID of the server.
use fog.Prelude.{ℕ, String, Option, List}
use fog.Sdk.Fresult.{FError}
use fog.Sdk.Outcome.{Result, Call, Task, ret}
use fog.Sdk.Types.{
  Uuid, NetworkNamespace, ConnectionPoint, VirtualInterface, VirtualInterfaceConfig,
}
use fog.Sdk.Im.Fdu.{FduDescriptor, FduRecordConnectionPoint}
use fog.Zenoh.{Zenoh}
use fog.Connector.Codecs.{Codecs}

-- `AgentPluginInterfaceClient`, as far as the plugins use it
pub record AgentPlugin (W : Type 0) : Type 0 where
  pub get_node_uuid : Uuid → Call W (Result FError Uuid)
  pub fdu_info : Uuid → Uuid → Call W (Result FError FduDescriptor)

-- `NetworkingPluginClient`, as far as the hypervisor uses it
pub record NetworkPlugin (W : Type 0) : Type 0 where
  pub create_network_namespace : Uuid → Call W (Result FError NetworkNamespace)
  pub delete_network_namespace : Uuid → Uuid → Call W (Result FError NetworkNamespace)
  pub create_connection_point : Uuid → Call W (Result FError ConnectionPoint)
  pub delete_connection_point : Uuid → Uuid → Call W (Result FError Uuid)
  pub create_virtual_interface_in_namespace :
      Uuid → VirtualInterfaceConfig → Uuid → Call W (Result FError VirtualInterface)
  pub delete_virtual_interface : Uuid → Uuid → Call W (Result FError VirtualInterface)
  pub bind_interface_to_connection_point :
      Uuid → Uuid → Uuid → Call W (Result FError VirtualInterface)
  pub move_interface_into_default_namespace : Uuid → Uuid → Call W (Result FError VirtualInterface)

pub record Env : Type 1 where
  pub zenoh : Zenoh
  pub codecs : Codecs
  pub agent : AgentPlugin zenoh.World
  pub net : NetworkPlugin zenoh.World
  pub new_v4 : zenoh.World → Uuid × zenoh.World
  pub random_name : zenoh.World → String × zenoh.World
  -- `serde_json` for the `DummyHVSpecificInfo` with a namespace, and back
  pub to_json : Uuid → List ℕ
  pub from_json : List ℕ → Option Uuid
  pub into_iter :
      List (String × FduRecordConnectionPoint) → List (String × FduRecordConnectionPoint)

abbrev pub World : Env → Type 0
World e = e.zenoh.World

-- `Uuid::new_v4()`
abbrev pub new_uuid : (env : Env) → Task (World env) Uuid
new_uuid env w = let (u, w') = env.new_v4 w in (ret u, w')
