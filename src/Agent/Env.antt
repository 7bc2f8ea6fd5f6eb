-- ===== src/Agent/Env.antt =====
-- What the agent calls and does not implement: zenoh, serde, the runtime, the remote procedure
-- calls of its plugins and of other agents, the file system, random choice and 64-bit floats.
-- Each acts on one world, so whatever runs beside the agent may change the world at each call.
use fog.Prelude.{ℕ, String, Bool, Option, List}
use fog.Sdk.Fresult.{FError}
use fog.Sdk.Outcome.{Result, Call}
use fog.Sdk.Types.{Uuid, VirtualNetwork}
use fog.Sdk.Im.Fdu.{FduDescriptor, FduRecord}
use fog.Sdk.Im.Entity.{EntityDescriptor, EntityRecord}
use fog.Zenoh.{Zenoh}
use fog.Connector.Codecs.{Codecs}

-- `AgentOrchestratorInterfaceClient`: the first argument is the UUID of the server.
pub record Orchestrator (W : Type 0) : Type 0 where
  pub check_fdu_compatibility : Uuid → Uuid → Call W (Result FError Bool)
  pub onboard_fdu : Uuid → FduDescriptor → Call W (Result FError Uuid)
  pub offload_fdu : Uuid → Uuid → Call W (Result FError Uuid)
  pub schedule_fdu : Uuid → Uuid → Call W (Result FError FduRecord)
  pub define_fdu : Uuid → Uuid → Call W (Result FError FduRecord)
  pub configure_fdu : Uuid → Uuid → Call W (Result FError FduRecord)
  pub start_fdu : Uuid → Uuid → Call W (Result FError FduRecord)
  pub stop_fdu : Uuid → Uuid → Call W (Result FError FduRecord)
  pub clean_fdu : Uuid → Uuid → Call W (Result FError FduRecord)
  pub undefine_fdu : Uuid → Uuid → Call W (Result FError FduRecord)
  pub onboard_entity : Uuid → EntityDescriptor → Call W (Result FError Uuid)
  pub offload_entity : Uuid → Uuid → Call W (Result FError Uuid)
  pub schedule_entity : Uuid → Uuid → Call W (Result FError Uuid)
  pub deschedule_entity : Uuid → Uuid → Call W (Result FError Uuid)

-- `HypervisorPluginClient`
pub record Hypervisor (W : Type 0) : Type 0 where
  pub define_fdu : Uuid → FduDescriptor → Call W (Result FError FduRecord)
  pub configure_fdu : Uuid → Uuid → Call W (Result FError Uuid)
  pub start_fdu : Uuid → Uuid → Call W (Result FError Uuid)
  pub stop_fdu : Uuid → Uuid → Call W (Result FError Uuid)
  pub clean_fdu : Uuid → Uuid → Call W (Result FError Uuid)
  pub undefine_fdu : Uuid → Uuid → Call W (Result FError Uuid)
  pub get_fdu_status : Uuid → Uuid → Call W (Result FError FduRecord)

-- `NetworkingPluginClient`, as far as the agent uses it
pub record Networking (W : Type 0) : Type 0 where
  pub verify_server : Uuid → Call W Bool
  pub create_default_virtual_network : Uuid → Bool → Call W (Result FError VirtualNetwork)

-- The tasks that the agent spawns.
pub data Job : Type 0 where
  default_network : Uuid → Job
  scheduling : Uuid → EntityRecord → EntityDescriptor → Job
  unscheduling : Uuid → EntityRecord → Job

-- 64-bit floats by their bit pattern
pub record Floats : Type 0 where
  pub from_u32 : ℕ → ℕ
  pub times_1024 : ℕ → ℕ
  pub ge : ℕ → ℕ → Bool

pub record Env : Type 1 where
  pub zenoh : Zenoh
  pub codecs : Codecs
  pub orchestrator : Orchestrator zenoh.World
  pub hypervisor : Hypervisor zenoh.World
  pub networking : Networking zenoh.World
  pub floats : Floats
  pub sleep : zenoh.World → zenoh.World
  pub new_v4 : zenoh.World → Uuid × zenoh.World
  pub choose : List Uuid → zenoh.World → Option Uuid × zenoh.World
  pub path_exists : String → zenoh.World → Bool × zenoh.World
  pub spawn : Job → zenoh.World → zenoh.World

abbrev pub World : Env → Type 0
World e = e.zenoh.World
