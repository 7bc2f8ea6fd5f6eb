-- ===== src/Api.antt =====
-- `FDUApi` of fog05-sdk/src/api.rs: the operations on FDUs, each of which is passed on to an agent.
-- Of a node that is chosen only the UUID of its agent's service is used, so the choice is among those.
pub mod Laws
pub mod Nodes
use fog.Prelude.{Option, none, some, List, [], ◌∷◌}
use fog.Sdk.Fresult.{FError}
use fog.Sdk.Outcome.{Result, Call, ret, Task, unwrap, rpc_call, ◌>>=◌}
use fog.Sdk.Types.{Uuid}
use fog.Sdk.Im.Fdu.{FduDescriptor, FduRecord}
use fog.Sdk.Im.Node.{NodeInfo}
use fog.Connector.Global.Defs.{Global}
use fog.Connector.Global.Nodes.{get_all_nodes, get_node_info}
use fog.Agent.Env.{Env, World}

abbrev pub services : List NodeInfo → List Uuid
services [] = []
services (node ∷ nodes) = node.agent_service_uuid ∷ services nodes

module _ (env : Env) (self : Global) where
  abbrev pub choosing : List NodeInfo → Task (World env) (Option Uuid)
  choosing nodes w = let (picked, w') = env.choose (services nodes) w in (ret picked, w')

  -- The common shape of the operations: choose an entry point, and ask it.
  unfoldable pub relay :
      {A : Type 0} → (Uuid → Call (World env) (Result FError A)) → Task (World env) A
  relay call = do
    nodes ← get_all_nodes env.zenoh env.codecs self
    picked ← choosing nodes
    entry_point ← unwrap picked
    rpc_call (call entry_point)

  unfoldable pub onboard_fdu : FduDescriptor → Task (World env) Uuid
  unfolding relay
  onboard_fdu fdu = relay λ server. env.orchestrator.onboard_fdu server fdu

  -- Where a node is named, its agent is asked to define the FDU; otherwise any agent is asked to
  -- schedule it.
  unfoldable pub define_fdu : Uuid → Option Uuid → Task (World env) FduRecord
  unfolding relay
  define_fdu fdu_uuid none = relay λ server. env.orchestrator.schedule_fdu server fdu_uuid
  define_fdu fdu_uuid (some node_uuid) = do
    ni ← get_node_info env.zenoh env.codecs self node_uuid
    rpc_call (env.orchestrator.define_fdu ni.agent_service_uuid fdu_uuid)

  unfoldable pub configure_fdu : Uuid → Task (World env) FduRecord
  unfolding relay
  configure_fdu uuid = relay λ server. env.orchestrator.configure_fdu server uuid

  unfoldable pub start_fdu : Uuid → Task (World env) FduRecord
  unfolding relay
  start_fdu uuid = relay λ server. env.orchestrator.start_fdu server uuid

  unfoldable pub stop_fdu : Uuid → Task (World env) FduRecord
  unfolding relay
  stop_fdu uuid = relay λ server. env.orchestrator.stop_fdu server uuid

  unfoldable pub clean_fdu : Uuid → Task (World env) FduRecord
  unfolding relay
  clean_fdu uuid = relay λ server. env.orchestrator.clean_fdu server uuid

  unfoldable pub undefine_fdu : Uuid → Task (World env) FduRecord
  unfolding relay
  undefine_fdu uuid = relay λ server. env.orchestrator.undefine_fdu server uuid

  unfoldable pub offload_fdu : Uuid → Task (World env) Uuid
  unfolding relay
  offload_fdu fdu_uuid = relay λ server. env.orchestrator.offload_fdu server fdu_uuid
