-- ===== src/Together.antt =====
-- The agent (fog05-agent/src/agent.rs) and the dummy hypervisor
-- (fog05-sdk/examples/dummy-hypervisor.rs) of one node: the agent answers the plugin's calls, and
-- calls the plugin.
pub mod Laws
pub mod Remote
pub mod Nodes
pub mod Undefined
use fog.Prelude.{ℕ, String, Option, List, [], ◌∷◌}
use fog.Sdk.Fresult.{FError}
use fog.Sdk.Outcome.{Outcome, Result, ok, err, ret, fail, panic, hang, Call}
use fog.Sdk.Types.{Uuid}
use fog.Sdk.Im.Fdu.{FduRecord, FduRecordConnectionPoint}
use fog.Connector.Local.Fdus.{get_instance}
use fog.Interfaces.Clients.{reply}
use fog.Agent.Env as agent
use fog.Agent.State.{Agent}
use fog.Agent.Catalog.{fdu_info}
use fog.Agent.Monitoring.{monitoring_fdus}
use fog.Dummy.Env as plugin
use fog.Dummy.Hypervisor.Configure.{DummyHypervisor}
use fog.Dummy.Hypervisor.{Fdus, start_fdu}

-- What the plugin calls beside zenoh and the agent.
pub record Rest (W : Type 0) : Type 0 where
  pub net : plugin.NetworkPlugin W
  pub random_name : W → String × W
  pub to_json : Uuid → List ℕ
  pub from_json : List ℕ → Option Uuid
  pub into_iter :
      List (String × FduRecordConnectionPoint) → List (String × FduRecordConnectionPoint)

module _ (env : agent.Env) (self : Agent) where
  -- `AgentPluginInterface::get_node_uuid` of the agent
  abbrev pub get_node_uuid : Call (agent.World env) (Result FError Uuid)
  get_node_uuid w = (ok (ok self.node_uuid), w)

  -- The plugin on the store of its agent, which serves its calls.
  abbrev pub plugin_env : Rest (agent.World env) → plugin.Env
  plugin_env rest = record {
    zenoh = env.zenoh;
    codecs = env.codecs;
    agent = record {
      get_node_uuid = λ server. get_node_uuid;
      fdu_info = λ server u w. let (o, w') = fdu_info env self u w in (reply o, w');
    };
    net = rest.net;
    new_v4 = env.new_v4;
    random_name = rest.random_name;
    to_json = rest.to_json;
    from_json = rest.from_json;
    into_iter = rest.into_iter;
  }
