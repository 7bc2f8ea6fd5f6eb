-- ===== src/Tests/Systems.antt =====
-- The agent and its dummy hypervisor on the store in memory.
use fog.Prelude.{◌≡◌, refl, ◌++◌, List, [], ◌∷◌}
use fog.Sdk.Outcome.{ret}
use fog.Sdk.Im.Fdu.{FduState, defined, configured, running}
use fog.Together.Undefined.{undefine_fdu-remains}
use fog.Zenoh.{Entry}
use fog.Zenoh.Memory.{memory_reliable}
use fog.Connector.Keys.{
  fdu_instance_path, fdu_instance_selector, fdu_descriptor_path, node_info_path, node_status_path,
}
use fog.Connector.Query.{get_one, decode, single, query}
use fog.Connector.Global.Fdus as global
use fog.Connector.Local.Fdus as local
use fog.Agent.Env.{Env}
use fog.Agent.Instances as handlers
use fog.Agent.Monitoring.{monitoring_fdus}
use fog.Dummy.Hypervisor as dummy
use fog.Together.{Rest}
use fog.Together.Laws.{plugin_start}
use fog.Tests.Fixture.{env, agent, instance_in, store_in, node_info}
use fog.Sdk.Outcome.{ok, Task}
use fog.Sdk.Types.{Uuid}
use fog.Connector.Global.Nodes.{get_node_info}
use fog.Interfaces.Orchestrator.{AgentOrchestratorInterface}
use fog.Interfaces.Clients.{reply, orchestrator_client}
use fog.Agent.State.{Agent}
use fog.Agent.Interfaces.{orchestrator_interface}
use fog.Tests.Plugins.{dummy_env, hypervisor, node_store_in}

abbrev others : Rest (List Entry)
others = record {
  net = dummy_env.net;
  random_name = dummy_env.random_name;
  to_json = dummy_env.to_json;
  from_json = dummy_env.from_json;
  into_iter = dummy_env.into_iter;
}

abbrev both_configured : List Entry
both_configured = store_in configured ++ node_store_in configured

-- The agent's world: `start_fdu` of the plugin is that of the dummy hypervisor, and it answers
-- before the monitoring gets its record, which it does while the handler sleeps.
abbrev start_env : Env
start_env = record env {
  hypervisor = record env.hypervisor {
    start_fdu = λ plugin u w.
        let (o, (_, w')) = plugin_start env agent memory_reliable others hypervisor [] u w in
        (reply o, w');
  };
  sleep = λ w. (monitoring_fdus env agent (ok (instance_in running) ∷ []) w).1;
}

-- what the plugin has left
abbrev answered : List Entry
answered = (plugin_start start_env agent memory_reliable others hypervisor [] 9 both_configured).1.1

-- A second agent on another node, and the first one, which serves its interface to it.
abbrev other_agent : Agent
other_agent = record agent { node_uuid = 2 }

abbrev interfaces : Uuid → AgentOrchestratorInterface (Task (List Entry))
interfaces server = orchestrator_interface start_env agent 2

abbrev nodes_env : Env
nodes_env = record start_env { orchestrator = orchestrator_client interfaces }

-- Undefining, on the other node, an instance of the first one.
abbrev undefine_env : Env
undefine_env = record env {
  orchestrator = orchestrator_client (λ server. orchestrator_interface env agent 1);
}

undefine_fdu-remains_example :
    (◌≡◌ {A = FduState} defined defined)
    × ((w₁ : List Entry) × (global.get_instance env.zenoh env.codecs agent.global 9 w₁
          ≡ (ret (instance_in defined), store_in defined)))
unfolding global.get_instance global.get_fdu get_one decode single query fdu_instance_path
    fdu_instance_selector fdu_descriptor_path node_info_path node_status_path get_node_info
    handlers.undefine_fdu handlers.clean_fdu handlers.transition handlers.local_plugin
    handlers.plugin_of handlers.await_state handlers.remote_agent
undefine_fdu-remains_example =
    undefine_fdu-remains undefine_env other_agent agent 1 (instance_in defined) node_info
      (store_in defined) (λ server. orchestrator_interface env agent 1) refl refl refl refl refl
      refl refl refl
