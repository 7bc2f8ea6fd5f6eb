-- ===== src/Tests/Apis.antt =====
-- The API in the small system.
use mathlib.Core.List.{Memᴰ}
use fog.Prelude.{◌≡◌, refl, List}
use fog.Sdk.Outcome.{ok, ret}
use fog.Sdk.Types.{Uuid}
use fog.Sdk.Fresult.{display}
use fog.Sdk.Im.Fdu.{FduRecord, defined, configured, running}
use fog.Sdk.Im.Node.{NodeInfo}
use fog.Connector.Query.{get_one, single, get_all, query, decode, decode_all}
use fog.Connector.Global.Fdus.{get_fdu}
use fog.Connector.Keys.{
  nodes_selector, fdu_descriptor_path, fdu_instance_path, fdu_instance_selector, node_info_path,
  node_status_path,
}
use fog.Connector.Global.Nodes.{get_all_nodes}
use fog.Agent.Env.{World}
use fog.Api.{relay, configure_fdu}
use fog.Api.Laws.{configuring, asked, run-eq_ret}
use fog.Rest.{instantiate_fdu, instantiate_on}
use fog.Rest.Laws.{instantiate_fdu_sound}
use fog.Tests.Fixture.{env, global, store_in, instance_in, chooses_first}

run-eq_ret_example :
    (nodes : List NodeInfo) × (w₁ w₂ : World env) × (n : NodeInfo) × (get_all_nodes env.zenoh
        env.codecs global
        (store_in defined)
      ≡ (ret nodes, w₁))
    × Memᴰ n nodes
    × (asked env global configuring n.agent_service_uuid 9 w₂
        ≡ (ok (ok (instance_in configured)), store_in defined))
unfolding configure_fdu relay get_all_nodes get_all query decode decode_all nodes_selector
    fdu_descriptor_path fdu_instance_path node_info_path node_status_path
run-eq_ret_example = run-eq_ret env global configuring 9 (store_in defined) chooses_first refl

instantiate_fdu_sound_example :
    (node : Uuid) × (scheduled prepared : FduRecord) × (w₁ w₂ w₃ : World env)
    × (env.orchestrator.schedule_fdu node 7 w₁ ≡ (ok (ok scheduled), w₂))
    × (env.orchestrator.configure_fdu node scheduled.uuid w₂ ≡ (ok (ok prepared), w₃))
    × (env.orchestrator.start_fdu node scheduled.uuid w₃
        ≡ (ok (ok (instance_in running)), store_in defined))
unfolding get_one query single decode fdu_descriptor_path fdu_instance_path fdu_instance_selector
    node_info_path node_status_path get_fdu get_all_nodes nodes_selector get_all decode_all
    instantiate_fdu instantiate_on
instantiate_fdu_sound_example = instantiate_fdu_sound env display global 7 (store_in defined) refl
