-- ===== src/Tests/Agents.antt =====
-- The agent at work in the small system.
use mathlib.Core.List.{Memᴰ}
use fog.Prelude.{
  length, ◌≤◌, String, ◌≡◌, ◌<◌, ◌⊎◌, inl, refl, true, false, some, none, List, [], ◌∷◌, arith,
}
use fog.Sdk.Fresult.{FError}
use fog.Sdk.Outcome.{ok, ret, fail, ◌>>◌}
use fog.Sdk.Types.{Uuid, PluginKind}
use fog.Sdk.Im.Fdu.{Interface, InterfaceKind, bridged, FduDescriptor, defined, configured}
use fog.Sdk.Im.Node.{NodeInfo, NodeStatus}
use fog.Sdk.Im.Entity.{EntityDescriptor}
use fog.Zenoh.{raw, id}
use fog.Zenoh.Memory.{memory_reliable}
use fog.Connector.Query.{get_one, get_all, query, single, decode, decode_all, put_value, delete_key}
use fog.Connector.Keys.{
  fdu_descriptor_path, fdu_instance_path, node_info_path, node_status_path, fdu_instance_selector,
  fdu_instances_selector, nodes_selector, entity_instance_path, entity_descriptor_path,
  entity_instances_selector, global_prefix,
}
use fog.Connector.Global.Fdus.{get_instance, get_fdu, get_all_fdu_instances, remove_fdu}
use fog.Connector.Global.Nodes.{get_all_nodes, get_node_info, get_node_status}
use fog.Connector.Global.Entities.{
  add_entity_instance, get_entity, remove_entity, get_all_entity_instances,
}
use fog.Agent.Env.{World}
use fog.Agent.Instances.{
  await_state, transition, configure_fdu, local_plugin, plugin_of, define_fdu,
}
use fog.Agent.Instances.States.{configuring, handlers_reach_state}
use fog.Agent.Instances.Waiting.{arrived, ends, await_state-Waits}
use fog.Agent.Plugins.{register_plugin, unregister_plugin}
use fog.Agent.Plugins.Restore.{unregister_plugin-register_plugin}
use fog.Connector.Local.Nodes.{get_plugin}
use fog.Agent.Plugins.Laws.{register_plugin-twice, client_of, register_all, register_all-client_of}
use fog.Agent.Catalog.{offload_fdu, offload_entity}
use fog.Agent.Catalog.Laws.{
  offload_fdu-gone, offload_entity-gone, instances_of, entity_instances_of,
}
use fog.Agent.Compatibility.{
  check_fdu_compatibility, has_resources, has_image, faces, offered, find_root, parented, names,
}
use fog.Agent.Compatibility.Bounds.{check_fdu_compatibility_bounds}
use fog.Agent.Compatibility.Laws.{Fits, Stored, check_fdu_compatibility-Fits}
use fog.Agent.Scheduling.{Answer, compatibles, others, ask_all, get_compatible_nodes, schedule_fdu}
use fog.Agent.Scheduling.Laws.{
  IsSelf, IsOther, IsMade, get_compatible_nodes_sound, schedule_fdu_sound,
}
use fog.Agent.Entities.{
  entity_scheduling, scheduling_task, onboard_all, start_all, start_one, server_for,
}
use fog.Agent.Entities.Laws.{Ends, IsScheduled, entity_scheduling-IsScheduled, scheduling_task-Ends}
use fog.Tests.Fixture.{
  chooses_first, env, agent, store_in, instance_in, entity, entity_record, fdu_key, kvm_round,
}

handlers_reach_state_example : (instance_in configured).status ≡ configured
unfolding get_one query single decode fdu_descriptor_path fdu_instance_path fdu_instance_selector
    node_info_path node_status_path get_instance get_fdu configure_fdu transition local_plugin
    plugin_of await_state
handlers_reach_state_example =
    handlers_reach_state env agent configuring 2 9 (store_in defined) refl refl refl

await_state-Waits_example :
    await_state env agent defined 1 9 (store_in defined)
    ≡ (ret (instance_in defined), store_in defined)
unfolding get_one query single decode fdu_descriptor_path fdu_instance_path fdu_instance_selector
    node_info_path node_status_path get_instance get_fdu
await_state-Waits_example =
    await_state-Waits env agent defined 9 1 (inl refl) (ends refl (arrived refl)) (omega arith)

register_plugin-twice_example :
    let s =
      (register_plugin env agent 60
        (PluginKind.hypervisor "kvm")
        (agent.inner, store_in defined)).1 in
    register_plugin env agent 61 (PluginKind.hypervisor "kvm") s ≡ (fail FError.already_present, s)
register_plugin-twice_example =
    register_plugin-twice env agent 60 61 (PluginKind.hypervisor "kvm")
      (agent.inner, store_in defined) tt

-- two plugins that come too late, and one for another hypervisor
abbrev latecomers : List (Uuid × PluginKind)
latecomers =
    (61, PluginKind.hypervisor "dummy")
    ∷ (62, PluginKind.hypervisor "kvm")
    ∷ (63, PluginKind.hypervisor "dummy")
    ∷ []

register_all-client_of_example :
    client_of env agent
      (PluginKind.hypervisor "dummy")
      (register_all env agent latecomers (agent.inner, store_in defined)).0
    ≡ some 50
register_all-client_of_example =
    register_all-client_of env agent latecomers (PluginKind.hypervisor "dummy") 50
      (agent.inner, store_in defined) refl

unregister_plugin-register_plugin_example :
    (w' : World env) × ((register_plugin env agent 60 (PluginKind.hypervisor "kvm")
          >> unregister_plugin env agent 60)
        (agent.inner, store_in defined)
      ≡ (ret 60, (agent.inner, w')))
    × (get_plugin env.zenoh env.codecs agent.local 60 w' ≡ (fail FError.not_found, w'))
unregister_plugin-register_plugin_example =
    unregister_plugin-register_plugin env agent memory_reliable 60 "kvm" agent.inner
      (store_in defined) kvm_round refl

abbrev entity_store : World env
entity_store = (entity_descriptor_path global_prefix (id 0) (id 0) (id 5), raw []) ∷ []

offload_entity-gone_example :
    (◌≡◌ {A = Uuid} 5 5)
    × ((d : EntityDescriptor) × (get_entity env.zenoh env.codecs agent.global 5 entity_store
          ≡ (ret d, entity_store)))
    × (entity_instances_of env agent memory_reliable 5 entity_store ≡ [])
    × (get_entity env.zenoh env.codecs agent.global 5 [] ≡ (fail FError.not_found, []))
unfolding get_one query single decode fdu_descriptor_path fdu_instance_path fdu_instance_selector
    node_info_path node_status_path get_instance get_fdu offload_entity get_entity
    entity_descriptor_path get_all_entity_instances entity_instances_selector get_all decode_all
    remove_entity delete_key
offload_entity-gone_example = offload_entity-gone env agent memory_reliable 5 entity_store refl

-- a store with the descriptor alone
abbrev unused_store : World env
unused_store = (fdu_key, raw (7 ∷ [])) ∷ []

offload_fdu-gone_example :
    (◌≡◌ {A = Uuid} 7 7)
    × ((d : FduDescriptor) × (get_fdu env.zenoh env.codecs agent.global 7 unused_store
          ≡ (ret d, unused_store)))
    × (instances_of env agent memory_reliable 7 unused_store ≡ [])
    × (get_fdu env.zenoh env.codecs agent.global 7 [] ≡ (fail FError.not_found, []))
unfolding get_one query single decode fdu_descriptor_path fdu_instance_path fdu_instance_selector
    node_info_path node_status_path get_instance get_fdu offload_fdu get_all_fdu_instances
    fdu_instances_selector get_all decode_all remove_fdu delete_key
offload_fdu-gone_example = offload_fdu-gone env agent memory_reliable 7 unused_store refl

check_fdu_compatibility-Fits_example :
    (d : FduDescriptor) × (info : NodeInfo) × (status : NodeStatus) × (w₁ w₂ w₃ : World env)
    × (get_fdu env.zenoh env.codecs agent.global 7 (store_in defined) ≡ (ret d, w₁))
    × (get_node_info env.zenoh env.codecs agent.global 1 w₁ ≡ (ret info, w₂))
    × (get_node_status env.zenoh env.codecs agent.global 1 w₂ ≡ (ret status, w₃))
    × Fits env agent d info status
    × Stored env agent d w₃ (store_in defined)
unfolding get_one query single decode fdu_descriptor_path fdu_instance_path fdu_instance_selector
    node_info_path node_status_path get_instance get_fdu check_fdu_compatibility has_resources
    has_image faces offered find_root parented names get_node_info get_node_status
check_fdu_compatibility-Fits_example =
    check_fdu_compatibility-Fits env agent 7 (store_in defined) refl

check_fdu_compatibility_bounds_example :
    (d : FduDescriptor) × (info : NodeInfo) × (w₁ w₂ : World env) × (get_fdu env.zenoh env.codecs
        agent.global 7
        (store_in defined)
      ≡ (ret d, w₁))
    × (get_node_info env.zenoh env.codecs agent.global 1 w₁ ≡ (ret info, w₂))
    × (d.computation_requirements.cpu_min_count ≤ length info.cpu)
    × (d.computation_requirements.cpu_min_count < 256)
unfolding get_one query single decode fdu_descriptor_path fdu_instance_path fdu_instance_selector
    node_info_path node_status_path get_instance get_fdu check_fdu_compatibility has_resources
    has_image faces offered find_root parented names get_node_info get_node_status
check_fdu_compatibility_bounds_example =
    check_fdu_compatibility_bounds env agent 7 (store_in defined) refl

get_compatible_nodes_sound_example :
    (nodes : List NodeInfo) × (w₁ : World env) × (get_all_nodes env.zenoh env.codecs agent.global
        (store_in defined)
      ≡ (ret nodes, w₁))
    × (IsSelf env agent 7 100 1 (store_in defined) ⊎ IsOther env agent 7 100 nodes 1)
unfolding get_one query single decode fdu_descriptor_path fdu_instance_path fdu_instance_selector
    node_info_path node_status_path get_instance get_fdu get_all_nodes nodes_selector get_all
    decode_all compatibles others ask_all get_compatible_nodes check_fdu_compatibility has_resources
    has_image faces offered find_root parented names get_node_info get_node_status
get_compatible_nodes_sound_example =
    get_compatible_nodes_sound env agent 7 100 (store_in defined) 1 refl refl (Memᴰ.head refl)

schedule_fdu_sound_example :
    (v : Uuid) × (w₀ w₁ w₂ : World env) × (nodes : List NodeInfo) × (get_all_nodes env.zenoh
        env.codecs agent.global w₀
      ≡ (ret nodes, w₂))
    × (IsSelf env agent 7 100 v w₁ ⊎ IsOther env agent 7 100 nodes v)
    × IsMade env agent 7 100 (instance_in defined) (store_in defined) v
unfolding get_one query single decode fdu_descriptor_path fdu_instance_path fdu_instance_selector
    node_info_path node_status_path get_instance get_fdu get_all_nodes nodes_selector get_all
    decode_all compatibles others ask_all get_compatible_nodes check_fdu_compatibility has_resources
    has_image faces offered find_root parented names get_node_info get_node_status schedule_fdu
    define_fdu plugin_of await_state
schedule_fdu_sound_example =
    schedule_fdu_sound env agent 7 100 2 (store_in defined) chooses_first refl refl

abbrev answers : List Answer
answers = (ok (ok true), 3) ∷ (ok (ok false), 4) ∷ []

entity_scheduling-IsScheduled_example :
    IsScheduled env agent 100 entity_record entity
      (entity_scheduling env agent 100 entity_record entity (store_in defined)).1
unfolding get_one query single decode fdu_descriptor_path fdu_instance_path fdu_instance_selector
    node_info_path node_status_path get_instance get_fdu entity_scheduling onboard_all start_all
    start_one server_for add_entity_instance entity_instance_path put_value
entity_scheduling-IsScheduled_example =
    entity_scheduling-IsScheduled env agent 100 entity_record entity (store_in defined) refl

scheduling_task-Ends_example :
    Ends env agent
      (IsScheduled env agent 100 entity_record entity)
      entity_record
      (entity_scheduling env agent 100 entity_record entity (store_in defined)).0
      (scheduling_task env agent 100 entity_record entity (store_in defined))
scheduling_task-Ends_example =
    scheduling_task-Ends env agent 100 entity_record entity (store_in defined)

-- two interfaces on a bridge: the first on one that the node does not have
abbrev bridged_to : String → Interface
bridged_to parent = record {
  name = "eth";
  kind = InterfaceKind.virtual;
  mac_address = none;
  virtual_interface = record { vif_kind = bridged; parent = some parent; bandwidht = none };
  cp_id = none;
}
