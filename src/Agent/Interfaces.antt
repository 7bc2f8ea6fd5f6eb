-- ===== src/Agent/Interfaces.antt =====
-- The interfaces that an agent serves, `impl AgentOrchestratorInterface for Agent`, `impl
-- AgentPluginInterface for Agent` and `impl OS for Agent` of fog05-agent/src/agent.rs, as a whole.
-- The loops of the first have the fuel `fuel`.
use fog.Prelude.{ℕ}
use fog.Sdk.Fresult.{FError}
use fog.Sdk.Outcome.{Task, pure, raise}
use fog.Sdk.Types.{Uuid}
use fog.Interfaces.Orchestrator.{AgentOrchestratorInterface}
use fog.Interfaces.AgentPlugin.{AgentPluginInterface}
use fog.Interfaces.Os.{Os}
use fog.Agent.Env.{Env, World}
use fog.Agent.State.{Agent, AgentInner}
use fog.Agent.Instances.{
  define_fdu, configure_fdu, start_fdu, stop_fdu, clean_fdu, undefine_fdu, fdu_status,
}
use fog.Agent.Catalog.{fdu_info, onboard_fdu, onboard_entity, offload_fdu, offload_entity}
use fog.Agent.Scheduling.{schedule_fdu}
use fog.Agent.Compatibility.{check_fdu_compatibility}
use fog.Agent.Entities.{schedule_entity, deschedule_entity}
use fog.Agent.Plugins.{outside, register_plugin, unregister_plugin}
use fog.Agent.Os as os
use fog.Agent.Os.Calls.{System}

module _ (env : Env) (self : Agent) where
  abbrev pub orchestrator_interface : ℕ → AgentOrchestratorInterface (Task (World env))
  orchestrator_interface fuel = record {
    check_fdu_compatibility = check_fdu_compatibility env self;
    schedule_fdu = schedule_fdu env self fuel;
    schedule_entity = schedule_entity env self;
    deschedule_entity = deschedule_entity env self;
    onboard_fdu = onboard_fdu env self;
    onboard_entity = onboard_entity env self;
    define_fdu = define_fdu env self fuel;
    configure_fdu = configure_fdu env self fuel;
    start_fdu = start_fdu env self fuel;
    run_fdu = λ x0. raise FError.unimplemented;
    log_fdu = λ x0. raise FError.unimplemented;
    ls_fdu = λ x0. raise FError.unimplemented;
    file_fdu = λ x0 x1. raise FError.unimplemented;
    stop_fdu = stop_fdu env self fuel;
    clean_fdu = clean_fdu env self fuel;
    undefine_fdu = undefine_fdu env self;
    offload_fdu = offload_fdu env self;
    offload_entity = offload_entity env self;
    fdu_status = fdu_status env self;
    create_floating_ip = raise FError.unimplemented;
    delete_floating_ip = λ x0. raise FError.unimplemented;
    assing_floating_ip = λ x0 x1. raise FError.unimplemented;
    retain_floating_ip = λ x0 x1. raise FError.unimplemented;
  }

  abbrev pub get_node_uuid : {W : Type 0} → Task W Uuid
  get_node_uuid = pure self.node_uuid

  -- The state of the agent is behind its lock, where plugins are registered.
  abbrev pub agent_plugin_interface : AgentPluginInterface (Task (AgentInner × World env))
  agent_plugin_interface = record {
    fdu_info = λ fdu_uuid. outside env self (fdu_info env self fdu_uuid);
    image_info = λ x0. raise FError.unimplemented;
    node_fdu_info = λ x0 x1 x2. raise FError.unimplemented;
    network_info = λ x0. raise FError.unimplemented;
    connection_point_info = λ x0. raise FError.unimplemented;
    node_management_address = λ x0. raise FError.unimplemented;
    create_virtual_network = λ x0. raise FError.unimplemented;
    remove_virtual_network = λ x0. raise FError.unimplemented;
    create_connection_point = λ x0. raise FError.unimplemented;
    remove_connection_point = λ x0. raise FError.unimplemented;
    bind_cp_to_fdu_face = λ x0 x1 x2. raise FError.unimplemented;
    unbind_cp_from_fdu_face = λ x0 x1 x2. raise FError.unimplemented;
    bind_cp_to_network = λ x0 x1. raise FError.unimplemented;
    unbind_cp_from_network = λ x0 x1. raise FError.unimplemented;
    get_node_uuid = get_node_uuid;
    register_plugin = register_plugin env self;
    unregister_plugin = unregister_plugin env self;
  }

abbrev pub os_interface : {W : Type 0} → System W → Agent → Os (Task W)
os_interface system self = record {
  dir_exists = os.dir_exists system;
  create_dir = os.create_dir system;
  rm_dir = os.rm_dir system;
  download_file = os.download_file system;
  create_file = os.create_file system;
  rm_file = os.rm_file system;
  store_file = os.store_file system;
  read_file = os.read_file system;
  file_exists = os.file_exists system;
  execute_command = os.execute_command system;
  send_signal = os.send_signal system;
  check_if_pid_exists = os.check_if_pid_exists system;
  get_interface_type = os.get_interface_type;
  set_interface_unavailable = os.set_interface_unavailable;
  set_interface_available = os.set_interface_available;
  get_local_mgmt_address = os.get_local_mgmt_address;
  get_local_mgmt_interface = os.get_local_mgmt_interface self;
}
