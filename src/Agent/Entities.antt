-- ===== src/Agent/Entities.antt =====
-- Entities, in fog05-agent/src/agent.rs: `entity_scheduling` and `entity_unscheduling`, the tasks
-- that run them, and `schedule_entity` and `deschedule_entity`, which spawn those tasks. The tasks
-- use the agent through its own remote interface, as the source does.
pub mod Laws
use fog.Prelude.{ℕ, Option, none, some, List, [], ◌∷◌, ◌++◌, ◌==◌, if◌then◌else◌}
use fog.Sdk.Fresult.{FError}
use fog.Sdk.Fresult.{display}
use fog.Sdk.Outcome.{
  Outcome, ret, fail, panic, hang, Task, pure, ok_or, unwrap, rpc_call, ◌>>=◌, ◌>>◌,
}
use fog.Sdk.Types.{Uuid}
use fog.Sdk.Im.Fdu.{FduDescriptor, FduRecord}
use fog.Sdk.Im.Entity.{EntityDescriptor, EntityRecord, EntityStatus}
use fog.Connector.Global.Fdus.{get_instance}
use fog.Connector.Global.Nodes.{get_node_info}
use fog.Connector.Global.Entities.{get_entity, get_entity_instance, add_entity_instance}
use fog.Agent.Env.{Env, World, Job}
use fog.Agent.State.{Agent}
use fog.Agent.Catalog.{new_uuid}

abbrev pub with_status : EntityStatus → EntityRecord → EntityRecord
with_status status known = record known { status = status }

module _ (env : Env) (self : Agent) where
  -- `instance.status = ..; zconnector.global.add_entity_instance(&instance).await?`
  abbrev pub publish : EntityRecord → Task (World env) Unit
  publish known = add_entity_instance env.zenoh env.codecs self.global known

  -- The server for an instance: this agent, or the agent of the instance's node.
  unfoldable pub server_for : Uuid → FduRecord → Task (World env) Uuid
  server_for my_uuid found = if found.node == self.node_uuid then pure my_uuid else (do
    node_info ← get_node_info env.zenoh env.codecs self.global found.node
    pure node_info.agent_service_uuid)

  unfoldable pub onboard_all : Uuid → List FduDescriptor → Task (World env) Unit
  onboard_all my_uuid [] = pure tt
  onboard_all my_uuid (fdu ∷ fdus) = do
    rpc_call (env.orchestrator.onboard_fdu my_uuid fdu)
    onboard_all my_uuid fdus

  unfoldable pub start_one : Uuid → FduDescriptor → Task (World env) Uuid
  unfolding server_for
  start_one my_uuid fdu = do
    fdu_uuid ← ok_or fdu.uuid FError.malformed_descriptor
    found ← rpc_call (env.orchestrator.schedule_fdu my_uuid fdu_uuid)
    server ← server_for my_uuid found
    rpc_call (env.orchestrator.configure_fdu server found.uuid)
    rpc_call (env.orchestrator.start_fdu server found.uuid)
    pure found.uuid

  -- The loop that starts the FDUs and pushes each instance on the record.
  unfoldable pub start_all :
      Uuid → EntityRecord → List FduDescriptor → Task (World env) EntityRecord
  unfolding start_one
  start_all my_uuid known [] = pure known
  start_all my_uuid known (fdu ∷ fdus) = do
    fdu_instance ← start_one my_uuid fdu
    start_all my_uuid (record known { fdus = known.fdus ++ fdu_instance ∷ [] }) fdus

  unfoldable pub entity_scheduling : Uuid → EntityRecord → EntityDescriptor → Task (World env) Unit
  unfolding onboard_all start_all
  entity_scheduling my_uuid known descriptor = do
    onboard_all my_uuid descriptor.fdus
    publish (with_status EntityStatus.onboarded known)
    publish (with_status EntityStatus.starting known)
    started ← start_all my_uuid (with_status EntityStatus.starting known) descriptor.fdus
    publish (with_status EntityStatus.running started)

  unfoldable pub stop_one : Uuid → Uuid → Task (World env) Unit
  unfolding server_for
  stop_one my_uuid fdu_inst_id = do
    found ← get_instance env.zenoh env.codecs self.global fdu_inst_id
    server ← server_for my_uuid found
    rpc_call (env.orchestrator.stop_fdu server fdu_inst_id)
    rpc_call (env.orchestrator.clean_fdu server fdu_inst_id)
    rpc_call (env.orchestrator.undefine_fdu server fdu_inst_id)
    pure tt

  unfoldable pub stop_all : Uuid → List Uuid → Task (World env) Unit
  unfolding stop_one
  stop_all my_uuid [] = pure tt
  stop_all my_uuid (fdu ∷ fdus) = do stop_one my_uuid fdu; stop_all my_uuid fdus

  unfoldable pub offload_all : Uuid → List FduDescriptor → Task (World env) Unit
  offload_all my_uuid [] = pure tt
  offload_all my_uuid (fdu ∷ fdus) = do
    fdu_uuid ← ok_or fdu.uuid FError.malformed_descriptor
    rpc_call (env.orchestrator.offload_fdu my_uuid fdu_uuid)
    offload_all my_uuid fdus

  unfoldable pub entity_unscheduling : Uuid → EntityRecord → Task (World env) Unit
  unfolding stop_all offload_all
  entity_unscheduling my_uuid known = do
    descriptor ← get_entity env.zenoh env.codecs self.global known.id
    publish (with_status EntityStatus.stopping known)
    stop_all my_uuid known.fdus
    publish (with_status EntityStatus.stopped known)
    publish (with_status EntityStatus.offloading known)
    offload_all my_uuid descriptor.fdus
    publish (with_status EntityStatus.offloaded known)

  -- The end of a spawned task: an error is written into the record that the task was spawned with,
  -- and whether that succeeds is not looked at.
  unfoldable pub report : EntityRecord → Outcome Unit → World env → World env
  unfolding display
  report known (fail e) w = (publish (with_status (EntityStatus.error (display e)) known) w).1
  report known _ w = w

  unfoldable pub scheduling_task : Uuid → EntityRecord → EntityDescriptor → World env → World env
  unfolding entity_scheduling report
  scheduling_task my_uuid known descriptor w =
      let (res, w') = entity_scheduling my_uuid known descriptor w in report known res w'

  unfoldable pub unscheduling_task : Uuid → EntityRecord → World env → World env
  unfolding entity_unscheduling report
  unscheduling_task my_uuid known w =
      let (res, w') = entity_unscheduling my_uuid known w in report known res w'

  abbrev spawning : Job → Task (World env) Unit
  spawning job w = (ret tt, env.spawn job w)

  abbrev new_record : Uuid → Uuid → EntityRecord
  new_record instance_uuid id = record {
    uuid = instance_uuid;
    id = id;
    status = EntityStatus.onboarding;
    fdus = [];
    virtual_links = [];
    fim_id = none;
    cloud_id = none;
  }

  unfoldable pub schedule_entity : Uuid → Task (World env) Uuid
  schedule_entity entity = do
    descriptor ← get_entity env.zenoh env.codecs self.global entity
    instance_uuid ← new_uuid env
    id ← ok_or descriptor.uuid FError.malformed_descriptor
    publish (new_record instance_uuid id)
    my_uuid ← unwrap self.inner.instance_uuid
    spawning (Job.scheduling my_uuid (new_record instance_uuid id) descriptor)
    pure instance_uuid

  unfoldable pub deschedule_entity : Uuid → Task (World env) Uuid
  deschedule_entity entity = do
    found ← get_entity_instance env.zenoh env.codecs self.global entity
    my_uuid ← unwrap self.inner.instance_uuid
    spawning (Job.unscheduling my_uuid found)
    pure entity
