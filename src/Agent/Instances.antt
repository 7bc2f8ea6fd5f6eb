-- ===== src/Agent/Instances.antt =====
-- The life of an FDU instance, in `impl AgentOrchestratorInterface for Agent` of
-- fog05-agent/src/agent.rs: define, configure, start, stop, clean, undefine and status. The read
-- guard on the agent's state is held through each of them, so the state is an argument.
pub mod Polling
pub mod Waiting
pub mod States
use fog.Prelude.{
  ℕ, zero, suc, String, ◌≡◌, Bool, true, false, Option, none, some, List, ◌==◌, if◌then◌else◌,
}
use fog.Sdk.Fresult.{FError}
use fog.Sdk.Outcome.{
  Result, Call, Outcome, ret, fail, hang, Task, pure, ok_or, rpc_call, ◌>>=◌, ◌>>◌,
}
use fog.Sdk.Types.{Uuid}
use fog.Sdk.Im.Fdu.{FduDescriptor, FduRecord, FduState, defined, configured, running}
use fog.Connector.Global.Fdus.{get_fdu, get_instance, remove_instance}
use fog.Connector.Global.Nodes.{get_node_info}
use fog.Agent.Env.{Env, World}
use fog.Agent.State.{Agent, lookup}

-- What one turn of the loop makes of what it has read: it ends, or it sleeps and goes on.
pub data Turn : Type 0 where
  done : Outcome FduRecord → Turn
  again : Turn

-- `match instance.status`, where the loop waits for the state `target`
abbrev pub judge_state : FduState → FduRecord → FduState → Turn
judge_state target found (FduState.error e) = done (fail (FError.hypervisor_error e))
judge_state defined found defined = done (ret found)
judge_state configured found configured = done (ret found)
judge_state running found running = done (ret found)
judge_state target found _ = again

-- `match res`
abbrev pub judge : FduState → Outcome FduRecord → Turn
judge target (ret found) = judge_state target found found.status
judge target (fail FError.not_found) = again
judge target o = done o

-- The end of a turn: the loop's result, or the rest of the loop.
abbrev pub proceed : {W : Type 0} → Turn → W → Task W FduRecord → Outcome FduRecord × W
proceed (done result) w rest = (result, w)
proceed again w rest = rest w

module _ (env : Env) (self : Agent) where
  -- The `loop` of the handlers: read the record of the instance, 100 microseconds apart, until it
  -- is in the wanted state or in an error. `hang` is the loop still running after `fuel` reads.
  unfoldable pub await_state : FduState → ℕ → Uuid → Task (World env) FduRecord
  await_state target zero uuid w = (hang, w)
  await_state target (suc fuel) uuid w =
      let (o, w') = get_instance env.zenoh env.codecs self.global uuid w in
      proceed (judge target o) w' (λ w₁. await_state target fuel uuid (env.sleep w₁))

  -- The client of the plugin that runs an instance: the one for the hypervisor of its descriptor.
  unfoldable pub plugin_of : FduDescriptor → Task (World env) Uuid
  plugin_of descriptor =
      ok_or (lookup descriptor.hypervisor self.inner.hypervisors) FError.not_found

  unfoldable pub local_plugin : FduRecord → Task (World env) Uuid
  unfolding plugin_of
  local_plugin found = do
    descriptor ← get_fdu env.zenoh env.codecs self.global found.fdu_uuid
    plugin_of descriptor

  -- The agent of the node that an instance is on.
  unfoldable pub remote_agent : FduRecord → Task (World env) Uuid
  remote_agent found = do
    node_info ← get_node_info env.zenoh env.codecs self.global found.node
    pure node_info.agent_service_uuid

  -- The common shape of configure, start, stop and clean. On the node of the instance: ask the
  -- plugin, then wait for the state that the plugin has to reach. Elsewhere: ask the other agent.
  unfoldable pub transition :
      (target : FduState) (plugin_call : Uuid → Uuid → Call (World env) (Result FError Uuid))
      (remote_call : Uuid → Uuid → Call (World env) (Result FError FduRecord)) (fuel : ℕ)
      → Uuid
      → Task (World env) FduRecord
  unfolding local_plugin remote_agent await_state
  transition target plugin_call remote_call fuel uuid = do
    found ← get_instance env.zenoh env.codecs self.global uuid
    if found.node == self.node_uuid
        then (do
          plugin ← local_plugin found
          rpc_call (plugin_call plugin uuid)
          await_state target fuel uuid)
        else (do server ← remote_agent found; rpc_call (remote_call server uuid))

  unfoldable pub configure_fdu : ℕ → Uuid → Task (World env) FduRecord
  unfolding transition
  configure_fdu = transition configured env.hypervisor.configure_fdu env.orchestrator.configure_fdu

  unfoldable pub start_fdu : ℕ → Uuid → Task (World env) FduRecord
  unfolding transition
  start_fdu = transition running env.hypervisor.start_fdu env.orchestrator.start_fdu

  unfoldable pub stop_fdu : ℕ → Uuid → Task (World env) FduRecord
  unfolding transition
  stop_fdu = transition configured env.hypervisor.stop_fdu env.orchestrator.stop_fdu

  unfoldable pub clean_fdu : ℕ → Uuid → Task (World env) FduRecord
  unfolding transition
  clean_fdu = transition defined env.hypervisor.clean_fdu env.orchestrator.clean_fdu

  unfoldable pub define_fdu : ℕ → Uuid → Task (World env) FduRecord
  unfolding plugin_of await_state
  define_fdu fuel fdu_uuid = do
    descriptor ← get_fdu env.zenoh env.codecs self.global fdu_uuid
    plugin ← plugin_of descriptor
    made ← rpc_call (env.hypervisor.define_fdu plugin descriptor)
    await_state defined fuel made.uuid

  -- The other agent is asked to clean the instance, as the source has it.
  unfoldable pub undefine_fdu : Uuid → Task (World env) FduRecord
  unfolding local_plugin remote_agent
  undefine_fdu uuid = do
    found ← get_instance env.zenoh env.codecs self.global uuid
    if found.node == self.node_uuid
        then (do
          plugin ← local_plugin found
          rpc_call (env.hypervisor.undefine_fdu plugin uuid)
          remove_instance env.zenoh env.codecs self.global uuid
          pure found)
        else (do server ← remote_agent found; rpc_call (env.orchestrator.clean_fdu server uuid))

  -- The answer of the plugin is passed on: one `?` for the transport, none for the answer.
  unfoldable pub fdu_status : Uuid → Task (World env) FduRecord
  unfolding local_plugin
  fdu_status uuid = do
    found ← get_instance env.zenoh env.codecs self.global uuid
    plugin ← local_plugin found
    rpc_call (env.hypervisor.get_fdu_status plugin uuid)
