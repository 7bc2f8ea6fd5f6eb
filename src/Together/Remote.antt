-- ===== src/Together/Remote.antt =====
-- Several agents: an agent that is asked to move an instance of another node asks the agent of that
-- node, by the remote interface that this one serves.
use fog.Prelude.{ℕ, ◌≡◌, refl, ap, ◌∙◌, false, ◌==◌}
use fog.Sdk.Fresult.{FError}
use fog.Sdk.Outcome.{Result, ret, Call, Task, rpc_call, settle_rpc}
use fog.Sdk.Types.{Uuid}
use fog.Sdk.Im.Fdu.{FduRecord, FduState, defined, configured, running}
use fog.Sdk.Im.Node.{NodeInfo}
use fog.Connector.Global.Fdus.{get_instance}
use fog.Connector.Global.Nodes.{get_node_info}
use fog.Interfaces.Orchestrator.{AgentOrchestratorInterface}
use fog.Interfaces.Clients.{called, orchestrator_client}
use fog.Agent.Env.{Env, World, Orchestrator}
use fog.Agent.State.{Agent}
use fog.Agent.Instances as handlers
use fog.Agent.Interfaces.{orchestrator_interface}

-- The operations on an instance that an agent passes on.
pub data Handler : Type 0 where
  configures starts stops cleans : Handler

module _ {M : Type 0 → Type 0} where
  abbrev pub ask : Handler → AgentOrchestratorInterface M → Uuid → M FduRecord
  ask configures i = i.configure_fdu
  ask starts i = i.start_fdu
  ask stops i = i.stop_fdu
  ask cleans i = i.clean_fdu

-- the method of the client that passes the operation on
abbrev remote :
    {W : Type 0} → Handler → Orchestrator W → Uuid → Uuid → Call W (Result FError FduRecord)
remote configures client = client.configure_fdu
remote starts client = client.start_fdu
remote stops client = client.stop_fdu
remote cleans client = client.clean_fdu

remote_lem :
    {W : Type 0} (op : Handler) (serves : Uuid → AgentOrchestratorInterface (Task W))
    (server u : Uuid) (w : W)
    → remote op (orchestrator_client serves) server u w ≡ called (ask op (serves server) u) w
remote_lem configures serves server u w = refl
remote_lem starts serves server u w = refl
remote_lem stops serves server u w = refl
remote_lem cleans serves server u w = refl

module _ (env : Env) (self : Agent) where
  elsewhere_lem :
      (target : FduState) (plugin_call : Uuid → Uuid → Call (World env) (Result FError Uuid))
      (remote_call : Uuid → Uuid → Call (World env) (Result FError FduRecord)) (fuel : ℕ)
      (known : FduRecord) (info : NodeInfo) (w : World env)
      → (known.node == self.node_uuid) ≡ false
      → get_instance env.zenoh env.codecs self.global known.uuid w ≡ (ret known, w)
      → get_node_info env.zenoh env.codecs self.global known.node w ≡ (ret info, w)
      → handlers.transition env self target plugin_call remote_call fuel known.uuid w
        ≡ rpc_call (remote_call info.agent_service_uuid known.uuid) w
  unfolding handlers.transition handlers.remote_agent
  elsewhere_lem target plugin_call remote_call fuel known info w apart got told =
      rw (got, apart, told)

  handler_lem :
      (op : Handler) (fuel : ℕ) (known : FduRecord) (info : NodeInfo) (w : World env)
      → (known.node == self.node_uuid) ≡ false
      → get_instance env.zenoh env.codecs self.global known.uuid w ≡ (ret known, w)
      → get_node_info env.zenoh env.codecs self.global known.node w ≡ (ret info, w)
      → ask op (orchestrator_interface env self fuel) known.uuid w
        ≡ rpc_call (remote op env.orchestrator info.agent_service_uuid known.uuid) w
  unfolding handlers.configure_fdu handlers.start_fdu handlers.stop_fdu handlers.clean_fdu
  handler_lem configures =
      elsewhere_lem configured env.hypervisor.configure_fdu env.orchestrator.configure_fdu
  handler_lem starts = elsewhere_lem running env.hypervisor.start_fdu env.orchestrator.start_fdu
  handler_lem stops = elsewhere_lem configured env.hypervisor.stop_fdu env.orchestrator.stop_fdu
  handler_lem cleans = elsewhere_lem defined env.hypervisor.clean_fdu env.orchestrator.clean_fdu

  -- An agent that is asked to configure, start, stop or clean an instance that the store has on
  -- another node, whose agent the store knows, does what a remote call of the same operation of
  -- that agent's interface does, whatever this agent makes of it: its record and its error come
  -- back, and so does the world that it leaves.
  pub ask_elsewhere :
      (op : Handler) (fuel : ℕ) (known : FduRecord) (info : NodeInfo) (w : World env)
      (serves : Uuid → AgentOrchestratorInterface (Task (World env)))
      → env.orchestrator ≡ orchestrator_client serves
      → (known.node == self.node_uuid) ≡ false
      → get_instance env.zenoh env.codecs self.global known.uuid w ≡ (ret known, w)
      → get_node_info env.zenoh env.codecs self.global known.node w ≡ (ret info, w)
      → ask op (orchestrator_interface env self fuel) known.uuid w
        ≡ rpc_call (called (ask op (serves info.agent_service_uuid) known.uuid)) w
  ask_elsewhere op fuel known info w serves client apart got told =
      handler_lem op fuel known info w apart got told
      ∙ (ap (λ c. rpc_call (remote op c info.agent_service_uuid known.uuid) w) client
          ∙ ap (λ x. (settle_rpc x.0, x.1))
              (remote_lem op serves info.agent_service_uuid known.uuid w))
