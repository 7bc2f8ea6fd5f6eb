-- ===== src/Together/Undefined.antt =====
-- An instance that is undefined from another node.
use fog.Prelude.{ℕ, ◌≡◌, sym, ap, ◌∙◌, subst, false, ◌==◌}
use fog.Sdk.Outcome.{ok, Outcome, ret, fail, panic, hang, Task, rpc_call}
use fog.Sdk.Outcome.Laws.{rpc_call-eq_ret}
use fog.Sdk.Types.{Uuid}
use fog.Sdk.Im.Fdu.{FduRecord, defined}
use fog.Sdk.Im.Node.{NodeInfo}
use fog.Connector.Global.Fdus.{get_instance}
use fog.Connector.Global.Nodes.{get_node_info}
use fog.Interfaces.Orchestrator.{AgentOrchestratorInterface}
use fog.Interfaces.Clients.{called, reply, orchestrator_client}
use fog.Agent.Env.{Env, World}
use fog.Agent.State.{Agent}
use fog.Agent.Instances as handlers
use fog.Agent.Instances.States.{clean_fdu-read}

reply-eq_ok : {A : Type 0} (o : Outcome A) {a : A} → reply o ≡ ok (ok a) → o ≡ ret a
reply-eq_ok (ret b) h = cc h
reply-eq_ok (fail e) h = cc h
reply-eq_ok panic h = cc h
reply-eq_ok hang h = cc h

module _ (env : Env) (here there : Agent) where
  asked_to_clean :
      (known : FduRecord) (info : NodeInfo) (w : World env)
      (serves : Uuid → AgentOrchestratorInterface (Task (World env)))
      → env.orchestrator ≡ orchestrator_client serves
      → (known.node == here.node_uuid) ≡ false
      → get_instance env.zenoh env.codecs here.global known.uuid w ≡ (ret known, w)
      → get_node_info env.zenoh env.codecs here.global known.node w ≡ (ret info, w)
      → handlers.undefine_fdu env here known.uuid w
        ≡ rpc_call (called ((serves info.agent_service_uuid).clean_fdu known.uuid)) w
  unfolding handlers.undefine_fdu handlers.remote_agent
  asked_to_clean known info w serves client apart got told =
      rw (got, apart, told)
        (ap (λ c. rpc_call (c.clean_fdu info.agent_service_uuid known.uuid) w) client)

  -- Two agents of one system on one store, of which the second serves its `clean_fdu` to the
  -- first: where an instance of the second agent's node is recorded, and the first agent, which
  -- is on another node, knows that node, an `undefine_fdu` of the first agent that returns a
  -- record has not removed the instance. Its last call has read that record from the store, in
  -- the state defined.
  pub undefine_fdu-remains :
      (fuel : ℕ) (known : FduRecord) (info : NodeInfo) (w : World env) {found : FduRecord}
      {w' : World env} (serves : Uuid → AgentOrchestratorInterface (Task (World env)))
      → env.orchestrator ≡ orchestrator_client serves
      → (serves info.agent_service_uuid).clean_fdu known.uuid w
        ≡ handlers.clean_fdu env there fuel known.uuid w
      → (known.node == here.node_uuid) ≡ false
      → known.node ≡ there.node_uuid
      → here.global ≡ there.global
      → get_instance env.zenoh env.codecs here.global known.uuid w ≡ (ret known, w)
      → get_node_info env.zenoh env.codecs here.global known.node w ≡ (ret info, w)
      → handlers.undefine_fdu env here known.uuid w ≡ (ret found, w')
      → (found.status ≡ defined)
        × ((w₁ : World env) × (get_instance env.zenoh env.codecs here.global known.uuid w₁
              ≡ (ret found, w')))
  undefine_fdu-remains fuel known info w {found} {w'} serves client served apart own shared got told
        returned =
      let asked = sym (asked_to_clean known info w serves client apart got told) ∙ returned in
      let answer =
        rpc_call-eq_ret (called ((serves info.agent_service_uuid).clean_fdu known.uuid)) w asked in
      let m = (serves info.agent_service_uuid).clean_fdu known.uuid in
      let cleaned : handlers.clean_fdu env there fuel known.uuid w ≡ (ret found, w') =
        sym served ∙ (λ i. (reply-eq_ok (m w).0 (λ j. (answer j).0) i, (answer i).1)) in
      let seen =
        subst (λ g. get_instance env.zenoh env.codecs g known.uuid w ≡ (ret known, w)) shared got in
      let (is, (w₁, read)) = clean_fdu-read env there fuel known.uuid w seen own cleaned in
      (
        is,
        (
          w₁,
          subst (λ g. get_instance env.zenoh env.codecs g known.uuid w₁ ≡ (ret found, w'))
              (sym shared) read,
        ),
      )
