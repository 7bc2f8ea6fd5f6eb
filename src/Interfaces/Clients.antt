-- ===== src/Interfaces/Clients.antt =====
-- A remote call of zrpc: the server runs the method, and its answer comes back; there is none from a
-- server that has panicked, or that never ends. What the client of the agents is then, as the
-- hypotheses on the parameter `orchestrator` say it: `serves` is the server of a UUID.
use fog.Prelude.{String}
use fog.Sdk.Fresult.{FError}
use fog.Sdk.Outcome.{Outcome, Result, ok, err, ret, fail, panic, hang, Call, Task}
use fog.Sdk.Types.{Uuid}
use fog.Interfaces.Orchestrator.{AgentOrchestratorInterface}
use fog.Agent.Env.{Orchestrator}

abbrev pub reply : {A : Type 0} → Outcome A → Result String (Result FError A)
reply (ret a) = ok (ok a)
reply (fail e) = ok (err e)
reply panic = err "no answer"
reply hang = err "no answer"

abbrev pub called : {W A : Type 0} → Task W A → Call W (Result FError A)
called m w = let (o, w') = m w in (reply o, w')

module _ {W : Type 0} where
  -- `AgentOrchestratorInterfaceClient`
  abbrev pub orchestrator_client : (Uuid → AgentOrchestratorInterface (Task W)) → Orchestrator W
  orchestrator_client serves = record {
    check_fdu_compatibility = λ server a. called ((serves server).check_fdu_compatibility a);
    onboard_fdu = λ server a. called ((serves server).onboard_fdu a);
    offload_fdu = λ server a. called ((serves server).offload_fdu a);
    schedule_fdu = λ server a. called ((serves server).schedule_fdu a);
    define_fdu = λ server a. called ((serves server).define_fdu a);
    configure_fdu = λ server a. called ((serves server).configure_fdu a);
    start_fdu = λ server a. called ((serves server).start_fdu a);
    stop_fdu = λ server a. called ((serves server).stop_fdu a);
    clean_fdu = λ server a. called ((serves server).clean_fdu a);
    undefine_fdu = λ server a. called ((serves server).undefine_fdu a);
    onboard_entity = λ server a. called ((serves server).onboard_entity a);
    offload_entity = λ server a. called ((serves server).offload_entity a);
    schedule_entity = λ server a. called ((serves server).schedule_entity a);
    deschedule_entity = λ server a. called ((serves server).deschedule_entity a);
  }
