-- ===== src/Dummy/Serving/Laws.antt =====
-- What a plugin that serves has told the agent, and what the agent can refuse.
use fog.Prelude.{◌≡◌, String, some}
use fog.Sdk.Outcome.{ok, panic}
use fog.Sdk.Types.{Uuid, PluginKind}
use fog.Interfaces.Clients.{called}
use fog.Agent.Env.{Env, World}
use fog.Agent.State.{Agent, AgentInner, lookup}
use fog.Agent.Plugins.{register_plugin}
use fog.Dummy.Serving.{Surroundings, run}

module _ (env : Env) (self : Agent) (around : Surroundings (AgentInner × World env)) where
  -- Where a plugin for its hypervisor is registered at the agent that it has found, `run` of a
  -- plugin panics: its own server is neither registered nor started, and the agent's state and the
  -- world are what they were when it had initialized its server.
  pub run_second :
      (agent p : Uuid) (hv : String) (s s₁ : AgentInner × World env) (inner : AgentInner)
      (w : World env)
      → (around.agents agent).register_plugin ≡ (λ u kind. called (register_plugin env self u kind))
      → around.server.connect s ≡ (ok tt, s₁)
      → around.server.initialize s₁ ≡ (ok tt, (inner, w))
      → lookup hv inner.hypervisors ≡ some p
      → run around (PluginKind.hypervisor hv) (some agent) s ≡ (panic, (inner, w))
  unfolding run register_plugin
  run_second agent p hv s s₁ inner w serves connected initialized taken =
      rw (connected, initialized, serves, taken)
