-- ===== src/Together/Laws.antt =====
-- An instance that the agent starts through the dummy hypervisor, on a reliable store.
use fog.Prelude.{ℕ, suc, ◌≡◌, [], ◌∷◌}
use fog.Sdk.Outcome.{Outcome, ok, ret}
use fog.Sdk.Types.{Uuid}
use fog.Sdk.Im.Fdu.{FduRecord}
use fog.Zenoh.{Zenoh}
use fog.Zenoh.Reliable.{Reliable}
use fog.Connector.Codecs.{Codecs}
use fog.Connector.Global.Defs.{Global}
use fog.Connector.Global.Fdus as global
use fog.Connector.Global.Laws as global_laws
use fog.Connector.Local.Defs.{Local}
use fog.Connector.Local.Fdus as local
use fog.Connector.Local.Laws as local_laws
use fog.Agent.Env as agent
use fog.Agent.State.{Agent}
use fog.Agent.Instances as handlers
use fog.Dummy.Hypervisor.Configure.{DummyHypervisor}
use fog.Dummy.Hypervisor as dummy
use fog.Dummy.Hypervisor.{Fdus}
use fog.Agent.Monitoring.{monitoring_fdus}
use fog.Together.{Rest, plugin_env}

module _ (env : agent.Env) (self : Agent) (r : Reliable env.zenoh) (rest : Rest (agent.World env))
    (hv : DummyHypervisor) (fdus : Fdus) where
  -- `start_fdu` of the plugin, as it runs in the world `w`.
  abbrev pub plugin_start : Uuid → agent.World env → Outcome Uuid × (Fdus × agent.World env)
  plugin_start u w = dummy.start_fdu (plugin_env env self rest) hv u (fdus, w)

  -- When the monitoring, which runs beside the handler, gets the record `up` that was written to the
  -- node's part of the store. From the world `w` to the world `w'` it gets it, after which nothing
  -- else happens; or it does not, whatever else happens, and a read of the handler finds the
  -- instance as it was, `known`, before the handler sleeps. The number counts these reads.
  pub data Meets (up known : FduRecord) : ℕ → agent.World env → agent.World env → Type 0 where
    gets :
        {w w' : agent.World env}
        → monitoring_fdus env self (ok up ∷ []) w ≡ (ret tt, w')
        → Meets up known 0 w w'
    passes :
        {n : ℕ} {w w' : agent.World env}
        → global.get_instance env.zenoh env.codecs self.global known.uuid w' ≡ (ret known, w')
        → global_laws.IsAlone r env.codecs self.global known w'
        → Meets up known n w' (env.sleep w')
        → Meets up known (suc n) w w'
