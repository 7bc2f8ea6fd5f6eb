-- ===== src/Agent/Plugins.antt =====
-- `register_plugin` and `unregister_plugin` of `impl AgentPluginInterface for Agent`, and
-- `default_network_task`, the task that the first of them spawns. They hold the write guard, so the
-- state of the agent is part of their world: what they wrote stays written when they fail later.
pub mod Laws
pub mod Restore
use fog.Prelude.{ℕ, zero, suc, String, ◌<>◌, true, false, Option, none, some}
use fog.Sdk.Fresult.{FError}
use fog.Sdk.Outcome.{
  Outcome, ret, fail, hang, panic, Result, Task, Call, pure, raise, zenoh_call, rpc_call, ◌>>=◌,
  ◌>>◌,
}
use fog.Sdk.Types.{Uuid, PluginKind, PluginInfo, display}
use fog.Connector.Local.Nodes.{add_plugin, get_plugin, remove_plugin}
use fog.Agent.Env.{Env, World, Job}
use fog.Agent.State.{Agent, AgentInner, lookup, insert, remove}

abbrev pub plugin_info : Uuid → PluginKind → PluginInfo
plugin_info plugin_uuid kind = record {
  uuid = plugin_uuid;
  kind = kind;
  name = display kind <> "Plugin";
}

module _ (env : Env) (self : Agent) where
  -- the state of the agent behind its lock, and the world
  abbrev pub Locked : Type 0
  Locked = AgentInner × World env

  -- A call of the connector leaves the agent's state alone.
  abbrev pub outside : {A : Type 0} → Task (World env) A → Task Locked A
  outside m (inner, w) = let (o, w') = m w in (o, (inner, w'))

  abbrev pub modify : (AgentInner → AgentInner) → Task Locked Unit
  modify f (inner, w) = (ret tt, (f inner, w))

  abbrev pub get_inner : Task Locked AgentInner
  get_inner (inner, w) = (ret inner, (inner, w))

  abbrev spawn : Job → Task (World env) Unit
  spawn job w = (ret tt, env.spawn job w)

  register_hypervisor : Uuid → String → Option Uuid → Task Locked Uuid
  register_hypervisor plugin_uuid hv (some _) = raise FError.already_present
  register_hypervisor plugin_uuid hv none = do
    modify (λ inner. record inner { hypervisors = insert hv plugin_uuid inner.hypervisors })
    outside (
        add_plugin env.zenoh env.codecs self.local
          (plugin_info plugin_uuid (PluginKind.hypervisor hv)))
    pure plugin_uuid

  register_networking : Uuid → Option Uuid → Task Locked Uuid
  register_networking plugin_uuid (some _) = raise FError.already_present
  register_networking plugin_uuid none = do
    outside (spawn (Job.default_network plugin_uuid))
    modify (λ inner. record inner { networking = some plugin_uuid })
    outside
        (add_plugin env.zenoh env.codecs self.local (plugin_info plugin_uuid PluginKind.networking))
    pure plugin_uuid

  unfoldable pub register_plugin : Uuid → PluginKind → Task Locked Uuid
  unfolding register_hypervisor register_networking
  register_plugin plugin_uuid (PluginKind.hypervisor hv) = do
    inner ← get_inner
    register_hypervisor plugin_uuid hv (lookup hv inner.hypervisors)
  register_plugin plugin_uuid PluginKind.networking = do
    inner ← get_inner
    register_networking plugin_uuid inner.networking
  register_plugin plugin_uuid _ = raise (FError.unknown_error "Not yet...")

  unregister_kind : Uuid → PluginKind → Task Locked Uuid
  unregister_kind plugin_uuid (PluginKind.hypervisor hv) = do
    modify (λ inner. record inner { hypervisors = remove hv inner.hypervisors })
    outside (remove_plugin env.zenoh env.codecs self.local plugin_uuid)
    pure plugin_uuid
  unregister_kind plugin_uuid PluginKind.networking = do
    modify (λ inner. record inner { networking = none })
    outside (remove_plugin env.zenoh env.codecs self.local plugin_uuid)
    pure plugin_uuid
  unregister_kind plugin_uuid _ = raise FError.unimplemented

  unfoldable pub unregister_plugin : Uuid → Task Locked Uuid
  unfolding unregister_kind
  unregister_plugin plugin_uuid = do
    pl_info ← outside (get_plugin env.zenoh env.codecs self.local plugin_uuid)
    unregister_kind plugin_uuid pl_info.kind

  -- `n_client.verify_server().await.unwrap()`
  abbrev unwrap_call : {A : Type 0} → Call (World env) A → Task (World env) A
  unwrap_call c w =
      let (r, w') = c w in elim r [ Result.ok a ↦ (ret a, w') | Result.err e ↦ (panic, w') ]

  -- The spawned task: wait until the plugin serves, then have it make the default network.
  unfoldable pub default_network_task : ℕ → Uuid → Task (World env) Unit
  default_network_task zero client w = (hang, w)
  default_network_task (suc fuel) client w =
      let (r, w') = env.networking.verify_server client w in
      elim r [
        | Result.err e ↦ (panic, w')
        | Result.ok false ↦ default_network_task fuel client (env.sleep w')
        | Result.ok true ↦
            let (made, w₁) = env.networking.create_default_virtual_network client true w' in
            elim made [
              | Result.ok (Result.ok vnet) ↦ (ret tt, w₁)
              | Result.ok (Result.err e) ↦ (panic, w₁)
              | Result.err e ↦ (panic, w₁)
            ]
      ]
