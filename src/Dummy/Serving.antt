-- ===== src/Dummy/Serving.antt =====
-- How the example plugins serve, `run` and `start` of fog05-sdk/examples/dummy-hypervisor.rs and
-- dummy-network.rs, which differ in the kind of the plugin and in what they look for. The server of
-- zrpc, the search for servers and the time until the stop message are parameters; the UUID that
-- the plugin keeps behind its lock is that of its server.
pub mod Laws
use fog.Prelude.{Option, none, some, List, [], ◌∷◌}
use fog.Sdk.Fresult.{FError}
use fog.Sdk.Outcome.{
  Result, ok, err, Call, Task, ret, panic, pure, panics, unwrap, expecting, ◌>>=◌, ◌>>◌,
}
use fog.Sdk.Types.{Uuid, PluginKind}
use fog.Interfaces.AgentPlugin.{AgentPluginInterface}
use fog.Dummy.Hypervisor.Configure.{DummyHypervisor}
use fog.Dummy.Network.Defs.{DummyNetwork}

-- A remote call, with its two results.
abbrev pub Remote : Type 0 → Type 0 → Type 0
Remote W A = Call W (Result FError A)

-- The server that a macro makes of a plugin.
pub record Server (W : Type 0) : Type 0 where
  pub instance_uuid : Uuid
  pub connect : Call W Unit
  pub initialize : Call W Unit
  pub register : Call W Unit
  pub start : Call W Unit
  pub stop : Call W Unit
  pub unregister : Call W Unit
  pub disconnect : Call W Unit

pub record Surroundings (W : Type 0) : Type 0 where
  pub server : Server W
  -- `AgentPluginInterfaceClient`, by the UUID of the server
  pub agents : Uuid → AgentPluginInterface (Remote W)
  pub local_os : Call W (List Uuid)
  pub local_agent : Call W (List Uuid)
  pub local_net : Call W (List Uuid)
  -- `monitoring.race(stop.recv())`
  pub until_stopped : W → W

module _ {W : Type 0} where
  abbrev pub unwrap_answer : {A : Type 0} → Result FError A → Task W A
  unwrap_answer (ok a) = pure a
  unwrap_answer (err e) = panics

  -- `call.await.unwrap().unwrap()`
  abbrev pub unwrap_twice : {A : Type 0} → Remote W A → Task W A
  unwrap_twice c = expecting c >>= unwrap_answer

  -- `if servers.is_empty() { panic!(..) }`, and `servers[0]`
  abbrev pub first_server : List Uuid → Task W Uuid
  first_server [] = panics
  first_server (u ∷ us) = pure u

  abbrev pub found : Call W (List Uuid) → Task W Uuid
  found servers = expecting servers >>= first_server

  module _ (around : Surroundings W) where
    abbrev waiting : Task W Unit
    waiting w = (ret tt, around.until_stopped w)

    -- What is done once the agent knows the plugin.
    abbrev pub serving : AgentPluginInterface (Remote W) → Task W Unit
    serving agent = do
      expecting around.server.register
      expecting around.server.start
      waiting
      unwrap_twice (agent.unregister_plugin around.server.instance_uuid)
      expecting around.server.stop
      expecting around.server.unregister
      expecting around.server.disconnect

    unfoldable pub run : PluginKind → Option Uuid → Task W Unit
    run kind agent = do
      expecting around.server.connect
      expecting around.server.initialize
      u ← unwrap agent
      unwrap_twice ((around.agents u).register_plugin around.server.instance_uuid kind)
      serving (around.agents u)

    -- `DummyHypervisor::start`, up to the task that runs `run`
    unfoldable pub start_hypervisor : DummyHypervisor → Task W DummyHypervisor
    start_hypervisor self = do
      os ← found around.local_os
      agent ← found around.local_agent
      net ← found around.local_net
      pure (record self { agent = some agent; os = some os; net = some net })

    -- `DummyNetwork::start`, the same
    unfoldable pub start_network : DummyNetwork → Task W DummyNetwork
    start_network self = do
      os ← found around.local_os
      agent ← found around.local_agent
      pure (record self { agent = some agent; os = some os })
