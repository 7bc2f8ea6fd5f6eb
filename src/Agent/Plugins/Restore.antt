-- ===== src/Agent/Plugins/Restore.antt =====
-- A registration followed by its withdrawal, on a reliable store.
use fog.Prelude.{◌≡◌, String, none}
use fog.Sdk.Fresult.{FError}
use fog.Sdk.Outcome.{ret, fail, ◌>>◌}
use fog.Sdk.Types.{Uuid, PluginKind}
use fog.Zenoh.{RoundTrips}
use fog.Zenoh.Reliable.{Reliable}
use fog.Connector.Local.Nodes.{get_plugin}
use fog.Connector.Local.Laws.{get_plugin-remove_plugin}
use fog.Agent.Env.{Env, World}
use fog.Agent.State.{Agent, AgentInner, lookup}
use fog.Agent.State.Laws.{remove-insert}
use fog.Agent.Plugins.{plugin_info, register_plugin, unregister_plugin, unregister_kind}

-- On a reliable store, registering a hypervisor for which there is no plugin, and whose record
-- survives its encoding, and unregistering it again both return its identifier; the agent's state is then what it was, and the plugin is not
-- found in the store.
pub unregister_plugin-register_plugin :
    (env : Env) (self : Agent) (r : Reliable env.zenoh) (u : Uuid) (hv : String)
    (inner : AgentInner) (w : World env)
    → RoundTrips env.codecs.plugin (plugin_info u (PluginKind.hypervisor hv))
    → lookup hv inner.hypervisors ≡ none
    → (w' : World env) × ((register_plugin env self u (PluginKind.hypervisor hv)
            >> unregister_plugin env self u)
          (inner, w)
        ≡ (ret u, (inner, w')))
      × (get_plugin env.zenoh env.codecs self.local u w' ≡ (fail FError.not_found, w'))
unfolding register_plugin unregister_plugin unregister_kind
unregister_plugin-register_plugin env self r u hv inner w round free =
    let (w₁, w', added, got, removed, gone) =
      get_plugin-remove_plugin r env.codecs self.local (plugin_info u (PluginKind.hypervisor hv)) w
        round in
    (w', simp (free, added, got, removed, remove-insert hv u inner.hypervisors free), gone)
