-- ===== src/Agent/Plugins/Laws.antt =====
-- The plugins of the agent, over one call and over any sequence of calls.
use fog.Prelude.{◌≡◌, ◌≢◌, Option, none, some, arith, eq_iff, List, [], ◌∷◌}
use fog.Sdk.Fresult.{FError}
use fog.Sdk.Outcome.{fail}
use fog.Sdk.Types.{Uuid, PluginKind}
use fog.Agent.Env.{Env}
use fog.Agent.State.{Agent, AgentInner, lookup}
use fog.Agent.State.Laws.{lookup-insert, lookup-insert_self}
use fog.Agent.Plugins.{Locked, register_plugin}

-- Whether the state has a plugin of the kind.
abbrev pub Holds : PluginKind → AgentInner → Type 0
Holds (PluginKind.hypervisor hv) inner = lookup hv inner.hypervisors ≢ none
Holds PluginKind.networking inner = inner.networking ≢ none
Holds _ inner = ⊥

-- The kinds that the agent keeps a client for.
abbrev pub IsManaged : PluginKind → Type 0
IsManaged (PluginKind.hypervisor hv) = Unit
IsManaged PluginKind.networking = Unit
IsManaged _ = ⊥

module _ (env : Env) (self : Agent) where
  -- While a plugin of a kind is there, a second one is refused and nothing changes.
  register-of_held :
      (u : Uuid) (kind : PluginKind) (s : Locked env self)
      → Holds kind s.0
      → register_plugin env self u kind s ≡ (fail FError.already_present, s)
  unfolding register_plugin
  register-of_held u (PluginKind.hypervisor hv) s h = ground arith
  register-of_held u PluginKind.networking s h = ground arith
  register-of_held u PluginKind.io s h = absurd h
  register-of_held u PluginKind.accelerator s h = absurd h
  register-of_held u PluginKind.gps s h = absurd h

  -- An attempt to register leaves the kind taken, however it ended.
  register-Holds :
      (u : Uuid) (kind : PluginKind) (s : Locked env self)
      → IsManaged kind
      → Holds kind (register_plugin env self u kind s).1.0
  unfolding register_plugin
  register-Holds u (PluginKind.hypervisor hv) s m =
      grind (arith, lookup-insert_self hv u s.0.hypervisors)
  register-Holds u PluginKind.networking s m = ground arith
  register-Holds u PluginKind.io s m = absurd m
  register-Holds u PluginKind.accelerator s m = absurd m
  register-Holds u PluginKind.gps s m = absurd m

  -- After an attempt to register a hypervisor or a networking plugin, and whether it succeeded or
  -- not, a second attempt for the same kind is refused as already present and changes nothing.
  pub register_plugin-twice :
      (u v : Uuid) (kind : PluginKind) (s : Locked env self)
      → IsManaged kind
      → let s₁ = (register_plugin env self u kind s).1 in
        register_plugin env self v kind s₁ ≡ (fail FError.already_present, s₁)
  register_plugin-twice u v kind s m = register-of_held v kind _ (register-Holds u kind s m)

  -- The client that the agent has for a kind, of those that it manages.
  abbrev pub client_of : PluginKind → AgentInner → Option Uuid
  client_of (PluginKind.hypervisor hv) inner = lookup hv inner.hypervisors
  client_of PluginKind.networking inner = inner.networking
  client_of _ inner = none

  register-client_of :
      (kind : PluginKind) (p u : Uuid) (new : PluginKind) (s : Locked env self)
      → client_of kind s.0 ≡ some p
      → client_of kind (register_plugin env self u new s).1.0 ≡ some p
  unfolding register_plugin
  register-client_of (PluginKind.hypervisor hv) p u (PluginKind.hypervisor hv') s h =
      ground (arith, eq_iff hv' hv, lookup-insert hv hv' u s.0.hypervisors)
  register-client_of (PluginKind.hypervisor hv) p u PluginKind.networking s h = ground arith
  register-client_of PluginKind.networking p u (PluginKind.hypervisor hv') s h = ground arith
  register-client_of PluginKind.networking p u PluginKind.networking s h = ground arith
  register-client_of kind p u _ s h = h

  -- A sequence of calls of `register_plugin`.
  abbrev pub register_all : List (Uuid × PluginKind) → Locked env self → Locked env self
  register_all [] s = s
  register_all ((u, kind) ∷ rest) s = register_all rest (register_plugin env self u kind s).1

  -- The plugin that the agent has for a hypervisor, or for the network, stays the one for it,
  -- whatever plugins are registered afterwards, in any order and with any outcome.
  pub register_all-client_of :
      (requests : List (Uuid × PluginKind)) (kind : PluginKind) (p : Uuid) (s : Locked env self)
      → client_of kind s.0 ≡ some p
      → client_of kind (register_all requests s).0 ≡ some p
  register_all-client_of [] kind p s h = h
  register_all-client_of ((u, new) ∷ rest) kind p s h =
      register_all-client_of rest kind p _ (register-client_of kind p u new s h)
