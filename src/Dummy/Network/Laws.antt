-- ===== src/Dummy/Network/Laws.antt =====
-- The networking plugin's operations on a reliable store.
use fog.Prelude.{◌≡◌, none, some, ==-refl}
use fog.Sdk.Fresult.{FError}
use fog.Sdk.Outcome.{ok, ret, fail, ◌>>◌}
use fog.Sdk.Types.{Uuid, VirtualInterface, ConnectionPoint}
use fog.Zenoh.{RoundTrips}
use fog.Zenoh.Reliable.{Reliable}
use fog.Connector.Local.Networks as local
use fog.Connector.Local.Networks.{get_interface, add_interface}
use fog.Connector.Local.Frames.{
  get_interface-add_interface, get_connection_point_stays, get_network_namespace_stays,
}
use fog.Dummy.Env.{Env, World}
use fog.Dummy.Network.Defs.{DummyNetwork, node_uuid}
use fog.Dummy.Network.Bindings.{
  bind_interface_to_connection_point, unbind_interface_from_connection_point,
}
use fog.Dummy.Network.Namespaces.{move_interface_into_default_namespace}

module _ (env : Env) (self : DummyNetwork) where
  -- The agent tells the node's identifier and does nothing else.
  abbrev pub TellsNode : Type 0
  TellsNode =
      (server n : Uuid) × (self.agent ≡ some server)
      × ((w : World env) → env.agent.get_node_uuid server w ≡ (ok (ok n), w))

  pub node_uuid_lem : (tells : TellsNode) (w : World env) → node_uuid env self w ≡ (ret tells.1, w)
  node_uuid_lem (server, n, client, says) w = rw (client, says)

  module _ (r : Reliable env.zenoh) (tells : TellsNode) where
    pub bind_lem :
        {cp : ConnectionPoint} {iface : VirtualInterface} (cp_uuid : Uuid) (w : World env)
        {w' : World env}
        → local.get_connection_point env.zenoh env.codecs self.local cp_uuid w ≡ (ret cp, w)
        → get_interface env.zenoh env.codecs self.local iface.uuid w ≡ (ret iface, w)
        → add_interface env.zenoh env.codecs self.local (record iface { net_ns = some cp.net_ns }) w
          ≡ (ret tt, w')
        → bind_interface_to_connection_point env self iface.uuid cp_uuid w
          ≡ (ret (record iface { net_ns = some cp.net_ns }), w')
    unfolding bind_interface_to_connection_point
    bind_lem cp_uuid w got_cp got added = rw (node_uuid_lem tells, got_cp, got, added)

    -- An interface that is bound to a connection point and unbound from it is outside of every
    -- namespace, and nothing else about it has changed.
    pub unbind-bind :
        {cp : ConnectionPoint} {iface : VirtualInterface} (cp_uuid : Uuid) (w : World env)
        → RoundTrips env.codecs.interface (record iface { net_ns = some cp.net_ns })
        → RoundTrips env.codecs.interface (record iface { net_ns = none })
        → local.get_connection_point env.zenoh env.codecs self.local cp_uuid w ≡ (ret cp, w)
        → get_interface env.zenoh env.codecs self.local iface.uuid w ≡ (ret iface, w)
        → (w' : World env) × ((bind_interface_to_connection_point env self iface.uuid cp_uuid
                >> unbind_interface_from_connection_point env self iface.uuid cp_uuid)
              w
            ≡ (ret (record iface { net_ns = none }), w'))
          × (get_interface env.zenoh env.codecs self.local iface.uuid w'
              ≡ (ret (record iface { net_ns = none }), w'))
    unfolding unbind_interface_from_connection_point
    unbind-bind {cp} {iface} cp_uuid w round round' got_cp got =
        let (w₁, added, got₁) = get_interface-add_interface r env.codecs self.local w round in
        let (w₂, added', got₂) = get_interface-add_interface r env.codecs self.local w₁ round' in
        let got_cp₁ =
          get_connection_point_stays r env.codecs self.local w round added cp_uuid got_cp in
        (
          w₂,
          rw (
            bind_lem cp_uuid w got_cp got added,
            node_uuid_lem tells,
            got_cp₁,
            got₁,
            ==-refl cp.net_ns,
            added',
          ),
          got₂,
        )

    -- On a reliable store, where the agent tells the node's identifier and the interface survives
    -- its encoding: when an interface is bound to a connection point whose namespace is an
    -- identifier that nothing is stored under, the move into the default namespace fails with
    -- `NotFound`, but has already taken the interface out; a second move returns the interface.
    pub move_interface_into_default_namespace-bind :
        {cp : ConnectionPoint} {iface : VirtualInterface} (cp_uuid : Uuid) (w : World env)
        → RoundTrips env.codecs.interface (record iface { net_ns = some cp.net_ns })
        → RoundTrips env.codecs.interface (record iface { net_ns = none })
        → local.get_connection_point env.zenoh env.codecs self.local cp_uuid w ≡ (ret cp, w)
        → get_interface env.zenoh env.codecs self.local iface.uuid w ≡ (ret iface, w)
        → local.get_network_namespace env.zenoh env.codecs self.local cp.net_ns w
          ≡ (fail FError.not_found, w)
        → (w₁ w₂ : World env) × (bind_interface_to_connection_point env self iface.uuid cp_uuid w
            ≡ (ret (record iface { net_ns = some cp.net_ns }), w₁))
          × (move_interface_into_default_namespace env self iface.uuid w₁
              ≡ (fail FError.not_found, w₂))
          × (move_interface_into_default_namespace env self iface.uuid w₂
              ≡ (ret (record iface { net_ns = none }), w₂))
    unfolding move_interface_into_default_namespace
    move_interface_into_default_namespace-bind {cp} {iface} cp_uuid w round round' got_cp got
          absent =
        let (w₁, added, got₁) = get_interface-add_interface r env.codecs self.local w round in
        let (w₂, added', got₂) = get_interface-add_interface r env.codecs self.local w₁ round' in
        let absent₁ =
          get_network_namespace_stays r env.codecs self.local w round added cp.net_ns absent in
        let absent₂ =
          get_network_namespace_stays r env.codecs self.local w₁ round' added' cp.net_ns absent₁ in
        (
          w₁,
          w₂,
          bind_lem cp_uuid w got_cp got added,
          rw (node_uuid_lem tells, got₁, added', absent₂),
          rw (node_uuid_lem tells, got₂),
        )
