-- ===== src/Dummy/Network/Deletion.antt =====
-- The deletion of an end of a VETH pair in a namespace, on a reliable store.
use fog.Prelude.{ℕ, ◌≡◌, ◌≢◌, sym, ◌==◌, none, some, position, position-remove, ==-refl}
use fog.Sdk.Fresult.{FError}
use fog.Sdk.Outcome.{ret, fail}
use fog.Sdk.Types.{NetworkNamespace, VirtualInterface, VirtualInterfaceKind, VethKind}
use fog.Zenoh.{RoundTrips}
use fog.Zenoh.Reliable.{Reliable}
use fog.Connector.Local.Networks.{
  get_interface, remove_interface, get_network_namespace, add_network_namespace,
}
use fog.Connector.Local.Frames.{
  get_interface-remove_interface, get_interface_kept, get_network_namespace_kept,
  get_interface_stays_beside, get_network_namespace-add_network_namespace,
}
use fog.Dummy.Env.{Env, World}
use fog.Dummy.Network.Defs.{DummyNetwork}
use fog.Dummy.Network.Laws.{TellsNode, node_uuid_lem}
use fog.Dummy.Network.Namespaces.{without_face, delete_virtual_interface_in_namespace}

module _ (env : Env) (self : DummyNetwork) (r : Reliable env.zenoh)
    (tells : TellsNode env self) where
  delete_lem :
      {iface : VirtualInterface} {netns : NetworkNamespace} {info : VethKind} {p : ℕ}
      (w : World env) {w₁ w₂ w₃ : World env}
      → iface.net_ns ≡ some netns.uuid
      → iface.kind ≡ VirtualInterfaceKind.veth info
      → position ◌==◌ iface.uuid netns.interfaces ≡ some p
      → get_network_namespace env.zenoh env.codecs self.local netns.uuid w ≡ (ret netns, w)
      → get_interface env.zenoh env.codecs self.local iface.uuid w ≡ (ret iface, w)
      → remove_interface env.zenoh env.codecs self.local info.pair w ≡ (ret tt, w₁)
      → add_network_namespace env.zenoh env.codecs self.local (without_face netns p) w₁
        ≡ (ret tt, w₂)
      → remove_interface env.zenoh env.codecs self.local iface.uuid w₂ ≡ (ret tt, w₃)
      → delete_virtual_interface_in_namespace env self iface.uuid netns.uuid w ≡ (ret iface, w₃)
  unfolding delete_virtual_interface_in_namespace
  delete_lem {iface} {netns} w inside is found got_ns got r₁ a r₂ =
      rw (
        node_uuid_lem env self tells,
        got_ns,
        got,
        inside,
        ==-refl netns.uuid,
        found,
        is,
        r₁,
        a,
        r₂,
      )

  -- On a reliable store, where the agent tells the node's identifier and the namespace without
  -- the interface survives its encoding: when an end of a VETH pair is deleted in its namespace,
  -- which has both ends, neither end is found afterwards, but the namespace still has the
  -- identifier of the other end.
  pub delete_virtual_interface_in_namespace-dangling :
      {iface : VirtualInterface} {netns : NetworkNamespace} (info : VethKind) (p : ℕ)
      (w : World env)
      → iface.net_ns ≡ some netns.uuid
      → iface.kind ≡ VirtualInterfaceKind.veth info
      → info.pair ≢ iface.uuid
      → position ◌==◌ iface.uuid netns.interfaces ≡ some p
      → position ◌==◌ info.pair netns.interfaces ≢ none
      → RoundTrips env.codecs.namespace (without_face netns p)
      → get_network_namespace env.zenoh env.codecs self.local netns.uuid w ≡ (ret netns, w)
      → get_interface env.zenoh env.codecs self.local iface.uuid w ≡ (ret iface, w)
      → (left : NetworkNamespace) × (w' : World env) × (delete_virtual_interface_in_namespace env
            self iface.uuid netns.uuid w
          ≡ (ret iface, w'))
        × (get_interface env.zenoh env.codecs self.local iface.uuid w'
            ≡ (fail FError.not_found, w'))
        × (get_interface env.zenoh env.codecs self.local info.pair w' ≡ (fail FError.not_found, w'))
        × (get_network_namespace env.zenoh env.codecs self.local netns.uuid w' ≡ (ret left, w'))
        × (position ◌==◌ info.pair left.interfaces ≢ none)
  delete_virtual_interface_in_namespace-dangling {iface} {netns} info p w inside is ne found both
        round got_ns got =
      let c = env.codecs in
      let l = self.local in
      let (w₁, r₁, gone₁) = get_interface-remove_interface r c l info.pair w in
      let (w₂, a, s₂) = get_network_namespace-add_network_namespace r c l w₁ round in
      let gone₂ = get_interface_stays_beside r c l w₁ round info.pair a gone₁ in
      let (w₃, r₂, gone₃) = get_interface-remove_interface r c l iface.uuid w₂ in
      (
        without_face netns p,
        w₃,
        delete_lem w inside is found got_ns got r₁ a r₂,
        gone₃,
        get_interface_kept r c l iface.uuid w₂ r₂ info.pair ne gone₂,
        get_network_namespace_kept r c l iface.uuid w₂ r₂ netns.uuid s₂,
        position-remove iface.uuid info.pair netns.interfaces (λ e. ne (sym e)) found both,
      )
