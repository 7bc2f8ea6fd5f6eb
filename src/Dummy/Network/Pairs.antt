-- ===== src/Dummy/Network/Pairs.antt =====
-- A VETH pair of the networking plugin on a reliable store, as the hypervisor asks for it.
use fog.Prelude.{
  ℕ, ◌≡◌, refl, sym, ap, ◌∙◌, ◌++◌, ◌∷◌, [], ◌==◌, subst, String, true, false, Option, none, some,
  position, position-push,
}
use fog.Sdk.Outcome.{ret}
use fog.Sdk.Types.{
  Uuid, NetworkNamespace, VirtualInterface, VirtualInterfaceKind, VirtualInterfaceConfigKind,
}
use fog.Zenoh.{RoundTrips}
use fog.Zenoh.Reliable.{Reliable}
use fog.Connector.Local.Networks.{
  get_interface, add_interface, get_network_namespace, add_network_namespace,
}
use fog.Connector.Local.Frames.{
  get_interface-add_interface, get_network_namespace_stays, get_interface_stays_beside,
  get_network_namespace-add_network_namespace,
}
use fog.Dummy.Env.{Env, World}
use fog.Dummy.Network.Defs.{DummyNetwork, new_face, generate_random_interface_name}
use fog.Dummy.Network.Laws.{TellsNode, node_uuid_lem}
use fog.Dummy.Network.Namespaces.{
  with_face, without_face, create_virtual_interface_in_namespace,
  move_interface_into_default_namespace,
}

-- The end of the pair that the caller named, in the namespace, and the other end.
abbrev pub internal_end : Uuid → Uuid → String → Uuid → VirtualInterface
internal_end int ext name ns =
    new_face int name (some ns) (VirtualInterfaceKind.veth (record { pair = ext; internal = true }))

abbrev pub external_end : Uuid → Uuid → String → Option Uuid → VirtualInterface
external_end int ext name ns =
    new_face ext name ns (VirtualInterfaceKind.veth (record { pair = int; internal = false }))

module _ (env : Env) (self : DummyNetwork) (r : Reliable env.zenoh)
    (tells : TellsNode env self) where
  create_lem :
      {netns : NetworkNamespace} (name ext_name : String) (int ext : Uuid) (w : World env)
      {w₁ w₂ w₃ w₄ w₅ w₆ : World env}
      → get_network_namespace env.zenoh env.codecs self.local netns.uuid w ≡ (ret netns, w)
      → env.random_name w ≡ (ext_name, w₁)
      → env.new_v4 w₁ ≡ (int, w₂)
      → env.new_v4 w₂ ≡ (ext, w₃)
      → add_network_namespace env.zenoh env.codecs self.local
          (with_face (with_face netns int) ext)
          w₃
        ≡ (ret tt, w₄)
      → add_interface env.zenoh env.codecs self.local (internal_end int ext name netns.uuid) w₄
        ≡ (ret tt, w₅)
      → add_interface env.zenoh env.codecs self.local
          (external_end int ext ext_name (some netns.uuid))
          w₅
        ≡ (ret tt, w₆)
      → create_virtual_interface_in_namespace env self
          (record { if_name = name; kind = VirtualInterfaceConfigKind.veth })
          netns.uuid
          w
        ≡ (ret (internal_end int ext name netns.uuid), w₆)
  unfolding create_virtual_interface_in_namespace generate_random_interface_name
  create_lem name ext_name int ext w got rnd u₁ u₂ a₁ a₂ a₃ =
      rw (node_uuid_lem env self tells, got, rnd, u₁, u₂, a₁, a₂, a₃)

  move_lem :
      {iface : VirtualInterface} {netns : NetworkNamespace} {p : ℕ} (w : World env)
      {w₁ w₂ : World env}
      → iface.net_ns ≡ some netns.uuid
      → position ◌==◌ iface.uuid netns.interfaces ≡ some p
      → get_interface env.zenoh env.codecs self.local iface.uuid w ≡ (ret iface, w)
      → add_interface env.zenoh env.codecs self.local (record iface { net_ns = none }) w
        ≡ (ret tt, w₁)
      → get_network_namespace env.zenoh env.codecs self.local netns.uuid w₁ ≡ (ret netns, w₁)
      → add_network_namespace env.zenoh env.codecs self.local (without_face netns p) w₁
        ≡ (ret tt, w₂)
      → move_interface_into_default_namespace env self iface.uuid w
        ≡ (ret (record iface { net_ns = none }), w₂)
  unfolding move_interface_into_default_namespace
  move_lem w at found got a₁ ns a₂ = rw (node_uuid_lem env self tells, got, at, a₁, ns, found, a₂)

  -- On a reliable store, where the agent tells the node's identifier and all the records survive
  -- their encoding: a VETH pair is created in a namespace that is there, and its other end is moved
  -- into the default namespace, where the identifier of that end is neither the first end's nor
  -- that of an interface of the namespace. Both calls return, the other end is then stored as an
  -- interface of no namespace, and the namespace has gained the first end alone.
  pub move_interface_into_default_namespace-create :
      {netns : NetworkNamespace} (name ext_name : String) (int ext : Uuid) (w : World env)
      {w₁ w₂ w₃ : World env}
      → get_network_namespace env.zenoh env.codecs self.local netns.uuid w ≡ (ret netns, w)
      → env.random_name w ≡ (ext_name, w₁)
      → env.new_v4 w₁ ≡ (int, w₂)
      → env.new_v4 w₂ ≡ (ext, w₃)
      → position ◌==◌ ext (netns.interfaces ++ (int ∷ [])) ≡ none
      → RoundTrips env.codecs.namespace (with_face (with_face netns int) ext)
      → RoundTrips env.codecs.namespace (with_face netns int)
      → RoundTrips env.codecs.interface (internal_end int ext name netns.uuid)
      → RoundTrips env.codecs.interface (external_end int ext ext_name (some netns.uuid))
      → RoundTrips env.codecs.interface (external_end int ext ext_name none)
      → (w' w'' : World env) × (create_virtual_interface_in_namespace env self
            (record { if_name = name; kind = VirtualInterfaceConfigKind.veth })
            netns.uuid
            w
          ≡ (ret (internal_end int ext name netns.uuid), w'))
        × (move_interface_into_default_namespace env self ext w'
            ≡ (ret (external_end int ext ext_name none), w''))
        × (get_network_namespace env.zenoh env.codecs self.local netns.uuid w''
            ≡ (ret (with_face netns int), w''))
        × (get_interface env.zenoh env.codecs self.local ext w''
            ≡ (ret (external_end int ext ext_name none), w''))
  move_interface_into_default_namespace-create {netns} name ext_name int ext w {w₃} got rnd u₁ u₂
        fresh both one near far out =
      let c = env.codecs in
      let l = self.local in
      let full = with_face (with_face netns int) ext in
      let (p, found, gone) = position-push ext (netns.interfaces ++ (int ∷ [])) fresh in
      let same : with_face netns int ≡ without_face full p =
        λ i. record netns { interfaces = (sym gone) i } in
      let one' = subst (RoundTrips c.namespace) same one in
      let (w₄, a₁, s₁) = get_network_namespace-add_network_namespace r c l w₃ both in
      let (w₅, a₂, _) = get_interface-add_interface r c l w₄ near in
      let s₂ = get_network_namespace_stays r c l w₄ near a₂ netns.uuid s₁ in
      let (w₆, a₃, e₁) = get_interface-add_interface r c l w₅ far in
      let s₃ = get_network_namespace_stays r c l w₅ far a₃ netns.uuid s₂ in
      let (w₇, a₄, e₂) = get_interface-add_interface r c l w₆ out in
      let s₄ = get_network_namespace_stays r c l w₆ out a₄ netns.uuid s₃ in
      let (w₈, a₅, s₅) = get_network_namespace-add_network_namespace r c l w₇ one' in
      (
        w₆,
        w₈,
        create_lem name ext_name int ext w got rnd u₁ u₂ a₁ a₂ a₃,
        move_lem w₆ refl found e₁ a₄ s₄ a₅,
        s₅ ∙ ap (λ x. (ret x, w₈)) (sym same),
        get_interface_stays_beside r c l w₇ one' ext a₅ e₂,
      )
