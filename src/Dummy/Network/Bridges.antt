-- ===== src/Dummy/Network/Bridges.antt =====
-- Bridges of the networking plugin on a reliable store.
use fog.Prelude.{
  ℕ, ◌≡◌, ◌≢◌, refl, sym, ap, ◌∙◌, ◌++◌, ◌∷◌, [], ◌==◌, subst, none, some, List, position, remove,
  position-push, false, String, arith,
}
use fog.Sdk.Fresult.{FError}
use fog.Sdk.Outcome.{ret, fail, resume, ◌>>◌}
use fog.Sdk.Types.{Uuid, VirtualInterface, VirtualInterfaceKind}
use fog.Zenoh.{RoundTrips, id, key_matches}
use fog.Zenoh.Reliable.{Reliable}
use fog.Connector.Keys.{global_prefix, viface_path}
use fog.Connector.LocalKeys.{local_prefix, node_viface_path}
use fog.Connector.Query.Frames.{get_one-put_value_stays}
use fog.Connector.Global.Networks as global
use fog.Connector.Local.Networks.{get_interface, add_interface}
use fog.Connector.Local.Frames.{get_interface-add_interface, get_interface_stays}
use fog.Dummy.Env.{Env, World}
use fog.Dummy.Network.Defs.{DummyNetwork, new_face}
use fog.Dummy.Network.Laws.{TellsNode, node_uuid_lem}
use fog.Dummy.Network.Interfaces.{create_virtual_bridge, get_virtual_bridge, delete_virtual_bridge}
use fog.Dummy.Network.Bindings.{attach_interface_to_bridge, detach_interface_from_bridge}

abbrev pub bridge_of : List Uuid → VirtualInterfaceKind
bridge_of childs = VirtualInterfaceKind.bridge (record { childs = childs })

global-local :
    (s t n u v : Uuid)
    → key_matches
        (viface_path global_prefix (id s) (id t) (id u))
        (node_viface_path local_prefix (id n) (id v))
      ≡ false
unfolding viface_path node_viface_path
global-local s t n u v = ground arith

module _ (env : Env) (self : DummyNetwork) (r : Reliable env.zenoh)
    (tells : TellsNode env self) where
  -- On a reliable store, where the agent tells the node's identifier and the bridge survives its
  -- encoding: a bridge that is created can be got by its identifier but not deleted by it, when the
  -- global part of the store has no interface with that identifier: the deletion fails with
  -- `NotFound`.
  pub delete_virtual_bridge-create_virtual_bridge :
      (br_name : String) (u : Uuid) (w w₁ : World env)
      → env.new_v4 w ≡ (u, w₁)
      → RoundTrips env.codecs.interface (new_face u br_name none (bridge_of []))
      → global.get_interface env.zenoh env.codecs self.global u w₁ ≡ (fail FError.not_found, w₁)
      → (w' : World env) × (create_virtual_bridge env self br_name w
          ≡ (ret (new_face u br_name none (bridge_of [])), w'))
        × (get_virtual_bridge env self u w' ≡ (ret (new_face u br_name none (bridge_of [])), w'))
        × (delete_virtual_bridge env self u w' ≡ (fail FError.not_found, w'))
  unfolding create_virtual_bridge get_virtual_bridge delete_virtual_bridge global.get_interface
      add_interface
  delete_virtual_bridge-create_virtual_bridge br_name u w w₁ fresh round absent =
      let (w', added, got) = get_interface-add_interface r env.codecs self.local w₁ round in
      let absent' : global.get_interface env.zenoh env.codecs self.global u w'
          ≡ (fail FError.not_found, w') =
        get_one-put_value_stays r round env.codecs.interface _ _ w₁ tt
          (global-local self.global.system_id self.global.tenant_id self.local.node_uuid u u) added
          absent in
      (
        w',
        rw (node_uuid_lem env self tells, fresh, added),
        rw (node_uuid_lem env self tells, got),
        rw (node_uuid_lem env self tells, absent'),
      )

  attach_lem :
      {iface bridge : VirtualInterface} {childs : List Uuid} (w : World env) {w₁ w₂ : World env}
      → bridge.kind ≡ bridge_of childs
      → get_interface env.zenoh env.codecs self.local iface.uuid w ≡ (ret iface, w)
      → get_interface env.zenoh env.codecs self.local bridge.uuid w ≡ (ret bridge, w)
      → add_interface env.zenoh env.codecs self.local (record iface { parent = some bridge.uuid }) w
        ≡ (ret tt, w₁)
      → add_interface env.zenoh env.codecs self.local
          (record bridge { kind = bridge_of (childs ++ (iface.uuid ∷ [])) })
          w₁
        ≡ (ret tt, w₂)
      → attach_interface_to_bridge env self iface.uuid bridge.uuid w
        ≡ (ret (record iface { parent = some bridge.uuid }), w₂)
  unfolding attach_interface_to_bridge
  attach_lem w is got_i got_b added added' =
      rw (node_uuid_lem env self tells, got_i, got_b, is, got_b, added, added')

  detach_lem :
      {iface bridge : VirtualInterface} {childs : List Uuid} {p : ℕ} (w : World env)
      {w₁ w₂ : World env}
      → iface.parent ≡ some bridge.uuid
      → bridge.kind ≡ bridge_of childs
      → position ◌==◌ iface.uuid childs ≡ some p
      → get_interface env.zenoh env.codecs self.local iface.uuid w ≡ (ret iface, w)
      → get_interface env.zenoh env.codecs self.local bridge.uuid w ≡ (ret bridge, w)
      → add_interface env.zenoh env.codecs self.local (record iface { parent = none }) w
        ≡ (ret tt, w₁)
      → add_interface env.zenoh env.codecs self.local
          (record bridge { kind = bridge_of (remove p childs) })
          w₁
        ≡ (ret tt, w₂)
      → detach_interface_from_bridge env self iface.uuid w
        ≡ (ret (record iface { parent = none }), w₂)
  unfolding detach_interface_from_bridge
  detach_lem w at is found got_i got_b added added' =
      rw (node_uuid_lem env self tells, got_i, at, got_b, is, found, got_b, added, added')

  -- On a reliable store, where the agent tells the node's identifier and all four records survive
  -- their encoding: an interface that is attached to a bridge other than itself, of which it is not
  -- a child, and detached again has no parent, and the record of the bridge is the one that it was.
  pub detach-attach :
      {iface bridge : VirtualInterface} {childs : List Uuid} (w : World env)
      → RoundTrips env.codecs.interface (record iface { parent = some bridge.uuid })
      → RoundTrips env.codecs.interface (record iface { parent = none })
      → RoundTrips env.codecs.interface
          (record bridge { kind = bridge_of (childs ++ (iface.uuid ∷ [])) })
      → RoundTrips env.codecs.interface bridge
      → bridge.uuid ≢ iface.uuid
      → bridge.kind ≡ bridge_of childs
      → position ◌==◌ iface.uuid childs ≡ none
      → get_interface env.zenoh env.codecs self.local iface.uuid w ≡ (ret iface, w)
      → get_interface env.zenoh env.codecs self.local bridge.uuid w ≡ (ret bridge, w)
      → (w' : World env) × ((attach_interface_to_bridge env self iface.uuid bridge.uuid
              >> detach_interface_from_bridge env self iface.uuid)
            w
          ≡ (ret (record iface { parent = none }), w'))
        × (get_interface env.zenoh env.codecs self.local iface.uuid w'
            ≡ (ret (record iface { parent = none }), w'))
        × (get_interface env.zenoh env.codecs self.local bridge.uuid w' ≡ (ret bridge, w'))
  detach-attach {iface} {bridge} {childs} w on off full empty ne is fresh got_i got_b =
      let (p, found, gone) = position-push iface.uuid childs fresh in
      let restored : VirtualInterface = record bridge {
        kind = bridge_of (remove p (childs ++ (iface.uuid ∷ [])));
      } in
      let same : bridge ≡ restored =
        λ i. record bridge { kind = (is ∙ ap bridge_of (sym gone)) i } in
      let empty' = subst (RoundTrips env.codecs.interface) same empty in
      let (w₁, added₁, i₁) = get_interface-add_interface r env.codecs self.local w on in
      let (w₂, added₂, b₂) = get_interface-add_interface r env.codecs self.local w₁ full in
      let i₂ =
        get_interface_stays r env.codecs self.local w₁ full added₂ iface.uuid (λ e. ne (sym e))
          i₁ in
      let (w₃, added₃, i₃) = get_interface-add_interface r env.codecs self.local w₂ off in
      let (w₄, added₄, b₄) = get_interface-add_interface r env.codecs self.local w₃ empty' in
      let i₄ =
        get_interface_stays r env.codecs self.local w₃ empty' added₄ iface.uuid (λ e. ne (sym e))
          i₃ in
      let attached = attach_lem w is got_i got_b added₁ added₂ in
      let detached = detach_lem w₂ refl refl found i₂ b₂ added₃ added₄ in
      (
        w₄,
        ap (λ x. resume x.0 (λ _. detach_interface_from_bridge env self iface.uuid) x.1) attached
            ∙ detached,
        i₄,
        b₄ ∙ ap (λ x. (ret x, w₄)) (sym same),
      )
