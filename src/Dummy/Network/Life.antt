-- ===== src/Dummy/Network/Life.antt =====
-- Virtual networks of the networking plugin, from their creation on the node to their deletion.
use fog.Prelude.{◌≡◌, false, arith}
use fog.Sdk.Fresult.{FError}
use fog.Sdk.Outcome.{ret, fail}
use fog.Sdk.Types.{Uuid, VirtualNetwork}
use fog.Zenoh.{RoundTrips, IsPath, id, key_matches}
use fog.Zenoh.Reliable.{Reliable}
use fog.Connector.Keys.{global_prefix, vnet_path}
use fog.Connector.LocalKeys.{local_prefix, node_vnet_path}
use fog.Connector.Query.Frames.{
  get_one-put_value_eq, get_one-put_value_stays, get_one-delete_key_stays,
}
use fog.Connector.Query.Laws.{get_one-delete_key}
use fog.Connector.Global.Networks as global
use fog.Connector.Local.Networks as local
use fog.Dummy.Env.{Env, World}
use fog.Dummy.Network.Defs.{DummyNetwork}
use fog.Dummy.Network.Laws.{TellsNode, node_uuid_lem}
use fog.Dummy.Network.Networks.{create_virtual_network, get_virtual_network, delete_virtual_network}

vnet_miss :
    (s t n u v : Uuid)
    → key_matches
        (vnet_path global_prefix (id s) (id t) (id u))
        (node_vnet_path local_prefix (id n) (id v))
      ≡ false
unfolding vnet_path node_vnet_path
vnet_miss s t n u v = ground arith

node_vnet_path-IsPath : (n u : Uuid) → IsPath (node_vnet_path local_prefix (id n) (id u))
unfolding node_vnet_path
node_vnet_path-IsPath n u = tt

module _ (env : Env) (self : DummyNetwork) (r : Reliable env.zenoh)
    (tells : TellsNode env self) where
  -- The catalog has the network.
  abbrev pub Catalogued : VirtualNetwork → World env → Type 0
  Catalogued vnet w =
      global.get_virtual_network env.zenoh env.codecs self.global vnet.uuid w ≡ (ret vnet, w)

  added_lem :
      (vnet : VirtualNetwork) (w : World env)
      → RoundTrips env.codecs.network vnet
      → Catalogued vnet w
      → (w' : World env) × (local.add_virutal_network env.zenoh env.codecs self.local vnet w
          ≡ (ret tt, w'))
        × (local.get_virtual_network env.zenoh env.codecs self.local vnet.uuid w' ≡ (ret vnet, w'))
        × Catalogued vnet w'
  unfolding local.add_virutal_network local.get_virtual_network global.get_virtual_network
  added_lem vnet w lossless known =
      let path = node_vnet_path-IsPath self.local.node_uuid vnet.uuid in
      let (w', added, got) = get_one-put_value_eq r lossless _ w path in
      (
        w',
        added,
        got,
        get_one-put_value_stays r lossless env.codecs.network _ _ w path
            (vnet_miss self.global.system_id self.global.tenant_id self.local.node_uuid vnet.uuid
              vnet.uuid)
            added known,
      )

  removed_lem :
      (vnet : VirtualNetwork) (w : World env)
      → Catalogued vnet w
      → (w' : World env) × (local.remove_virtual_network env.zenoh env.codecs self.local vnet.uuid w
          ≡ (ret tt, w'))
        × (local.get_virtual_network env.zenoh env.codecs self.local vnet.uuid w'
            ≡ (fail FError.not_found, w'))
        × Catalogued vnet w'
  unfolding local.remove_virtual_network local.get_virtual_network global.get_virtual_network
  removed_lem vnet w known =
      let path = node_vnet_path-IsPath self.local.node_uuid vnet.uuid in
      let (w', removed, gone) = get_one-delete_key r env.codecs.network _ w path in
      (
        w',
        removed,
        gone,
        get_one-delete_key_stays r env.codecs.network _ _ w path
            (vnet_miss self.global.system_id self.global.tenant_id self.local.node_uuid vnet.uuid
              vnet.uuid)
            removed known,
      )

  -- On a reliable store, where the agent tells the node's identifier and the network survives its
  -- encoding: a virtual network of the catalog that is created on the node is got there, and
  -- creating it again changes nothing about that; after it is deleted the node does not find it,
  -- deleting it again fails with `NotFound`, and the catalog still has it.
  pub delete_virtual_network-create_virtual_network :
      (vnet : VirtualNetwork) (w : World env)
      → RoundTrips env.codecs.network vnet
      → Catalogued vnet w
      → (w₁ w₂ w₃ : World env) × (create_virtual_network env self vnet.uuid w ≡ (ret vnet, w₁))
        × (get_virtual_network env self vnet.uuid w₁ ≡ (ret vnet, w₁))
        × (create_virtual_network env self vnet.uuid w₁ ≡ (ret vnet, w₂))
        × (get_virtual_network env self vnet.uuid w₂ ≡ (ret vnet, w₂))
        × (delete_virtual_network env self vnet.uuid w₂ ≡ (ret vnet, w₃))
        × (get_virtual_network env self vnet.uuid w₃ ≡ (fail FError.not_found, w₃))
        × (delete_virtual_network env self vnet.uuid w₃ ≡ (fail FError.not_found, w₃))
        × Catalogued vnet w₃
  unfolding create_virtual_network get_virtual_network delete_virtual_network
  delete_virtual_network-create_virtual_network vnet w lossless known =
      let (w₁, added, got, known₁) = added_lem vnet w lossless known in
      let (w₂, added', got', known₂) = added_lem vnet w₁ lossless known₁ in
      let (w₃, removed, gone, known₃) = removed_lem vnet w₂ known₂ in
      (
        w₁,
        w₂,
        w₃,
        rw (known, node_uuid_lem env self tells, added),
        rw (node_uuid_lem env self tells, got),
        rw (known₁, node_uuid_lem env self tells, added'),
        rw (node_uuid_lem env self tells, got'),
        rw (node_uuid_lem env self tells, got', removed),
        rw (node_uuid_lem env self tells, gone),
        rw (node_uuid_lem env self tells, gone),
        known₃,
      )
