-- ===== src/Tests/Dummies.antt =====
-- The example plugins on the store in memory.
use fog.Prelude.{remove, true, ◌≢◌, ◌==◌, position, ◌≡◌, refl, ◌∷◌, [], List, none, some}
use fog.Sdk.Fresult.{FError}
use fog.Sdk.Outcome.{ret, fail, ◌>>◌}
use fog.Sdk.Types.{NetworkNamespace, Uuid, VirtualInterfaceConfigKind}
use fog.Sdk.Im.Fdu.{FduRecord, FduState, defined, configured, running}
use fog.Zenoh.{id, raw, Entry}
use fog.Zenoh.Memory.{memory_reliable}
use fog.Connector.Keys.{viface_path}
use fog.Connector.LocalKeys.{
  local_prefix, node_instance_path, node_instance_selector, node_viface_path, node_cp_path,
  node_netns_path,
}
use fog.Connector.Query.{get_one, put_value, decode, single, query}
use fog.Connector.Local.Fdus.{get_instance, add_instance}
use fog.Connector.Local.Networks.{get_interface, get_network_namespace}
use fog.Connector.Global.Networks as global
use fog.Dummy.Hypervisor.{start_fdu, stop_fdu}
use fog.Dummy.Hypervisor.Moves.{starting, Move, perform}
use fog.Dummy.Hypervisor.Laws.{Moved, perform-Move}
use fog.Dummy.Hypervisor.Refusals.{perform-refused}
use fog.Dummy.Hypervisor.Restore.{stop_fdu-start_fdu}
use fog.Dummy.Network.Defs.{new_face}
use fog.Dummy.Network.Interfaces.{create_virtual_bridge, get_virtual_bridge, delete_virtual_bridge}
use fog.Dummy.Network.Namespaces.{
  delete_virtual_interface_in_namespace, with_face, create_virtual_interface_in_namespace,
  move_interface_into_default_namespace,
}
use fog.Dummy.Network.Bindings.{attach_interface_to_bridge, detach_interface_from_bridge}
use fog.Dummy.Network.Bridges.{
  bridge_of, delete_virtual_bridge-create_virtual_bridge, detach-attach,
}
use fog.Dummy.Network.Deletion.{delete_virtual_interface_in_namespace-dangling}
use fog.Dummy.Network.Pairs.{
  internal_end, external_end, move_interface_into_default_namespace-create,
}
use fog.Tests.Fixture.{instance_in}
use fog.Tests.Plugins.{
  dummy_env, hypervisor, network, node_store_in, net_store, end_21, bridge_22, space_35,
}

perform-Move_example :
    (found : FduRecord) × (w₀ w₁ : List Entry) × (get_instance dummy_env.zenoh dummy_env.codecs
        hypervisor.local 9 w₀
      ≡ (ret found, w₁))
    × Moved dummy_env hypervisor starting 9 found [] 9
        ((9, instance_in running) ∷ [], node_store_in running)
unfolding start_fdu get_instance add_instance node_instance_path node_instance_selector get_one
    put_value decode single query
perform-Move_example =
    perform-Move dummy_env hypervisor starting 9 [] (node_store_in configured) refl

no_start : (st : FduState) → ¬ Move starting defined st
no_start st m = elim m [ ]

perform-refused_example :
    perform dummy_env hypervisor starting 9 ([], node_store_in defined)
    ≡ (fail FError.transition_not_allowed, ([], node_store_in defined))
unfolding get_instance node_instance_path node_instance_selector get_one decode single query
perform-refused_example =
    perform-refused dummy_env hypervisor starting 9 ([], node_store_in defined)
      ([], node_store_in defined) (instance_in defined) refl no_start

stop_fdu-start_fdu_example :
    (s' : List (Uuid × FduRecord) × List Entry) × ((start_fdu dummy_env hypervisor 9
          >> stop_fdu dummy_env hypervisor 9)
        ([], node_store_in configured)
      ≡ (ret 9, s'))
    × (get_instance dummy_env.zenoh dummy_env.codecs hypervisor.local 9 s'.1
        ≡ (ret (instance_in configured), s'.1))
unfolding get_instance node_instance_path node_instance_selector get_one decode single query
stop_fdu-start_fdu_example =
    stop_fdu-start_fdu dummy_env hypervisor memory_reliable (instance_in configured) []
      (node_store_in configured) (100, 1, refl, λ w. refl)
      (record { buffer = 1 ∷ []; written = refl; back = refl })
      (record { buffer = 2 ∷ []; written = refl; back = refl }) refl refl refl

detach-attach_example :
    (w' : List Entry) × ((attach_interface_to_bridge dummy_env network 21 22
          >> detach_interface_from_bridge dummy_env network 21)
        net_store
      ≡ (ret end_21, w'))
    × (get_interface dummy_env.zenoh dummy_env.codecs network.local 21 w' ≡ (ret end_21, w'))
    × (get_interface dummy_env.zenoh dummy_env.codecs network.local 22 w' ≡ (ret bridge_22, w'))
unfolding position get_interface node_viface_path node_cp_path node_netns_path get_one decode single
    query
detach-attach_example =
    detach-attach dummy_env network memory_reliable (100, 1, refl, λ w. refl) {iface = end_21}
      {bridge = bridge_22} {childs = []} net_store
      (record { buffer = 21 ∷ 0 ∷ 23 ∷ 1 ∷ 23 ∷ []; written = refl; back = refl })
      (record { buffer = 21 ∷ 0 ∷ 0 ∷ 1 ∷ 23 ∷ []; written = refl; back = refl })
      (record { buffer = 22 ∷ 0 ∷ 0 ∷ 0 ∷ 21 ∷ []; written = refl; back = refl })
      (record { buffer = 22 ∷ 0 ∷ 0 ∷ 0 ∷ []; written = refl; back = refl }) (λ e. cc e) refl refl
      refl refl

delete_virtual_bridge-create_virtual_bridge_example :
    (w' : List Entry) × (create_virtual_bridge dummy_env network "br0" net_store
      ≡ (ret (new_face 44 "br0" none (bridge_of [])), w'))
    × (get_virtual_bridge dummy_env network 44 w'
        ≡ (ret (new_face 44 "br0" none (bridge_of [])), w'))
    × (delete_virtual_bridge dummy_env network 44 w' ≡ (fail FError.not_found, w'))
unfolding global.get_interface viface_path node_viface_path node_cp_path node_netns_path get_one
    decode single query
delete_virtual_bridge-create_virtual_bridge_example =
    delete_virtual_bridge-create_virtual_bridge dummy_env network memory_reliable
      (100, 1, refl, λ w. refl) "br0" 44 net_store (dummy_env.new_v4 net_store).1 refl
      (record { buffer = 44 ∷ 0 ∷ 0 ∷ 0 ∷ []; written = refl; back = refl }) refl

move_interface_into_default_namespace-create_example :
    (w' w'' : List Entry) × (create_virtual_interface_in_namespace dummy_env network
        (record { if_name = "eth0"; kind = VirtualInterfaceConfigKind.veth })
        35
        net_store
      ≡ (ret (internal_end 44 45 "eth0" 35), w'))
    × (move_interface_into_default_namespace dummy_env network 45 w'
        ≡ (ret (external_end 44 45 "veth0" none), w''))
    × (get_network_namespace dummy_env.zenoh dummy_env.codecs network.local 35 w''
        ≡ (ret (with_face space_35 44), w''))
    × (get_interface dummy_env.zenoh dummy_env.codecs network.local 45 w''
        ≡ (ret (external_end 44 45 "veth0" none), w''))
unfolding position get_network_namespace node_viface_path node_cp_path node_netns_path get_one
    decode single query
move_interface_into_default_namespace-create_example =
    move_interface_into_default_namespace-create dummy_env network memory_reliable
      (100, 1, refl, λ w. refl) {netns = space_35} "eth0" "veth0" 44 45 net_store refl refl refl
      refl refl (record { buffer = 35 ∷ 21 ∷ 44 ∷ 45 ∷ []; written = refl; back = refl })
      (record { buffer = 35 ∷ 21 ∷ 44 ∷ []; written = refl; back = refl })
      (record { buffer = 44 ∷ 36 ∷ 0 ∷ 1 ∷ 45 ∷ []; written = refl; back = refl })
      (record { buffer = 45 ∷ 36 ∷ 0 ∷ 2 ∷ 44 ∷ []; written = refl; back = refl })
      (record { buffer = 45 ∷ 0 ∷ 0 ∷ 2 ∷ 44 ∷ []; written = refl; back = refl })

-- A namespace with both ends of a pair.
abbrev pair_store : List Entry
pair_store =
    (node_netns_path local_prefix (id 1) (id 35), raw (35 ∷ 21 ∷ 23 ∷ []))
    ∷ (node_viface_path local_prefix (id 1) (id 21), raw (21 ∷ 36 ∷ 0 ∷ 1 ∷ 23 ∷ []))
    ∷ (node_viface_path local_prefix (id 1) (id 23), raw (23 ∷ 36 ∷ 0 ∷ 2 ∷ 21 ∷ []))
    ∷ []

has_23 : position ◌==◌ 23 (21 ∷ 23 ∷ []) ≢ none
unfolding position
has_23 h = cc h

delete_virtual_interface_in_namespace-dangling_example :
    (left : NetworkNamespace) × (w' : List Entry) × (delete_virtual_interface_in_namespace dummy_env
        network 21 35 pair_store
      ≡ (ret (record end_21 { net_ns = some 35 }), w'))
    × (get_interface dummy_env.zenoh dummy_env.codecs network.local 21 w'
        ≡ (fail FError.not_found, w'))
    × (get_interface dummy_env.zenoh dummy_env.codecs network.local 23 w'
        ≡ (fail FError.not_found, w'))
    × (get_network_namespace dummy_env.zenoh dummy_env.codecs network.local 35 w' ≡ (ret left, w'))
    × (position ◌==◌ 23 left.interfaces ≢ none)
unfolding position remove get_interface get_network_namespace node_viface_path node_netns_path
    get_one decode single query
delete_virtual_interface_in_namespace-dangling_example =
    delete_virtual_interface_in_namespace-dangling dummy_env network memory_reliable
      (100, 1, refl, λ w. refl) {iface = record end_21 { net_ns = some 35 }}
      {netns = record space_35 { interfaces = 21 ∷ 23 ∷ [] }}
      (record { pair = 23; internal = true }) 0 pair_store refl refl (λ e. cc e) refl has_23
      (record { buffer = 35 ∷ 23 ∷ []; written = refl; back = refl }) refl refl
