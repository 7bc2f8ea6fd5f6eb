-- ===== src/Dummy/Network/Namespaces.antt =====
-- `DummyNetwork` of fog05-sdk/examples/dummy-network.rs: namespaces, and interfaces in them.
use fog.Prelude.{
  String, true, false, Option, none, some, [], ◌∷◌, ◌++◌, ◌==◌, if◌then◌else◌, ℕ, position, remove,
}
use fog.Sdk.Fresult.{FError}
use fog.Sdk.Outcome.{Task, pure, raise, ◌>>=◌, ◌>>◌}
use fog.Sdk.Types.{
  Uuid, NetworkNamespace, VirtualInterface, VirtualInterfaceKind, VirtualInterfaceConfig,
  VirtualInterfaceConfigKind,
}
use fog.Connector.Local.Networks as local
use fog.Connector.Local.Networks.{
  get_interface, add_interface, remove_interface, add_network_namespace, remove_network_namespace,
}
use fog.Dummy.Env.{Env, World, new_uuid}
use fog.Dummy.Network.Defs.{
  DummyNetwork, node_uuid, else_not_found, new_face, generate_random_interface_name,
  generate_random_netns_name, vxlan_on_dummy, vlan_on_dummy, macvlan_on_dummy,
}
use fog.Dummy.Network.Interfaces.{remove_pair}

-- `netns.interfaces.push(uuid)`, and `netns.interfaces.remove(p)`
abbrev pub with_face : NetworkNamespace → Uuid → NetworkNamespace
with_face netns uuid = record netns { interfaces = netns.interfaces ++ (uuid ∷ []) }

abbrev pub without_face : NetworkNamespace → ℕ → NetworkNamespace
without_face netns p = record netns { interfaces = remove p netns.interfaces }

module _ (env : Env) (self : DummyNetwork) where
  unfoldable pub create_network_namespace : Task (World env) NetworkNamespace
  unfolding generate_random_netns_name
  create_network_namespace = do
    node_uuid env self
    uuid ← new_uuid env
    ns_name ← generate_random_netns_name env
    let netns : NetworkNamespace = record { uuid = uuid; ns_name = ns_name; interfaces = [] } in
        do add_network_namespace env.zenoh env.codecs self.local netns; pure netns

  unfoldable pub get_network_namespace : Uuid → Task (World env) NetworkNamespace
  get_network_namespace ns_uuid = do
    node_uuid env self
    local.get_network_namespace env.zenoh env.codecs self.local ns_uuid

  unfoldable pub delete_network_namespace : Uuid → Task (World env) NetworkNamespace
  delete_network_namespace ns_uuid = do
    node_uuid env self
    netns ← else_not_found (local.get_network_namespace env.zenoh env.codecs self.local ns_uuid)
    remove_network_namespace env.zenoh env.codecs self.local ns_uuid
    pure netns

  -- The interface of one branch: built, put into the namespace, added, and returned.
  abbrev add_face_in :
      NetworkNamespace → String → VirtualInterfaceKind → Task (World env) VirtualInterface
  add_face_in netns if_name kind = do
    uuid ← new_uuid env
    add_network_namespace env.zenoh env.codecs self.local (with_face netns uuid)
    add_interface env.zenoh env.codecs self.local (new_face uuid if_name (some netns.uuid) kind)
    pure (new_face uuid if_name (some netns.uuid) kind)

  -- `match intf.kind`
  abbrev create_of_kind_in :
      NetworkNamespace → VirtualInterfaceConfigKind → String → Task (World env) VirtualInterface
  create_of_kind_in netns (VirtualInterfaceConfigKind.vxlan conf) name =
      add_face_in netns name (vxlan_on_dummy conf)
  create_of_kind_in netns VirtualInterfaceConfigKind.bridge name =
      add_face_in netns name (VirtualInterfaceKind.bridge (record { childs = [] }))
  create_of_kind_in netns VirtualInterfaceConfigKind.veth name = do
    external_name ← generate_random_interface_name env
    internal ← new_uuid env
    external ← new_uuid env
    let v_iface_internal =
          new_face internal name (some netns.uuid)
            (VirtualInterfaceKind.veth (record { pair = external; internal = true })) in
        let v_iface_external =
          new_face external external_name (some netns.uuid)
            (VirtualInterfaceKind.veth (record { pair = internal; internal = false })) in
        do
          add_network_namespace env.zenoh env.codecs self.local
              (with_face (with_face netns internal) external)
          add_interface env.zenoh env.codecs self.local v_iface_internal
          add_interface env.zenoh env.codecs self.local v_iface_external
          pure v_iface_internal
  create_of_kind_in netns (VirtualInterfaceConfigKind.vlan conf) name =
      add_face_in netns name (vlan_on_dummy conf)
  create_of_kind_in netns VirtualInterfaceConfigKind.macvlan name =
      add_face_in netns name macvlan_on_dummy
  create_of_kind_in netns (VirtualInterfaceConfigKind.gre conf) name =
      add_face_in netns name (VirtualInterfaceKind.gre conf)
  create_of_kind_in netns (VirtualInterfaceConfigKind.gretap conf) name =
      add_face_in netns name (VirtualInterfaceKind.gretap conf)
  create_of_kind_in netns (VirtualInterfaceConfigKind.ip6gre conf) name =
      add_face_in netns name (VirtualInterfaceKind.ip6gre conf)
  create_of_kind_in netns (VirtualInterfaceConfigKind.ip6gretap conf) name =
      add_face_in netns name (VirtualInterfaceKind.ip6gretap conf)

  unfoldable pub create_virtual_interface_in_namespace :
      VirtualInterfaceConfig → Uuid → Task (World env) VirtualInterface
  unfolding generate_random_interface_name
  create_virtual_interface_in_namespace intf ns_uuid = do
    node_uuid env self
    netns ← local.get_network_namespace env.zenoh env.codecs self.local ns_uuid
    create_of_kind_in netns intf.kind intf.if_name

  -- `match netns.interfaces.iter().position(..)` of the deletion
  abbrev delete_at :
      Uuid → VirtualInterface → NetworkNamespace → Option ℕ → Task (World env) VirtualInterface
  delete_at intf_uuid iface netns (some p) = do
    remove_pair env self iface.kind
    add_network_namespace env.zenoh env.codecs self.local (without_face netns p)
    remove_interface env.zenoh env.codecs self.local intf_uuid
    pure iface
  delete_at intf_uuid iface netns none = raise FError.not_connected

  -- `match iface.net_ns` of the deletion
  abbrev delete_in :
      Uuid → VirtualInterface → NetworkNamespace → Option Uuid → Task (World env) VirtualInterface
  delete_in intf_uuid iface netns none = raise FError.not_connected
  delete_in intf_uuid iface netns (some nid) =
      if nid == netns.uuid
      then delete_at intf_uuid iface netns (position ◌==◌ iface.uuid netns.interfaces)
      else raise FError.not_connected

  unfoldable pub delete_virtual_interface_in_namespace :
      Uuid → Uuid → Task (World env) VirtualInterface
  delete_virtual_interface_in_namespace intf_uuid ns_uuid = do
    node_uuid env self
    netns ← local.get_network_namespace env.zenoh env.codecs self.local ns_uuid
    iface ← get_interface env.zenoh env.codecs self.local intf_uuid
    delete_in intf_uuid iface netns iface.net_ns

  unfoldable pub move_interface_info_namespace : Uuid → Uuid → Task (World env) VirtualInterface
  move_interface_info_namespace intf_uuid ns_uuid = do
    node_uuid env self
    iface ← get_interface env.zenoh env.codecs self.local intf_uuid
    netns ← local.get_network_namespace env.zenoh env.codecs self.local ns_uuid
    add_interface env.zenoh env.codecs self.local (record iface { net_ns = some netns.uuid })
    add_network_namespace env.zenoh env.codecs self.local (with_face netns iface.uuid)
    pure (record iface { net_ns = some netns.uuid })

  -- `match netns.interfaces.iter().position(..)` of the move
  abbrev leave_at :
      VirtualInterface → NetworkNamespace → Option ℕ → Task (World env) VirtualInterface
  leave_at iface netns (some p) = do
    add_network_namespace env.zenoh env.codecs self.local (without_face netns p)
    pure iface
  leave_at iface netns none = raise FError.not_connected

  -- `match iface.net_ns` of the move: the interface is written before its namespace is looked up.
  abbrev leave : VirtualInterface → Option Uuid → Task (World env) VirtualInterface
  leave iface (some netns_uuid) = do
    add_interface env.zenoh env.codecs self.local (record iface { net_ns = none })
    netns ← local.get_network_namespace env.zenoh env.codecs self.local netns_uuid
    leave_at (record iface { net_ns = none }) netns (position ◌==◌ iface.uuid netns.interfaces)
  leave iface none = pure iface

  unfoldable pub move_interface_into_default_namespace : Uuid → Task (World env) VirtualInterface
  move_interface_into_default_namespace intf_uuid = do
    node_uuid env self
    iface ← get_interface env.zenoh env.codecs self.local intf_uuid
    leave iface iface.net_ns
