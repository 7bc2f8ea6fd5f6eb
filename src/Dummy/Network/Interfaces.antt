-- ===== src/Dummy/Network/Interfaces.antt =====
-- `DummyNetwork` of fog05-sdk/examples/dummy-network.rs: virtual interfaces, bridges and MACVLANs.
use fog.Prelude.{String, true, false, none, List, []}
use fog.Sdk.Fresult.{FError}
use fog.Sdk.Outcome.{Task, pure, raise, ◌>>=◌, ◌>>◌}
use fog.Sdk.Types.{
  Uuid, IpAddress, VirtualInterface, VirtualInterfaceKind, VirtualInterfaceConfig,
  VirtualInterfaceConfigKind, BridgeKind,
}
use fog.Connector.Local.Networks.{get_interface, add_interface, remove_interface}
use fog.Connector.Global.Networks as global
use fog.Dummy.Env.{Env, World, new_uuid}
use fog.Dummy.Network.Defs.{
  DummyNetwork, node_uuid, else_not_found, get_dummy_face, master_face, new_face,
  generate_random_interface_name, vxlan_on_dummy, vlan_on_dummy, macvlan_on_dummy,
}

module _ (env : Env) (self : DummyNetwork) where
  -- The interface of one branch: built, added, and returned.
  abbrev add_face : String → VirtualInterfaceKind → Task (World env) VirtualInterface
  add_face if_name kind = do
    uuid ← new_uuid env
    add_interface env.zenoh env.codecs self.local (new_face uuid if_name none kind)
    pure (new_face uuid if_name none kind)

  -- `match intf.kind`
  abbrev create_of_kind : VirtualInterfaceConfigKind → String → Task (World env) VirtualInterface
  create_of_kind (VirtualInterfaceConfigKind.vxlan conf) name = add_face name (vxlan_on_dummy conf)
  create_of_kind VirtualInterfaceConfigKind.bridge name =
      add_face name (VirtualInterfaceKind.bridge (record { childs = [] }))
  create_of_kind VirtualInterfaceConfigKind.veth name = do
    external_name ← generate_random_interface_name env
    internal ← new_uuid env
    external ← new_uuid env
    let v_iface_internal =
          new_face internal name none
            (VirtualInterfaceKind.veth (record { pair = external; internal = true })) in
        let v_iface_external =
          new_face external external_name none
            (VirtualInterfaceKind.veth (record { pair = internal; internal = false })) in
        do
          add_interface env.zenoh env.codecs self.local v_iface_internal
          add_interface env.zenoh env.codecs self.local v_iface_external
          pure v_iface_internal
  create_of_kind (VirtualInterfaceConfigKind.vlan conf) name = add_face name (vlan_on_dummy conf)
  create_of_kind VirtualInterfaceConfigKind.macvlan name = add_face name macvlan_on_dummy
  create_of_kind (VirtualInterfaceConfigKind.gre conf) name =
      add_face name (VirtualInterfaceKind.gre conf)
  create_of_kind (VirtualInterfaceConfigKind.gretap conf) name =
      add_face name (VirtualInterfaceKind.gretap conf)
  create_of_kind (VirtualInterfaceConfigKind.ip6gre conf) name =
      add_face name (VirtualInterfaceKind.ip6gre conf)
  create_of_kind (VirtualInterfaceConfigKind.ip6gretap conf) name =
      add_face name (VirtualInterfaceKind.ip6gretap conf)

  unfoldable pub create_virtual_interface :
      VirtualInterfaceConfig → Task (World env) VirtualInterface
  unfolding generate_random_interface_name
  create_virtual_interface intf = do node_uuid env self; create_of_kind intf.kind intf.if_name

  unfoldable pub get_virtual_interface : Uuid → Task (World env) VirtualInterface
  get_virtual_interface intf_uuid = do
    node_uuid env self
    get_interface env.zenoh env.codecs self.local intf_uuid

  -- `if let VirtualInterfaceKind::VETH(ref info) = intf.kind`: the pair goes too
  abbrev pub remove_pair : VirtualInterfaceKind → Task (World env) Unit
  remove_pair (VirtualInterfaceKind.veth info) =
      remove_interface env.zenoh env.codecs self.local info.pair
  remove_pair _ = pure tt

  unfoldable pub delete_virtual_interface : Uuid → Task (World env) VirtualInterface
  delete_virtual_interface intf_uuid = do
    node_uuid env self
    intf ← else_not_found (get_interface env.zenoh env.codecs self.local intf_uuid)
    remove_pair intf.kind
    remove_interface env.zenoh env.codecs self.local intf_uuid
    pure intf

  unfoldable pub create_virtual_bridge : String → Task (World env) VirtualInterface
  create_virtual_bridge br_name = do
    node_uuid env self
    add_face br_name (VirtualInterfaceKind.bridge (record { childs = [] }))

  -- `match i.kind`, where only a bridge, or only a MACVLAN interface, goes on
  abbrev pub if_bridge :
      {A : Type 0} → VirtualInterfaceKind → (BridgeKind → Task (World env) A) → Task (World env) A
  if_bridge (VirtualInterfaceKind.bridge info) rest = rest info
  if_bridge _ rest = raise FError.wrong_kind

  abbrev if_macvlan : {A : Type 0} → VirtualInterfaceKind → Task (World env) A → Task (World env) A
  if_macvlan (VirtualInterfaceKind.macvlan info) rest = rest
  if_macvlan _ rest = raise FError.wrong_kind

  unfoldable pub get_virtual_bridge : Uuid → Task (World env) VirtualInterface
  get_virtual_bridge br_uuid = do
    node_uuid env self
    i ← get_interface env.zenoh env.codecs self.local br_uuid
    if_bridge i.kind λ info. pure i

  -- The bridge is looked up in the global part of the store.
  unfoldable pub delete_virtual_bridge : Uuid → Task (World env) VirtualInterface
  delete_virtual_bridge br_uuid = do
    node_uuid env self
    i ← global.get_interface env.zenoh env.codecs self.global br_uuid
    if_bridge i.kind λ info. (do remove_interface env.zenoh env.codecs self.local br_uuid; pure i)

  unfoldable pub create_macvlan_interface : String → Task (World env) VirtualInterface
  unfolding generate_random_interface_name
  create_macvlan_interface master_intf = do
    node_uuid env self
    uuid ← new_uuid env
    if_name ← generate_random_interface_name env
    let v_iface =
          new_face uuid if_name none
            (VirtualInterfaceKind.macvlan (record { dev = master_face master_intf })) in
        do add_interface env.zenoh env.codecs self.local v_iface; pure v_iface

  unfoldable pub delete_macvan_interface : Uuid → Task (World env) VirtualInterface
  delete_macvan_interface intf_uuid = do
    node_uuid env self
    i ← get_interface env.zenoh env.codecs self.local intf_uuid
    if_macvlan i.kind (do remove_interface env.zenoh env.codecs self.local intf_uuid; pure i)

  unfoldable pub get_interface_addresses : Uuid → Task (World env) (List IpAddress)
  get_interface_addresses intf_uuid = do
    node_uuid env self
    iface ← get_interface env.zenoh env.codecs self.local intf_uuid
    pure iface.addresses

unfoldable pub get_overlay_iface : {W : Type 0} → Task W String
unfolding get_dummy_face
get_overlay_iface = pure get_dummy_face.if_name

unfoldable pub get_vlan_face : {W : Type 0} → Task W String
unfolding get_dummy_face
get_vlan_face = pure get_dummy_face.if_name
