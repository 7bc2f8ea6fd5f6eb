-- ===== src/Dummy/Network/Bindings.antt =====
-- `DummyNetwork` of fog05-sdk/examples/dummy-network.rs: what an interface is connected to, and the
-- values that are set on it.
use fog.Prelude.{
  String, Option, none, some, [], ◌∷◌, ◌++◌, ◌==◌, str_eq, if◌then◌else◌, ℕ, position, remove,
}
use fog.Sdk.Fresult.{FError}
use fog.Sdk.Outcome.{Task, pure, raise, ◌>>=◌, ◌>>◌}
use fog.Sdk.Types.{
  Uuid, IpAddress, MacAddress, ConnectionPoint, VirtualInterface, VirtualInterfaceKind, BridgeKind,
}
use fog.Connector.Local.Networks as local
use fog.Connector.Local.Networks.{get_interface, add_interface}
use fog.Dummy.Env.{Env, World}
use fog.Dummy.Network.Defs.{DummyNetwork, node_uuid}
use fog.Dummy.Network.Interfaces.{if_bridge}

module _ (env : Env) (self : DummyNetwork) where
  unfoldable pub bind_interface_to_connection_point :
      Uuid → Uuid → Task (World env) VirtualInterface
  bind_interface_to_connection_point intf_uuid cp_uuid = do
    node_uuid env self
    cp ← local.get_connection_point env.zenoh env.codecs self.local cp_uuid
    iface ← get_interface env.zenoh env.codecs self.local intf_uuid
    add_interface env.zenoh env.codecs self.local (record iface { net_ns = some cp.net_ns })
    pure (record iface { net_ns = some cp.net_ns })

  -- `match iface.net_ns`
  abbrev unbind_from :
      ConnectionPoint → VirtualInterface → Option Uuid → Task (World env) VirtualInterface
  unbind_from cp iface (some ns) =
      if ns == cp.net_ns
      then (do
        add_interface env.zenoh env.codecs self.local (record iface { net_ns = none })
        pure (record iface { net_ns = none }))
      else raise FError.not_connected
  unbind_from cp iface none = raise FError.not_connected

  unfoldable pub unbind_interface_from_connection_point :
      Uuid → Uuid → Task (World env) VirtualInterface
  unbind_interface_from_connection_point intf_uuid cp_uuid = do
    node_uuid env self
    cp ← local.get_connection_point env.zenoh env.codecs self.local cp_uuid
    iface ← get_interface env.zenoh env.codecs self.local intf_uuid
    unbind_from cp iface iface.net_ns

  unfoldable pub rename_virtual_interface : Uuid → String → Task (World env) VirtualInterface
  rename_virtual_interface intf_uuid intf_name = do
    node_uuid env self
    iface ← get_interface env.zenoh env.codecs self.local intf_uuid
    add_interface env.zenoh env.codecs self.local (record iface { if_name = intf_name })
    pure (record iface { if_name = intf_name })

  unfoldable pub attach_interface_to_bridge : Uuid → Uuid → Task (World env) VirtualInterface
  attach_interface_to_bridge intf_uuid br_uuid = do
    node_uuid env self
    iface ← get_interface env.zenoh env.codecs self.local intf_uuid
    bridge ← get_interface env.zenoh env.codecs self.local br_uuid
    if_bridge env self bridge.kind λ info. (do
      new_bridge ← get_interface env.zenoh env.codecs self.local br_uuid
      add_interface env.zenoh env.codecs self.local (record iface { parent = some bridge.uuid })
      add_interface env.zenoh env.codecs self.local (record new_bridge {
        kind = VirtualInterfaceKind.bridge (record { childs = info.childs ++ (iface.uuid ∷ []) });
      })
      pure (record iface { parent = some bridge.uuid }))

  -- `match info.childs.iter().position(..)`
  abbrev detach_at :
      VirtualInterface → Uuid → BridgeKind → Option ℕ → Task (World env) VirtualInterface
  detach_at iface br_uuid info (some p) = do
    new_bridge ← get_interface env.zenoh env.codecs self.local br_uuid
    add_interface env.zenoh env.codecs self.local (record iface { parent = none })
    add_interface env.zenoh env.codecs self.local (record new_bridge {
      kind = VirtualInterfaceKind.bridge (record { childs = remove p info.childs });
    })
    pure (record iface { parent = none })
  detach_at iface br_uuid info none = raise FError.not_connected

  -- `match iface.parent`
  abbrev detach_from : VirtualInterface → Option Uuid → Task (World env) VirtualInterface
  detach_from iface (some br_uuid) = do
    bridge ← get_interface env.zenoh env.codecs self.local br_uuid
    if_bridge env self bridge.kind
        λ info. detach_at iface br_uuid info (position ◌==◌ iface.uuid info.childs)
  detach_from iface none = raise FError.not_connected

  unfoldable pub detach_interface_from_bridge : Uuid → Task (World env) VirtualInterface
  detach_interface_from_bridge intf_uuid = do
    node_uuid env self
    iface ← get_interface env.zenoh env.codecs self.local intf_uuid
    detach_from iface iface.parent

  -- An address comes with the length of its prefix, which `ip()` leaves out.
  unfoldable pub assing_address_to_interface :
      Uuid → Option (IpAddress × ℕ) → Task (World env) VirtualInterface
  assing_address_to_interface intf_uuid (some (ip, prefix)) = do
    node_uuid env self
    iface ← get_interface env.zenoh env.codecs self.local intf_uuid
    add_interface env.zenoh env.codecs self.local
        (record iface { addresses = iface.addresses ++ (ip ∷ []) })
    pure (record iface { addresses = iface.addresses ++ (ip ∷ []) })
  assing_address_to_interface intf_uuid none = raise FError.unimplemented

  -- `match iface.addresses.iter().position(..)`
  abbrev remove_address_at : VirtualInterface → Option ℕ → Task (World env) VirtualInterface
  remove_address_at iface (some p) = do
    add_interface env.zenoh env.codecs self.local
        (record iface { addresses = remove p iface.addresses })
    pure (record iface { addresses = remove p iface.addresses })
  remove_address_at iface none = raise FError.not_connected

  unfoldable pub remove_address_from_interface :
      Uuid → IpAddress → Task (World env) VirtualInterface
  remove_address_from_interface intf_uuid address = do
    node_uuid env self
    iface ← get_interface env.zenoh env.codecs self.local intf_uuid
    remove_address_at iface (position str_eq address iface.addresses)

  unfoldable pub set_macaddres_of_interface : Uuid → MacAddress → Task (World env) VirtualInterface
  set_macaddres_of_interface intf_uuid address = do
    node_uuid env self
    iface ← get_interface env.zenoh env.codecs self.local intf_uuid
    add_interface env.zenoh env.codecs self.local (record iface { phy_address = address })
    pure (record iface { phy_address = address })

unfoldable pub set_default_route_in_network_namespace : {W : Type 0} → Uuid → Uuid → Task W Unit
set_default_route_in_network_namespace ns_uuid intf_uuid = raise FError.unimplemented
