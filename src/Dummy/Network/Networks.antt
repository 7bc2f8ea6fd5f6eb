-- ===== src/Dummy/Network/Networks.antt =====
-- `DummyNetwork` of fog05-sdk/examples/dummy-network.rs: virtual networks and connection points.
use fog.Prelude.{ℕ, Bool, true, false, Option, none, some, [], ◌∷◌, ◌++◌, ◌==◌, position, remove}
use fog.Sdk.Fresult.{FError}
use fog.Sdk.Outcome.{Outcome, ret, fail, Task, pure, raise, ◌>>=◌, ◌>>◌}
use fog.Sdk.Types.{Uuid, VirtualNetwork, ConnectionPoint, LinkKind, ipv4, IpConfiguration}
use fog.Connector.Local.Networks as local
use fog.Connector.Global.Networks as global
use fog.Dummy.Env.{Env, World, new_uuid}
use fog.Dummy.Network.Defs.{DummyNetwork, node_uuid, else_not_found}

abbrev default_ip_conf : IpConfiguration
default_ip_conf = record {
  subnet = some ("10.240.0.0", 16);
  gateway = some "10.240.0.1";
  dhcp_range = some ("10.240.0.2", "10.240.255.254");
  dns = some ("208.67.222.222" ∷ "208.67.222.220" ∷ []);
}

-- the configuration is there when the network is to have a DHCP server
abbrev ip_conf_for : Bool → Option IpConfiguration
ip_conf_for true = some default_ip_conf
ip_conf_for false = none

abbrev pub default_vnet : Bool → VirtualNetwork
default_vnet dhcp = record {
  uuid = 0;
  id = "fos-default";
  name = some "Eclipse fog05 default virtual network";
  is_mgmt = false;
  link_kind = LinkKind.l2 (record { vni = 3845; mcast_addr = "239.15.5.0"; port = 3845 });
  ip_version = ipv4;
  ip_configuration = ip_conf_for dhcp;
  connection_points = [];
  interfaces = [];
  plugin_internals = none;
}

module _ (env : Env) (self : DummyNetwork) where
  unfoldable pub create_default_virtual_network : Bool → Task (World env) VirtualNetwork
  create_default_virtual_network dhcp = do
    node_uuid env self
    local.add_virutal_network env.zenoh env.codecs self.local (default_vnet dhcp)
    pure (default_vnet dhcp)

  unfoldable pub create_virtual_network : Uuid → Task (World env) VirtualNetwork
  create_virtual_network vnet_uuid = do
    vnet ← global.get_virtual_network env.zenoh env.codecs self.global vnet_uuid
    node_uuid env self
    local.add_virutal_network env.zenoh env.codecs self.local vnet
    pure vnet

  unfoldable pub get_virtual_network : Uuid → Task (World env) VirtualNetwork
  get_virtual_network vnet_uuid = do
    node_uuid env self
    local.get_virtual_network env.zenoh env.codecs self.local vnet_uuid

  unfoldable pub delete_virtual_network : Uuid → Task (World env) VirtualNetwork
  delete_virtual_network vnet_uuid = do
    node_uuid env self
    vnet ← else_not_found (local.get_virtual_network env.zenoh env.codecs self.local vnet_uuid)
    local.remove_virtual_network env.zenoh env.codecs self.local vnet_uuid
    pure vnet

  -- `match get_connection_point(cp_uuid)` on a fresh identifier: an error of any kind is the way on
  abbrev create_unless : Outcome ConnectionPoint → Uuid → Task (World env) ConnectionPoint
  create_unless (fail e) cp_uuid = do
    net_ns ← new_uuid env
    bridge ← new_uuid env
    internal_veth ← new_uuid env
    external_veth ← new_uuid env
    let cp : ConnectionPoint = record {
      uuid = cp_uuid;
      net_ns = net_ns;
      bridge = bridge;
      internal_veth = internal_veth;
      external_veth = external_veth;
    } in
        do local.add_connection_point env.zenoh env.codecs self.local cp; pure cp
  create_unless (ret cp) cp_uuid = raise FError.already_present
  create_unless Outcome.panic cp_uuid = λ w. (Outcome.panic, w)
  create_unless Outcome.hang cp_uuid = λ w. (Outcome.hang, w)

  unfoldable pub create_connection_point : Task (World env) ConnectionPoint
  create_connection_point = do
    node_uuid env self
    cp_uuid ← new_uuid env
    λ w.
        let (o, w') = local.get_connection_point env.zenoh env.codecs self.local cp_uuid w in
        create_unless o cp_uuid w'

  unfoldable pub get_connection_point : Uuid → Task (World env) ConnectionPoint
  get_connection_point cp_uuid = do
    node_uuid env self
    local.get_connection_point env.zenoh env.codecs self.local cp_uuid

  unfoldable pub delete_connection_point : Uuid → Task (World env) Uuid
  delete_connection_point cp_uuid = do
    node_uuid env self
    else_not_found (local.get_connection_point env.zenoh env.codecs self.local cp_uuid)
    local.remove_connection_point env.zenoh env.codecs self.local cp_uuid
    pure cp_uuid

  unfoldable pub bind_connection_point_to_virtual_network :
      Uuid → Uuid → Task (World env) ConnectionPoint
  bind_connection_point_to_virtual_network cp_uuid vnet_uuid = do
    node_uuid env self
    cp ← local.get_connection_point env.zenoh env.codecs self.local cp_uuid
    vnet ← local.get_virtual_network env.zenoh env.codecs self.local vnet_uuid
    local.add_virutal_network env.zenoh env.codecs self.local
        (record vnet { connection_points = vnet.connection_points ++ (cp.uuid ∷ []) })
    pure cp

  -- `match vnet.connection_points.iter().position(..)`
  abbrev take_point_out :
      ConnectionPoint → VirtualNetwork → Option ℕ → Task (World env) ConnectionPoint
  take_point_out cp vnet (some p) = do
    local.add_virutal_network env.zenoh env.codecs self.local
        (record vnet { connection_points = remove p vnet.connection_points })
    pure cp
  take_point_out cp vnet none = raise FError.not_connected

  unfoldable pub unbind_connection_point_from_virtual_network :
      Uuid → Uuid → Task (World env) ConnectionPoint
  unbind_connection_point_from_virtual_network cp_uuid vnet_uuid = do
    node_uuid env self
    cp ← local.get_connection_point env.zenoh env.codecs self.local cp_uuid
    vnet ← local.get_virtual_network env.zenoh env.codecs self.local vnet_uuid
    take_point_out cp vnet (position ◌==◌ cp.uuid vnet.connection_points)
