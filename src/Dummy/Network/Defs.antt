-- ===== src/Dummy/Network/Defs.antt =====
-- `DummyNetwork` of fog05-sdk/examples/dummy-network.rs: its state, and what its operations share.
use fog.Prelude.{ℕ, String, ◌<>◌, Option, none, [], zero}
use fog.Sdk.Fresult.{FError}
use fog.Sdk.Outcome.{Outcome, ret, fail, panic, hang, Task, unwrap, rpc_call, ◌>>=◌}
use fog.Sdk.Types.{
  Uuid, Interface, InterfaceKind, VirtualInterface, VirtualInterfaceKind, VlanConfKind,
  VxlanConfKind,
}
use fog.Connector.Local.Defs.{Local}
use fog.Connector.Global.Defs.{Global}
use fog.Dummy.Env.{Env, World}

-- `struct DummyNetwork`; the session is a parameter of the methods.
pub record DummyNetwork : Type 0 where
  pub local : Local
  pub global : Global
  pub pid : ℕ
  pub agent : Option Uuid
  pub os : Option Uuid

-- `self.agent.as_ref().unwrap().get_node_uuid().await??`
abbrev pub node_uuid : (env : Env) → DummyNetwork → Task (World env) Uuid
node_uuid env self = do server ← unwrap self.agent; rpc_call (env.agent.get_node_uuid server)

-- `match call { Err(_) => Err(FError::NotFound), Ok(a) => .. }`: what the first arm does
abbrev as_not_found : {A : Type 0} → Outcome A → Outcome A
as_not_found (ret a) = ret a
as_not_found (fail e) = fail FError.not_found
as_not_found panic = panic
as_not_found hang = hang

abbrev pub else_not_found : {W A : Type 0} → Task W A → Task W A
else_not_found m w = let (o, w') = m w in (as_not_found o, w')

abbrev face_called : String → Interface
face_called name = record {
  if_name = name;
  kind = InterfaceKind.ethernet;
  addresses = [];
  phy_address = none;
}

unfoldable pub get_dummy_face : Interface
get_dummy_face = face_called "dummy"

-- the interface that `create_macvlan_interface` puts under a MACVLAN interface
abbrev pub master_face : String → Interface
master_face = face_called

module _ (env : Env) where
  -- eight random letters and digits
  unfoldable pub generate_random_interface_name : Task (World env) String
  generate_random_interface_name w = let (iface, w') = env.random_name w in (ret iface, w')

  unfoldable pub generate_random_netns_name : Task (World env) String
  generate_random_netns_name w = let (ns, w') = env.random_name w in (ret ("ns-" <> ns), w')

-- A virtual interface as it is created: no parent, no address, and the MAC address 0.
abbrev pub new_face : Uuid → String → Option Uuid → VirtualInterfaceKind → VirtualInterface
new_face uuid if_name net_ns kind = record {
  uuid = uuid;
  if_name = if_name;
  net_ns = net_ns;
  kind = kind;
  parent = none;
  addresses = [];
  phy_address = zero;
}

abbrev pub vxlan_on_dummy : VxlanConfKind → VirtualInterfaceKind
unfolding get_dummy_face
vxlan_on_dummy conf = VirtualInterfaceKind.vxlan (record {
  vni = conf.vni;
  mcast_addr = conf.mcast_addr;
  port = conf.port;
  dev = get_dummy_face;
})

abbrev pub vlan_on_dummy : VlanConfKind → VirtualInterfaceKind
unfolding get_dummy_face
vlan_on_dummy conf = VirtualInterfaceKind.vlan (record { tag = conf.tag; dev = get_dummy_face })

abbrev pub macvlan_on_dummy : VirtualInterfaceKind
unfolding get_dummy_face
macvlan_on_dummy = VirtualInterfaceKind.macvlan (record { dev = get_dummy_face })
