-- ===== src/Sdk/Types.antt =====
-- fog05-sdk/src/types.rs: plugins, virtual networks and interfaces, as the agent and its plugins
-- exchange them. A `Uuid` is its 128-bit value and a MAC address its 48-bit value; addresses are
-- only carried, and stand as their text.
use fog.Prelude.{ℕ, String, Bool, Option, List}

abbrev pub Uuid : Type 0
Uuid = ℕ

abbrev pub IpAddress : Type 0
IpAddress = String

abbrev pub MacAddress : Type 0
MacAddress = ℕ

pub data PluginKind : Type 0 where
  networking : PluginKind
  hypervisor : String → PluginKind
  io accelerator gps : PluginKind

-- The derived `Display`: the name of the variant, or the text that it holds.
unfoldable pub display : PluginKind → String
display PluginKind.networking = "NETWORKING"
display (PluginKind.hypervisor hv) = hv
display PluginKind.io = "IO"
display PluginKind.accelerator = "ACCELERATOR"
display PluginKind.gps = "GPS"

pub record PluginInfo : Type 0 where
  pub uuid : Uuid
  pub kind : PluginKind
  pub name : String

pub data InterfaceKind : Type 0 where
  ethernet wlan can bridge tunnel ptp bluetooth : InterfaceKind

pub record Interface : Type 0 where
  pub if_name : String
  pub kind : InterfaceKind
  pub addresses : List IpAddress
  pub phy_address : Option MacAddress

pub record VethKind : Type 0 where
  pub pair : Uuid
  pub internal : Bool

pub record VlanKind : Type 0 where
  pub tag : ℕ
  pub dev : Interface

pub record VxlanKind : Type 0 where
  pub vni : ℕ
  pub mcast_addr : IpAddress
  pub port : ℕ
  pub dev : Interface

pub record BridgeKind : Type 0 where
  pub childs : List Uuid

pub record GreKind : Type 0 where
  pub local_addr : IpAddress
  pub remote_addr : IpAddress
  pub ttl : ℕ

pub record MacvlanKind : Type 0 where
  pub dev : Interface

pub data VirtualInterfaceKind : Type 0 where
  veth : VethKind → VirtualInterfaceKind
  vlan : VlanKind → VirtualInterfaceKind
  bridge : BridgeKind → VirtualInterfaceKind
  vxlan : VxlanKind → VirtualInterfaceKind
  gre gretap ip6gre ip6gretap : GreKind → VirtualInterfaceKind
  macvlan : MacvlanKind → VirtualInterfaceKind

pub record VirtualInterface : Type 0 where
  pub uuid : Uuid
  pub if_name : String
  pub net_ns : Option Uuid
  pub kind : VirtualInterfaceKind
  pub parent : Option Uuid
  pub addresses : List IpAddress
  pub phy_address : MacAddress

pub record VlanConfKind : Type 0 where
  pub tag : ℕ

pub record VxlanConfKind : Type 0 where
  pub vni : ℕ
  pub mcast_addr : IpAddress
  pub port : ℕ

pub data VirtualInterfaceConfigKind : Type 0 where
  veth : VirtualInterfaceConfigKind
  vlan : VlanConfKind → VirtualInterfaceConfigKind
  bridge : VirtualInterfaceConfigKind
  vxlan : VxlanConfKind → VirtualInterfaceConfigKind
  gre gretap ip6gre ip6gretap : GreKind → VirtualInterfaceConfigKind
  macvlan : VirtualInterfaceConfigKind

pub record VirtualInterfaceConfig : Type 0 where
  pub if_name : String
  pub kind : VirtualInterfaceConfigKind

pub record NetworkNamespace : Type 0 where
  pub uuid : Uuid
  pub ns_name : String
  pub interfaces : List Uuid

pub record ConnectionPoint : Type 0 where
  pub uuid : Uuid
  pub net_ns : Uuid
  pub bridge : Uuid
  pub internal_veth : Uuid
  pub external_veth : Uuid

pub data IpVersion : Type 0 where
  ipv4 ipv6 : IpVersion

pub record McastVxlanInfo : Type 0 where
  pub vni : ℕ
  pub mcast_addr : IpAddress
  pub port : ℕ

pub record TreeGreInfo : Type 0 where
  pub local_addr : IpAddress
  pub remote_addr : IpAddress
  pub ttl : ℕ

pub record P2pVxlanInfo : Type 0 where
  pub vni : ℕ
  pub remote_addr : IpAddress
  pub port : ℕ

pub record P2pGreInfo : Type 0 where
  pub vni : ℕ
  pub remote_addr : IpAddress
  pub port : ℕ

pub data LinkKind : Type 0 where
  l2 : McastVxlanInfo → LinkKind
  l3 : TreeGreInfo → LinkKind
  eline : P2pVxlanInfo → LinkKind
  elan : P2pGreInfo → LinkKind

pub record IpConfiguration : Type 0 where
  pub subnet : Option (IpAddress × ℕ)
  pub gateway : Option IpAddress
  pub dhcp_range : Option (IpAddress × IpAddress)
  pub dns : Option (List IpAddress)

pub record VirtualNetwork : Type 0 where
  pub uuid : Uuid
  pub id : String
  pub name : Option String
  pub is_mgmt : Bool
  pub link_kind : LinkKind
  pub ip_version : IpVersion
  pub ip_configuration : Option IpConfiguration
  pub connection_points : List Uuid
  pub interfaces : List Uuid
  pub plugin_internals : Option (List ℕ)

pub record VirtualNetworkConfig : Type 0 where
  pub uuid : Option Uuid
  pub id : String
  pub name : Option String
  pub is_mgmt : Bool
  pub link_kind : LinkKind
  pub ip_version : IpVersion
  pub ip_configuration : Option IpConfiguration

pub record ConnectionPointConfig : Type 0 where
  pub uuid : Uuid
