-- ===== src/Sdk/Im/Node.antt =====
-- fog05-sdk/src/im/node.rs, and the system types of fog05-sdk/src/im/types.rs: what a node tells
-- about itself. A 64-bit float stands as its bit pattern.
use fog.Prelude.{ℕ, String, Bool, Option, List}
use fog.Sdk.Types.{Uuid, MacAddress}

pub record SystemInfo : Type 0 where
  pub name : String
  pub uuid : String

pub record SystemConfig : Type 0 where
  pub config : String

pub data NodeStatusEnum : Type 0 where
  unknown not_ready ready : NodeStatusEnum

pub record NetworkInterface : Type 0 where
  pub name : String
  pub index : ℕ
  pub mac : Option MacAddress
  pub ips : List String
  pub flags : ℕ

pub record CpuSpec : Type 0 where
  pub model : String
  pub frequency : ℕ
  pub arch : String

pub record RamSpec : Type 0 where
  pub size : ℕ

pub record DiskSpec : Type 0 where
  pub local_address : String
  pub dimension : ℕ
  pub mount_point : String
  pub file_system : String

pub record IoSpec : Type 0 where
  pub name : String
  pub io_type : String
  pub io_file : String
  pub available : Bool

pub record AcceleratorSpec : Type 0 where
  pub hw_address : String
  pub name : String
  pub supported_libraries : List String
  pub available : Bool

pub record PositionSpec : Type 0 where
  pub lat : ℕ
  pub lon : ℕ

pub record NodeInfo : Type 0 where
  pub uuid : Uuid
  pub name : String
  pub os : String
  pub cpu : List CpuSpec
  pub ram : RamSpec
  pub disks : List DiskSpec
  pub io : List IoSpec
  pub accelerators : List AcceleratorSpec
  pub interfaces : List NetworkInterface
  pub position : Option PositionSpec
  pub agent_service_uuid : Uuid

pub record RamStatus : Type 0 where
  pub total : ℕ
  pub free : ℕ

pub record DiskStatus : Type 0 where
  pub mount_point : String
  pub total : ℕ
  pub free : ℕ

pub record NeighborPeerInfo : Type 0 where
  pub name : String
  pub id : String

pub record NeighborInfo : Type 0 where
  pub node : NeighborPeerInfo
  pub port : NeighborPeerInfo

pub record Neighbor : Type 0 where
  pub src : NeighborInfo
  pub dst : NeighborInfo

pub record NetworkInterfaceStatus : Type 0 where
  pub name : String
  pub index : ℕ
  pub mac : Option MacAddress
  pub ips : List String
  pub flags : ℕ
  pub is_up : Bool
  pub mtu : ℕ
  pub speed : ℕ
  pub sent_pkts : ℕ
  pub recv_pkts : ℕ
  pub sent_bytes : ℕ
  pub recv_bytes : ℕ

pub record NodeStatus : Type 0 where
  pub uuid : Uuid
  pub status : NodeStatusEnum
  pub supported_hypervisors : List String
  pub interfaces : List NetworkInterfaceStatus
  pub ram : RamStatus
  pub disk : List DiskStatus
  pub neighbors : List Neighbor
