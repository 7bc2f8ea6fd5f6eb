-- ===== src/Sdk/Im/Fdu.antt =====
-- fog05-sdk/src/im/fdu.rs: descriptors and records of FDUs, the units that a node runs.
-- A version of the semver crate stands as its text, a 64-bit float as its bit pattern.
use fog.Prelude.{ℕ, String, Option, List}
use fog.Sdk.Fresult.{FError}
use fog.Sdk.Types.{Uuid, MacAddress}

pub data MigrationKind : Type 0 where
  live cold : MigrationKind

pub data ConfigurationKind : Type 0 where
  script env cloud_init : ConfigurationKind

pub data InterfaceKind : Type 0 where
  virtual wlan bluetooth : InterfaceKind

pub data VirtualInterfaceKind : Type 0 where
  paravirt pci_passthrough sr_iov virtio e1000 rtl8139 pcnet bridged physical : VirtualInterfaceKind

pub data StorageKind : Type 0 where
  block object : StorageKind

pub record Position : Type 0 where
  pub lat : String
  pub lon : String
  pub radius : ℕ

pub record Proximity : Type 0 where
  pub neighbor : String
  pub radius : ℕ

pub record Configuration : Type 0 where
  pub conf_kind : ConfigurationKind
  pub script : Option String
  pub env : Option (List String)
  pub ssh_keys : Option (List String)

pub record Image : Type 0 where
  pub uuid : Option Uuid
  pub name : Option String
  pub uri : String
  pub checksum : String
  pub format : String

pub record ComputationalRequirements : Type 0 where
  pub cpu_arch : String
  pub cpu_min_freq : ℕ
  pub cpu_min_count : ℕ
  pub gpu_min_count : ℕ
  pub fpga_min_count : ℕ
  pub operating_system : Option String
  pub ram_size_mb : ℕ
  pub storage_size_mb : ℕ

pub record GeographicalRequirement : Type 0 where
  pub position : Option Position
  pub proximity : Option (List Proximity)

pub record VirtualInterface : Type 0 where
  pub vif_kind : VirtualInterfaceKind
  pub parent : Option String
  pub bandwidht : Option ℕ

pub record ConnectionPointDescriptor : Type 0 where
  pub uuid : Option Uuid
  pub name : String
  pub id : String
  pub vld_ref : Option String

pub record Interface : Type 0 where
  pub name : String
  pub kind : InterfaceKind
  pub mac_address : Option MacAddress
  pub virtual_interface : VirtualInterface
  pub cp_id : Option String

pub record StorageDescriptor : Type 0 where
  pub id : String
  pub storage_kind : StorageKind
  pub size : ℕ

pub record FduDescriptor : Type 0 where
  pub uuid : Option Uuid
  pub id : String
  pub name : String
  pub version : String
  pub fdu_version : String
  pub description : Option String
  pub hypervisor : String
  pub image : Option Image
  pub hypervisor_specific : Option String
  pub computation_requirements : ComputationalRequirements
  pub geographical_requirements : Option GeographicalRequirement
  pub interfaces : List Interface
  pub storage : List StorageDescriptor
  pub connection_points : List ConnectionPointDescriptor
  pub configuration : Option Configuration
  pub migration_kind : MigrationKind
  pub replicas : Option ℕ
  pub depends_on : List String

pub data FduState : Type 0 where
  defined configured running : FduState
  error : String → FduState

pub record FduRecordVirtualInterface : Type 0 where
  pub vif_kind : VirtualInterfaceKind
  pub bandwidht : Option ℕ

pub record FduRecordInterface : Type 0 where
  pub name : String
  pub kind : InterfaceKind
  pub mac_address : Option MacAddress
  pub virtual_interface : FduRecordVirtualInterface
  pub cp_uuid : Option Uuid
  pub intf_uuid : Uuid

pub record FduRecordConnectionPoint : Type 0 where
  pub uuid : Uuid
  pub id : String

pub record FduRecord : Type 0 where
  pub uuid : Uuid
  pub fdu_uuid : Uuid
  pub node : Uuid
  pub interfaces : List FduRecordInterface
  pub connection_points : List FduRecordConnectionPoint
  pub status : FduState
  pub error : Option FError
  pub hypervisor_specific : Option (List ℕ)
  pub restarts : ℕ
