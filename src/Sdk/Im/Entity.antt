-- ===== src/Sdk/Im/Entity.antt =====
-- fog05-sdk/src/im/entity.rs: entities, that is, sets of FDUs that are deployed together.
use fog.Prelude.{String, Bool, Option, List}
use fog.Sdk.Types.{Uuid, IpConfiguration, IpVersion}
use fog.Sdk.Im.Fdu.{FduDescriptor}

pub data LinkKind : Type 0 where
  l2 l3 eline elan : LinkKind

pub record VirtualNetwork : Type 0 where
  pub uuid : Option Uuid
  pub id : String
  pub name : Option String
  pub is_mgmt : Bool
  pub link_kind : LinkKind
  pub ip_version : IpVersion
  pub ip_configuration : Option IpConfiguration

pub record EntityDescriptor : Type 0 where
  pub uuid : Option Uuid
  pub id : String
  pub version : String
  pub entity_version : String
  pub name : String
  pub description : Option String
  pub fdus : List FduDescriptor
  pub virtual_links : List VirtualNetwork

pub data EntityStatus : Type 0 where
  onboarding onboarded starting running stopping stopped offloading offloaded invalid : EntityStatus
  error : String → EntityStatus
  recovering : EntityStatus

pub record EntityRecord : Type 0 where
  pub uuid : Uuid
  pub id : Uuid
  pub status : EntityStatus
  pub fdus : List Uuid
  pub virtual_links : List Uuid
  pub fim_id : Option Uuid
  pub cloud_id : Option Uuid
