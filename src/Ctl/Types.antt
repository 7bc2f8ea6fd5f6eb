-- ===== src/Ctl/Types.antt =====
-- fog05-fosctl/src/types.rs: the messages that the command line tool exchanges with the
-- orchestrator of a federation, which the tool calls FORCE.
use fog.Prelude.{String, Bool, Option, List}
use fog.Sdk.Types.{Uuid}
use fog.Sdk.Im.Entity.{EntityDescriptor, EntityRecord}

pub record Job : Type 0 where
  pub job_id : String
  pub original_sender : String
  pub kind : String
  pub body : String
  pub status : String

pub record RequestNewJobMessage : Type 0 where
  pub sender : String
  pub job_kind : String
  pub body : String

pub record ReplyNewJobMessage : Type 0 where
  pub original_sender : String
  pub accepted : Bool
  pub job_id : String
  pub body : Option String

pub record EntityActionBody : Type 0 where
  pub uuid : Uuid
  pub fim_id : Option Uuid
  pub cloud_id : Option Uuid

pub record GetInstanceResponse : Type 0 where
  pub system : Uuid
  pub tenant : Uuid
  pub entity : Uuid
  pub instance_record : EntityRecord

pub record GetInstancesResponse : Type 0 where
  pub system : Uuid
  pub tenant : Uuid
  pub entity : Uuid
  pub instances : List Uuid

pub record GetEntityResponse : Type 0 where
  pub system : Uuid
  pub tenant : Uuid
  pub entity : EntityDescriptor

pub record GetEntitiesResponse : Type 0 where
  pub system : Uuid
  pub tenant : Uuid
  pub entities : List Uuid

pub record GetCloudsResponse : Type 0 where
  pub system : Uuid
  pub tenant : Uuid
  pub clouds : List Uuid

pub record GetFimsResponse : Type 0 where
  pub system : Uuid
  pub tenant : Uuid
  pub fims : List Uuid

pub record FimInfo : Type 0 where
  pub uuid : Uuid
  pub locator : String

pub record CloudInfo : Type 0 where
  pub uuid : Uuid
  pub config : String
  pub ca : String
  pub cert : String
  pub key : String

pub record GetFimResponse : Type 0 where
  pub system : Uuid
  pub tenant : Uuid
  pub fim : FimInfo

pub record GetCloudResponse : Type 0 where
  pub system : Uuid
  pub tenant : Uuid
  pub cloud : CloudInfo
