-- ===== src/Interfaces/Orchestrator.antt =====
-- `AgentOrchestratorInterface` of fog05-sdk/src/agent.rs. `M A` is a call that ends in an
-- `FResult<A>`.
use fog.Prelude.{String, Bool, List}
use fog.Sdk.Types.{Uuid}
use fog.Sdk.Im.Fdu.{FduDescriptor, FduRecord}
use fog.Sdk.Im.Entity.{EntityDescriptor}

pub record AgentOrchestratorInterface (M : Type 0 → Type 0) : Type 0 where
  pub check_fdu_compatibility : Uuid → M Bool
  pub schedule_fdu : Uuid → M FduRecord
  pub schedule_entity : Uuid → M Uuid
  pub deschedule_entity : Uuid → M Uuid
  pub onboard_fdu : FduDescriptor → M Uuid
  pub onboard_entity : EntityDescriptor → M Uuid
  pub define_fdu : Uuid → M FduRecord
  pub configure_fdu : Uuid → M FduRecord
  pub start_fdu : Uuid → M FduRecord
  pub run_fdu : Uuid → M FduRecord
  pub log_fdu : Uuid → M String
  pub ls_fdu : Uuid → M (List String)
  pub file_fdu : Uuid → String → M String
  pub stop_fdu : Uuid → M FduRecord
  pub clean_fdu : Uuid → M FduRecord
  pub undefine_fdu : Uuid → M FduRecord
  pub offload_fdu : Uuid → M Uuid
  pub offload_entity : Uuid → M Uuid
  pub fdu_status : Uuid → M FduRecord
  pub create_floating_ip : M Uuid
  pub delete_floating_ip : Uuid → M Uuid
  pub assing_floating_ip : Uuid → Uuid → M Uuid
  pub retain_floating_ip : Uuid → Uuid → M Uuid
