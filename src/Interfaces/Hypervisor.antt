-- ===== src/Interfaces/Hypervisor.antt =====
-- `HypervisorPlugin` of fog05-sdk/src/plugins.rs. `M A` is a call that ends in an `FResult<A>`.
use fog.Prelude.{String, List}
use fog.Sdk.Types.{Uuid}
use fog.Sdk.Im.Fdu.{FduDescriptor, FduRecord}

pub record HypervisorPlugin (M : Type 0 → Type 0) : Type 0 where
  pub define_fdu : FduDescriptor → M FduRecord
  pub undefine_fdu : Uuid → M Uuid
  pub configure_fdu : Uuid → M Uuid
  pub clean_fdu : Uuid → M Uuid
  pub start_fdu : Uuid → M Uuid
  pub run_fdu : Uuid → M Uuid
  pub log_fdu : Uuid → M String
  pub ls_fdu : Uuid → M (List String)
  pub file_fdu : Uuid → String → M String
  pub stop_fdu : Uuid → M Uuid
  pub migrate_fdu : Uuid → Uuid → M Uuid
  pub get_fdu_status : Uuid → M FduRecord
