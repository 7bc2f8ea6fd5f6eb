-- ===== src/Interfaces/Os.antt =====
-- `OS` of fog05-sdk/src/agent.rs. `M A` is a call that ends in an `FResult<A>`.
use fog.Prelude.{ℕ, String, Bool}
use fog.Sdk.Types.{IpAddress, InterfaceKind}
use fog.Agent.Os.Calls.{Url, Bytes}

pub record Os (M : Type 0 → Type 0) : Type 0 where
  pub dir_exists : String → M Bool
  pub create_dir : String → M Bool
  pub rm_dir : String → M Bool
  pub download_file : Url → String → M Bool
  pub create_file : String → M Bool
  pub rm_file : String → M Bool
  pub store_file : Bytes → String → M Bool
  pub read_file : String → M Bytes
  pub file_exists : String → M Bool
  pub execute_command : String → M String
  pub send_signal : ℕ → ℕ → M Bool
  pub check_if_pid_exists : ℕ → M Bool
  pub get_interface_type : String → M InterfaceKind
  pub set_interface_unavailable : String → M Bool
  pub set_interface_available : String → M Bool
  pub get_local_mgmt_address : M IpAddress
  pub get_local_mgmt_interface : M String
