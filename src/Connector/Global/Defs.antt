-- ===== src/Connector/Global/Defs.antt =====
-- `struct Global` of zconnector/mod.rs: whose part of the store is meant. Its handle on zenoh is
-- the parameter `z` of the methods.
use fog.Prelude.{Option, none, some}
use fog.Sdk.Types.{Uuid}

pub record Global : Type 0 where
  pub system_id : Uuid
  pub tenant_id : Uuid

-- `DEFAULT_SYSTEM_ID` and `DEFAULT_TENANT_ID`: `Uuid::nil()`
abbrev default_id : Uuid
default_id = 0

abbrev or_default : Option Uuid → Uuid
or_default (some id) = id
or_default none = default_id

unfoldable pub new : Option Uuid → Option Uuid → Global
new system_id tenant_id = record {
  system_id = or_default system_id;
  tenant_id = or_default tenant_id;
}
