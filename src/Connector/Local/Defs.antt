-- ===== src/Connector/Local/Defs.antt =====
-- `struct Local` of zconnector/local.rs. Its handle on zenoh is the parameter `z` of the methods.
use fog.Sdk.Types.{Uuid}

pub record Local : Type 0 where
  pub node_uuid : Uuid
