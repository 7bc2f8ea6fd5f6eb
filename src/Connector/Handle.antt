-- ===== src/Connector/Handle.antt =====
-- `struct ZConnector` of fog05-sdk/src/zconnector/mod.rs, and `get_node_uuid` of
-- fog05-sdk/src/lib.rs, which it is made with. The crate machine_uid and the parser of UUIDs are
-- parameters.
use fog.Prelude.{String, Option}
use fog.Sdk.Fresult.{FError}
use fog.Sdk.Outcome.{Outcome, ret, fail, panic, hang, Result, ok, err, Call, Task, pure, ◌>>=◌}
use fog.Sdk.Types.{Uuid}
use fog.Connector.Global.Defs.{Global, new as new_global}
use fog.Connector.Local.Defs.{Local}

pub record ZConnector : Type 0 where
  pub global : Global
  pub local : Local

module _ {W : Type 0} (machine_uid : Call W String) (parse_str : String → Result String Uuid) where
  -- `machine_uid::get()?`
  abbrev settle_uid : Result String String → Outcome String
  settle_uid (ok text) = ret text
  settle_uid (err e) = fail (FError.unknown_error e)

  abbrev node_id_raw : Task W String
  node_id_raw w = let (r, w') = machine_uid w in (settle_uid r, w')

  -- `uuid::Uuid::parse_str(node_str)?`
  abbrev settle_uuid : Result String Uuid → Outcome Uuid
  settle_uuid (ok u) = ret u
  settle_uuid (err e) = fail (FError.uuid_error e)

  abbrev pub get_node_uuid : Task W Uuid
  get_node_uuid = node_id_raw >>= λ text w. (settle_uuid (parse_str text), w)

  -- `.unwrap()`
  abbrev pub unwrapped : {A : Type 0} → Outcome A → Outcome A
  unwrapped (ret a) = ret a
  unwrapped (fail e) = panic
  unwrapped panic = panic
  unwrapped hang = hang

  abbrev pub own_uuid : Task W Uuid
  own_uuid w = let (o, w') = get_node_uuid w in (unwrapped o, w')

  unfoldable pub new : Option Uuid → Option Uuid → Task W ZConnector
  unfolding new_global
  new sys_id ten_id = own_uuid >>= λ u.
      pure (record { global = new_global sys_id ten_id; local = record { node_uuid = u } })
