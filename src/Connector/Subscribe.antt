-- ===== src/Connector/Subscribe.antt =====
-- The two ways to follow the records of the instances of a node: the task that `subscribe_instances`
-- of zconnector/local.rs spawns, and `FDURecordStream` of zconnector/mod.rs. What zenoh gives to a
-- subscriber is a sequence of changes, or of answers to polls.
pub mod Laws
use fog.Prelude.{String, Option, none, some, List, [], ◌∷◌}
use fog.Sdk.Outcome.{Result, ok, err}
use fog.Sdk.Im.Fdu.{FduRecord}
use fog.Zenoh.{Value, raw, other, Codec}

-- `zenoh::ChangeKind` and `zenoh::Change`
pub data ChangeKind : Type 0 where
  put patch delete : ChangeKind

pub record Change : Type 0 where
  pub kind : ChangeKind
  pub value : Option Value

-- `std::task::Poll`
pub data Poll (A : Type 0) : Type 0 where
  ready : A → Poll A
  pending : Poll A

module _ (c : Codec FduRecord) where
  -- `if let Ok(info) = deserialize_data(..)`
  abbrev pub sent_result : Result String FduRecord → List FduRecord → List FduRecord
  sent_result (ok info) rest = info ∷ rest
  sent_result (err e) rest = rest

  abbrev sent_value : Option Value → List FduRecord → List FduRecord
  sent_value none rest = rest
  sent_value (some (raw buf)) rest = sent_result (c.deserialize buf) rest
  sent_value (some other) rest = rest

  abbrev sent_change : ChangeKind → Option Value → List FduRecord → List FduRecord
  sent_change delete value rest = rest
  sent_change _ value rest = sent_value value rest

  -- The loop of the task: what it sends, for the changes that it gets before their end.
  unfoldable pub forward : List Change → List FduRecord
  forward [] = []
  forward (change ∷ changes) = sent_change change.kind change.value (forward changes)

  -- `FDURecordStream::poll_next`, by the answer of the stream of changes
  abbrev pub polled_result : Result String FduRecord → Poll (Option FduRecord)
  polled_result (ok info) = ready (some info)
  polled_result (err e) = pending

  abbrev polled_value : Option Value → Poll (Option FduRecord)
  polled_value none = pending
  polled_value (some (raw buf)) = polled_result (c.deserialize buf)
  polled_value (some other) = pending

  abbrev polled_change : ChangeKind → Option Value → Poll (Option FduRecord)
  polled_change delete value = pending
  polled_change _ value = polled_value value

  unfoldable pub poll_next : Poll (Option Change) → Poll (Option FduRecord)
  poll_next (ready (some change)) = polled_change change.kind change.value
  poll_next (ready none) = ready none
  poll_next pending = pending
