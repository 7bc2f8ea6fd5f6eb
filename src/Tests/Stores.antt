-- ===== src/Tests/Stores.antt =====
-- The connector on the store in memory.
use fog.Prelude.{some, none, List, [], ◌∷◌}
use fog.Zenoh.{Entry, raw, id}
use fog.Connector.Keys.{global_prefix, fdu_instance_path}
use fog.Connector.Subscribe.{Change, ready, put, delete, poll_next, forward}
use fog.Connector.Subscribe.Laws.{Same, forward-poll_next}
use fog.Tests.Fixture.{codecs}

-- a store with records of two FDUs under one identifier
abbrev doubled : List Entry
doubled =
    (fdu_instance_path global_prefix (id 0) (id 0) (id 7) (id 9), raw (0 ∷ []))
    ∷ (fdu_instance_path global_prefix (id 0) (id 0) (id 8) (id 9), raw (0 ∷ []))
    ∷ []

-- the news of a removal
abbrev removal : Change
removal = record { kind = delete; value = none }

-- a removal that comes before a record
forward-poll_next_example :
    Same codecs.instance_record
      (poll_next codecs.instance_record (ready (some removal)))
      (forward codecs.instance_record (record { kind = put; value = some (raw (0 ∷ [])) } ∷ []))
      (forward codecs.instance_record
        (removal ∷ record { kind = put; value = some (raw (0 ∷ [])) } ∷ []))
forward-poll_next_example =
    forward-poll_next codecs.instance_record removal
      (record { kind = put; value = some (raw (0 ∷ [])) } ∷ [])
