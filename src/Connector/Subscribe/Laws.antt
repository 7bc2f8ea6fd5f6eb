-- ===== src/Connector/Subscribe/Laws.antt =====
-- The spawned task and the stream of records, compared.
use fog.Prelude.{String, ◌≡◌, ◌⊎◌, inl, inr, refl, Option, none, some, List, ◌∷◌}
use fog.Sdk.Outcome.{Result, ok, err}
use fog.Sdk.Im.Fdu.{FduRecord}
use fog.Zenoh.{Codec, Value, raw, other}
use fog.Connector.Subscribe.{
  Change, ChangeKind, put, patch, delete, Poll, ready, pending, forward, poll_next, sent_change,
  sent_result, polled_change, polled_result,
}

module _ (c : Codec FduRecord) where
  -- A change is a record for both, or for neither.
  abbrev pub Same : Poll (Option FduRecord) → List FduRecord → List FduRecord → Type 0
  Same answer rest sent =
      ((answer ≡ pending) × (sent ≡ rest))
      ⊎ ((info : FduRecord) × (answer ≡ ready (some info)) × (sent ≡ info ∷ rest))

  Same-result :
      (res : Result String FduRecord) (rest : List FduRecord)
      → Same (polled_result c res) rest (sent_result c res rest)
  Same-result (ok info) rest = inr (info, refl, refl)
  Same-result (err e) rest = inl (refl, refl)

  Same-change :
      (kind : ChangeKind) (value : Option Value) (rest : List FduRecord)
      → Same (polled_change c kind value) rest (sent_change c kind value rest)
  Same-change delete value rest = inl (refl, refl)
  Same-change put none rest = inl (refl, refl)
  Same-change put (some (raw buf)) rest = Same-result (c.deserialize buf) rest
  Same-change put (some other) rest = inl (refl, refl)
  Same-change patch none rest = inl (refl, refl)
  Same-change patch (some (raw buf)) rest = Same-result (c.deserialize buf) rest
  Same-change patch (some other) rest = inl (refl, refl)

  -- To a change that the stream of changes has ready, `poll_next` answers with a record exactly
  -- where the task sends that record for the change before those of the later changes. Where the
  -- task sends nothing for it, `poll_next` answers that there is nothing yet, although it has taken
  -- the change.
  pub forward-poll_next :
      (change : Change) (later : List Change)
      → Same (poll_next c (ready (some change))) (forward c later) (forward c (change ∷ later))
  unfolding forward poll_next
  forward-poll_next change later = Same-change change.kind change.value (forward c later)
