-- ===== src/Ctl/Force/Waiting.antt =====
-- When the loop of fog05-fosctl/src/force.rs that waits for a job comes to an end.
use fog.Prelude.{arith, ℕ, zero, suc, ◌+◌, ◌≡◌, ◌≢◌, ap, ◌∙◌, String, str_eq, eq_iff, false}
use fog.Sdk.Fresult.{FError}
use fog.Sdk.Outcome.{ok, err, Outcome, ret, fail, panic, resume}
use fog.Sdk.Im.Entity.{EntityRecord}
use fog.Ctl.Types.{Job}
use fog.Ctl.Terminal.{Machine}
use fog.Ctl.Force.Jobs.{Progress, pending, judged, look, job_of, progress, wait, continuing}

status_other : (status : String) → status ≢ "failed" → str_eq status "failed" ≡ false
status_other status ne = ground (arith, eq_iff status "failed")

module _ {W : Type 0} (machine : Machine W) (host : String) (job_id : String) where
  -- The answers to the requests for a job, one after the other, that leave the loop waiting, from
  -- `w` to `w'`: the job has not failed, and its body is not a record.
  pub data Waits : ℕ → W → W → Type 0 where
    none_yet : {w : W} → Waits 0 w w
    one_more :
        {n : ℕ} {w w₁ w' : W} {job : Job} {e : String}
        → job_of machine host job_id w ≡ (ret job, w₁)
        → job.status ≢ "failed"
        → machine.json.entity_record.from_str job.body ≡ err e
        → Waits n w₁ w'
        → Waits (suc n) w w'

  -- The answer that ends the loop, and the loop's result.
  pub data Answered (w w' : W) : Outcome EntityRecord → Type 0 where
    succeeded :
        {job : Job} {r : EntityRecord}
        → job_of machine host job_id w ≡ (ret job, w')
        → job.status ≢ "failed"
        → machine.json.entity_record.from_str job.body ≡ ok r
        → Answered w w' (ret r)
    failed :
        {job : Job}
        → job_of machine host job_id w ≡ (ret job, w')
        → job.status ≡ "failed"
        → Answered w w' (fail (FError.io_error "Add Instance failed"))
    unanswered : {e : FError} → job_of machine host job_id w ≡ (fail e, w') → Answered w w' (fail e)
    panicked : job_of machine host job_id w ≡ (panic, w') → Answered w w' panic

  one_turn :
      (fuel : ℕ) (w : W) {o : Outcome Progress} {w₁ : W}
      → look machine host job_id w ≡ (o, w₁)
      → wait machine host (suc fuel) job_id w
        ≡ resume o (continuing machine host (wait machine host fuel job_id)) w₁
  unfolding wait
  one_turn fuel w e =
      ap (λ x. resume x.0 (continuing machine host (wait machine host fuel job_id)) x.1) e

  looked :
      (w : W) {o : Outcome Job} {w₁ : W}
      → job_of machine host job_id w ≡ (o, w₁)
      → look machine host job_id w ≡ resume o (judged machine host) w₁
  looked w e = ap (λ x. resume x.0 (judged machine host) x.1) e

  judged_other :
      (job : Job) (w : W)
      → job.status ≢ "failed"
      → judged machine host job w
        ≡ (ret (progress machine host (machine.json.entity_record.from_str job.body)), w)
  judged_other job w ne = rw (status_other job.status ne)

  judged_failed :
      (job : Job) (w : W)
      → job.status ≡ "failed"
      → judged machine host job w ≡ (fail (FError.io_error "Add Instance failed"), w)
  judged_failed job w is = rw is

  sums : (n k : ℕ) → (0 + k ≡ k) × (suc n + k ≡ suc (n + k))
  sums n k = (omega arith, omega arith)

  skipped :
      (n fuel : ℕ) (w w' : W)
      → Waits n w w'
      → wait machine host (n + fuel) job_id w ≡ wait machine host fuel job_id w'
  skipped zero fuel w w' none_yet = ap (λ k. wait machine host k job_id w) (sums zero fuel).0
  skipped (suc n) fuel w w' (one_more {w₁ = w₁} {job = job} e ne unread waits) =
      let found : look machine host job_id w ≡ (ret pending, w₁) =
        looked w e
        ∙ (judged_other job w₁ ne ∙ ap (λ x. (ret (progress machine host x), w₁)) unread) in
      ap (λ k. wait machine host k job_id w) (sums n fuel).1
      ∙ (one_turn (n + fuel) w found ∙ skipped n fuel w₁ w' waits)

  last_turn :
      (fuel : ℕ) (w w' : W) {result : Outcome EntityRecord}
      → Answered w w' result
      → wait machine host (suc fuel) job_id w ≡ (result, w')
  last_turn fuel w w' (succeeded {job = job} e ne is) =
      one_turn fuel w
        (looked w e ∙ (judged_other job w' ne ∙ ap (λ x. (ret (progress machine host x), w')) is))
  last_turn fuel w w' (failed {job = job} e is) =
      one_turn fuel w (looked w e ∙ judged_failed job w' is)
  last_turn fuel w w' (unanswered e) = one_turn fuel w (looked w e)
  last_turn fuel w w' (panicked e) = one_turn fuel w (looked w e)

  -- The loop goes on after the answer of a job that has not failed and whose body is not a record,
  -- and ends after any other: with the record; with the error "Add Instance failed" for a job that
  -- has failed; and with the error or the panic of the request itself. After `n` answers of the
  -- first kind and one of the other it comes to that end, whatever fuel is left.
  pub wait-Answered :
      (n fuel : ℕ) (w w₁ w' : W) {result : Outcome EntityRecord}
      → Waits n w w₁
      → Answered w₁ w' result
      → wait machine host (n + suc fuel) job_id w ≡ (result, w')
  wait-Answered n fuel w w₁ w' waits answered =
      skipped n (suc fuel) w w₁ waits ∙ last_turn fuel w₁ w' answered
