-- ===== src/Ctl/Force/Laws.antt =====
-- The instances that the command line tool asks for: the job, and the loop that waits for it.
use fog.Prelude.{
  ◌⊎◌, inl, inr, ℕ, zero, suc, ◌≡◌, refl, sym, ap, ◌∙◌, String, str_eq, Option, ◌∷◌, Bool, true,
  false, if◌then◌else◌,
}
use fog.Sdk.Outcome.{Result, ok, err, ret, Task, raise, pure}
use fog.Sdk.Outcome.Locked.{outside}
use fog.Sdk.Fresult.{FError}
use fog.Sdk.Outcome.Laws.{>>=-eq_ret, outside-eq_ret, ret-inj}
use fog.Sdk.Types.{Uuid}
use fog.Sdk.Im.Entity.{EntityRecord}
use fog.Ctl.Types.{Job, ReplyNewJobMessage}
use fog.Ctl.Terminal.{Machine, Screen, line}
use fog.Ctl.Quiet.{print-eq_ret}
use fog.Ctl.Force.Jobs.{
  Progress, pending, finished, progress, judged, look, job_of, wait, continuing, add_instance,
  post_action,
}

module _ {W : Type 0} (machine : Machine W) (host : String) where
  -- A job whose body is the record `r`, and that has not failed.
  abbrev pub Done : Job → EntityRecord → Type 0
  Done job r =
      (str_eq job.status "failed" ≡ false) × (machine.json.entity_record.from_str job.body ≡ ok r)

  progress-eq_finished :
      (read : Result String EntityRecord) {r : EntityRecord}
      → progress machine host read ≡ finished r
      → read ≡ ok r
  progress-eq_finished (ok s) h = cc h
  progress-eq_finished (err e) h = cc h

  verdict-eq_finished :
      (failed : Bool) (read : Result String EntityRecord) (w : W) {r : EntityRecord} {w' : W}
      → (if failed
            then raise (FError.io_error "Add Instance failed")
            else pure (progress machine host read))
          w
        ≡ (ret (finished r), w')
      → ((failed ≡ false) × (read ≡ ok r)) × (w ≡ w')
  verdict-eq_finished true read w h = cc (ap (λ x. x.0) h)
  verdict-eq_finished false read w h =
      ((refl, progress-eq_finished read (sym (ret-inj (ap (λ x. x.0) h)))), ap (λ x. x.1) h)

  judged-eq_finished :
      (job : Job) (w : W) {r : EntityRecord} {w' : W}
      → judged machine host job w ≡ (ret (finished r), w')
      → Done job r × (w ≡ w')
  judged-eq_finished job w h =
      verdict-eq_finished (str_eq job.status "failed")
        (machine.json.entity_record.from_str job.body) w h

  look-eq_finished :
      (job_id : String) (w : W) {r : EntityRecord} {w' : W}
      → look machine host job_id w ≡ (ret (finished r), w')
      → (job : Job) × (job_of machine host job_id w ≡ (ret job, w')) × Done job r
  look-eq_finished job_id w h =
      let (job, w₁, e, rest) = >>=-eq_ret (job_of machine host job_id) (judged machine host) w h in
      let (done, same) = judged-eq_finished job w₁ rest in (job, e ∙ (λ i. (ret job, same i)), done)

  continuing-eq_ret :
      (next : Task W EntityRecord) (p : Progress) (w : W) {r : EntityRecord} {w' : W}
      → continuing machine host next p w ≡ (ret r, w')
      → (next w ≡ (ret r, w')) ⊎ ((p ≡ finished r) × (w ≡ w'))
  continuing-eq_ret next pending w h = inl h
  continuing-eq_ret next (finished s) w h =
      inr (ap finished (sym (ret-inj (ap (λ x. x.0) h))), ap (λ x. x.1) h)

  -- What the loop returns, the last look has found in the job.
  wait_sound :
      (fuel : ℕ) (job_id : String) (w : W) {r : EntityRecord} {w' : W}
      → wait machine host fuel job_id w ≡ (ret r, w')
      → (job : Job) × (w₀ : W) × (job_of machine host job_id w₀ ≡ (ret job, w')) × Done job r
  unfolding wait
  wait_sound zero job_id w h = cc (ap (λ x. x.0) h)
  wait_sound (suc fuel) job_id w {r} h =
      let (p, w₁, e, rest) =
        >>=-eq_ret (look machine host job_id)
          (continuing machine host (wait machine host fuel job_id)) w h in
      elim (continuing-eq_ret (wait machine host fuel job_id) p w₁ rest) [
        | inl again ↦ wait_sound fuel job_id w₁ again
        | inr (found, same) ↦
            let (job, there, done) = look-eq_finished job_id w (e ∙ λ i. (ret (found i), same i)) in
            (job, w, there, done)
      ]

  -- `add_instance` returns only after it has posted a job of the kind "instantiate" for the entity,
  -- and has been answered, at the last request, with the job of that identifier, which had not
  -- failed and whose body was a record; the UUID of this record is the one line that is printed.
  pub add_instance_sound :
      (fuel : ℕ) (entity_id : Uuid) (fim_id cloud_id : Option Uuid) (screen : Screen) (w : W)
      {screen' : Screen} {w' : W}
      → add_instance machine host fuel entity_id fim_id cloud_id (screen, w)
        ≡ (ret tt, (screen', w'))
      → (resp : ReplyNewJobMessage) × (w₁ : W) × (post_action machine host "instantiate"
            (record { uuid = entity_id; fim_id = fim_id; cloud_id = cloud_id })
            w
          ≡ (ret resp, w₁))
        × (job : Job) × (r : EntityRecord) × (w₂ : W) × (job_of machine host resp.job_id w₂
            ≡ (ret job, w'))
        × Done job r
        × (screen' ≡ line (machine.show_uuid r.uuid) ∷ screen)
  unfolding add_instance
  add_instance_sound fuel u f c screen w h =
      let post : Task W ReplyNewJobMessage =
        post_action machine host "instantiate" (record { uuid = u; fim_id = f; cloud_id = c }) in
      let (resp, (s₁, w₁), e, rest) = >>=-eq_ret (outside post) _ (screen, w) h in
      let (posted, same) = outside-eq_ret post screen w e in
      let (r, waited, shown) =
        print-eq_ret (wait machine host fuel resp.job_id) (λ r. line (machine.show_uuid r.uuid)) s₁
          w₁ rest in
      let (job, w₂, there, done) = wait_sound fuel resp.job_id w₁ waited in
      (
        resp,
        w₁,
        posted,
        job,
        r,
        w₂,
        there,
        done,
        shown ∙ ap (λ s. line (machine.show_uuid r.uuid) ∷ s) same,
      )
