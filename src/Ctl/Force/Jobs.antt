-- ===== src/Ctl/Force/Jobs.antt =====
-- The commands of fog05-fosctl/src/force.rs that change something. An entity and an instance are
-- added and removed by a job that is posted; a FIM and a cloud are posted and deleted themselves.
use fog.Prelude.{ℕ, zero, suc, String, str_eq, ◌<>◌, Option, none, [], ◌∷◌, if◌then◌else◌, ◌==◌}
use fog.Sdk.Fresult.{FError}
use fog.Sdk.Outcome.{expect, Result, ok, err, Call, Task, hang, pure, raise, unwrap, ◌>>=◌, ◌>>◌}
use fog.Sdk.Outcome.Locked.{outside}
use fog.Sdk.Types.{Uuid}
use fog.Sdk.Im.Entity.{EntityRecord}
use fog.Ctl.Types.{Job, ReplyNewJobMessage, EntityActionBody}
use fog.Ctl.Terminal.{
  Machine, Screen, Read, Written, HttpResponse, println, in_context, context, reading,
}

-- What one look at a job finds.
pub data Progress : Type 0 where
  pending : Progress
  finished : EntityRecord → Progress

module _ {W : Type 0} (machine : Machine W) (force_host : String) where
  abbrev pub url : String → String
  url path =
      "http://"
      <> (force_host
          <> (":9191/system/00000000-0000-0000-0000-000000000000"
              <> ("/tenant/00000000-0000-0000-0000-000000000000/" <> path)))

  -- a request, whose failure is told with the URL
  abbrev pub sent : String → Call W HttpResponse → Task W HttpResponse
  sent to call = context ("cold not contact `" <> (machine.debug_text to <> "`")) call

  -- the body of a response, read as an answer
  abbrev pub parsed : {A : Type 0} → Read A → HttpResponse → Task W A
  parsed read res =
      expect res.text >>= λ text. in_context "Unable to parse server reply" (read.from_str text)

  abbrev pub fetch : {A : Type 0} → Read A → String → Task W A
  fetch read path = sent (url path) (machine.http.get (url path)) >>= parsed read

  abbrev body : {A : Type 0} → Written A → A → Task W String
  body written a =
      in_context ("Could not create body `" <> (written.debug a <> "`")) (written.to_string a)

  abbrev pub new_job : String → String → Task W ReplyNewJobMessage
  new_job job_kind data_text = do
    js_body ←
        body machine.json.request (record { sender = "cli"; job_kind = job_kind; body = data_text })
    res ← sent (url "job") (machine.http.post (url "job") js_body)
    parsed machine.json.reply res

  abbrev pub job_of : String → Task W Job
  job_of job_id = fetch machine.json.job ("job/" <> job_id)

  abbrev pub onboard : String → Task W Uuid
  onboard descriptor_path = do
    text ← reading machine descriptor_path
    in_context ("Descriptor is not valid `" <> (machine.debug_text descriptor_path <> "`"))
        (machine.json.descriptor.from_str text)
    resp ← new_job "onboard" text
    job ← job_of resp.job_id
    descriptor ←
        in_context "Unable to parse server reply" (machine.json.descriptor.from_str job.body)
    unwrap descriptor.uuid

  unfoldable pub add_entity : String → Task (Screen × W) Unit
  add_entity descriptor_path =
      outside (onboard descriptor_path) >>= λ u. println (machine.show_uuid u)

  -- the identifier is printed where the status is 200
  abbrev pub acknowledged : Uuid → HttpResponse → Task (Screen × W) Unit
  acknowledged u res = if res.status == 200 then println (machine.show_uuid u) else pure tt

  unfoldable pub add_fim : Uuid → String → Task (Screen × W) Unit
  add_fim fim_id locator =
      outside (
        sent (url "fim") (
          machine.http.post_form (url "fim")
            (("id", machine.show_uuid fim_id) ∷ ("locator", locator) ∷ [])))
      >>= acknowledged fim_id

  abbrev pub post_cloud : Uuid → String → String → String → String → Task W HttpResponse
  post_cloud cloud_id conf_path ca_path cert_path key_path = do
    config_data ← reading machine conf_path
    ca_data ← reading machine ca_path
    cert_data ← reading machine cert_path
    key_data ← reading machine key_path
    sent (url "cloud") (
        machine.http.post_form (url "cloud") (
          ("id", machine.show_uuid cloud_id)
          ∷ ("config", config_data)
          ∷ ("ca", machine.base64 ca_data)
          ∷ ("cert", machine.base64 cert_data)
          ∷ ("key", machine.base64 key_data)
          ∷ []))

  unfoldable pub add_cloud : Uuid → String → String → String → String → Task (Screen × W) Unit
  add_cloud cloud_id conf_path ca_path cert_path key_path =
      outside (post_cloud cloud_id conf_path ca_path cert_path key_path) >>= acknowledged cloud_id

  -- One turn of the loop: a job that has failed ends it, and so does one whose body is a record.
  abbrev pub progress : Result String EntityRecord → Progress
  progress (ok r) = finished r
  progress (err e) = pending

  abbrev pub judged : Job → Task W Progress
  judged job =
      if str_eq job.status "failed"
      then raise (FError.io_error "Add Instance failed")
      else pure (progress (machine.json.entity_record.from_str job.body))

  abbrev pub look : String → Task W Progress
  look job_id = job_of job_id >>= judged

  abbrev hangs : {A : Type 0} → Task W A
  hangs w = (hang, w)

  -- `if let Ok(record) = .. { flag = true; .. }`, and the next turn of the loop
  abbrev pub continuing : Task W EntityRecord → Progress → Task W EntityRecord
  continuing next pending = next
  continuing next (finished r) = pure r

  -- `while !flag`, which asks again at once
  unfoldable pub wait : ℕ → String → Task W EntityRecord
  wait zero job_id = hangs
  wait (suc fuel) job_id = look job_id >>= continuing (wait fuel job_id)

  abbrev pub post_action : String → EntityActionBody → Task W ReplyNewJobMessage
  post_action job_kind action = do
    js_data ← body machine.json.action action
    new_job job_kind js_data

  unfoldable pub add_instance : ℕ → Uuid → Option Uuid → Option Uuid → Task (Screen × W) Unit
  unfolding wait
  add_instance fuel entity_id fim_id cloud_id = do
    resp ← outside (
        post_action "instantiate"
          (record { uuid = entity_id; fim_id = fim_id; cloud_id = cloud_id }))
    r ← outside (wait fuel resp.job_id)
    println (machine.show_uuid r.uuid)

  -- `DeleteKind::Entity` and `DeleteKind::Instance`, by the kind of the job
  unfoldable pub delete_by_job : String → Uuid → Task (Screen × W) Unit
  delete_by_job job_kind u =
      outside (post_action job_kind (record { uuid = u; fim_id = none; cloud_id = none }))
      >> println (machine.show_uuid u)

  abbrev pub deleting : String → Uuid → Task (Screen × W) Unit
  deleting path u =
      outside (sent (url path) (machine.http.delete (url path))) >> println (machine.show_uuid u)

  unfoldable pub delete_fim : Uuid → Task (Screen × W) Unit
  delete_fim u = deleting ("fim/" <> machine.show_uuid u) u

  unfoldable pub delete_cloud : Uuid → Task (Screen × W) Unit
  delete_cloud u = deleting ("cloud/" <> machine.show_uuid u) u
