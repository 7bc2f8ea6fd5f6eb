-- ===== src/Ctl/Terminal.antt =====
-- What the command line tool uses of its machine, the calls of fog05-fosctl/src/force.rs and
-- fog05-fosctl/src/fim.rs that leave the tool, and its standard output. An `ExitFailure` is kept as
-- the error that it is made from, or, where a context or a message is given, as an error of that
-- text.
use fog.Prelude.{ℕ, String, ◌<>◌, List, ◌∷◌}
use fog.Sdk.Fresult.{FError}
use fog.Sdk.Outcome.{Result, ok, err, Call, Task, ret, fail}
use fog.Sdk.Outcome.Locked.{modify}
use fog.Sdk.Types.{Uuid}
use fog.Sdk.Im.Entity.{EntityDescriptor, EntityRecord}
use fog.Ctl.Types.{
  Job, RequestNewJobMessage, ReplyNewJobMessage, EntityActionBody, GetInstanceResponse,
  GetInstancesResponse, GetEntityResponse, GetEntitiesResponse, GetCloudsResponse, GetFimsResponse,
  GetFimResponse, GetCloudResponse,
}

-- `serde_json` or `serde_yaml` at a type that is written, or read
pub record Written (A : Type 0) : Type 0 where
  pub to_string : A → Result String String
  pub debug : A → String

pub record Read (A : Type 0) : Type 0 where
  pub from_str : String → Result String A

pub record Json : Type 0 where
  pub request : Written RequestNewJobMessage
  pub action : Written EntityActionBody
  pub reply : Read ReplyNewJobMessage
  pub job : Read Job
  pub descriptor : Read EntityDescriptor
  pub entity_record : Read EntityRecord
  pub get_entity : Read GetEntityResponse
  pub get_entities : Read GetEntitiesResponse
  pub get_fim : Read GetFimResponse
  pub get_fims : Read GetFimsResponse
  pub get_cloud : Read GetCloudResponse
  pub get_clouds : Read GetCloudsResponse
  pub get_instance : Read GetInstanceResponse
  pub get_instances : Read GetInstancesResponse

-- `reqwest::blocking::Response`: the status, and what reading the body gives
pub record HttpResponse : Type 0 where
  pub status : ℕ
  pub text : Result String String

pub record Http (W : Type 0) : Type 0 where
  pub build : Call W Unit
  pub get : String → Call W HttpResponse
  pub post : String → String → Call W HttpResponse
  pub post_form : String → List (String × String) → Call W HttpResponse
  pub delete : String → Call W HttpResponse

pub record Machine (W : Type 0) : Type 0 where
  pub read_to_string : String → Call W String
  pub http : Http W
  pub json : Json
  pub base64 : String → String
  pub show_uuid : Uuid → String
  pub show_number : ℕ → String
  pub debug_text : String → String
  pub debug_texts : List String → String

-- A line, or the rows of a table, the headings first.
pub data Print : Type 0 where
  line : String → Print
  table : List (List String) → Print

-- What has been printed, the last first.
abbrev pub Screen : Type 0
Screen = List Print

module _ {W : Type 0} where
  abbrev pub print : Print → Task (Screen × W) Unit
  print p = modify (λ screen. p ∷ screen)

  abbrev pub println : String → Task (Screen × W) Unit
  println s = print (line s)

  abbrev pub printstd : List (List String) → Task (Screen × W) Unit
  printstd rows = print (table rows)

  -- `value.with_context(|_| text)?`
  abbrev pub in_context : {A : Type 0} → String → Result String A → Task W A
  in_context text (ok a) w = (ret a, w)
  in_context text (err e) w = (fail (FError.io_error text), w)

  -- The same on a call.
  abbrev pub context : {A : Type 0} → String → Call W A → Task W A
  context text c w = let (r, w') = c w in in_context text r w'

  abbrev pub reading : Machine W → String → Task W String
  reading machine path =
      context ("could not read file `" <> (machine.debug_text path <> "`"))
        (machine.read_to_string path)
