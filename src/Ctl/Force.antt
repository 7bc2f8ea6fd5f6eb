-- ===== src/Ctl/Force.antt =====
-- `force_cli` of fog05-fosctl/src/force.rs: the commands that go to the orchestrator of a
-- federation, by HTTP. The loop that waits for a job to be done runs on fuel.
pub mod Jobs
pub mod Tables
pub mod Laws
pub mod Silent
pub mod Waiting
pub mod Pieces
use fog.Prelude.{ℕ, Option, none, some, String}
use fog.Sdk.Outcome.{Task, panics, ◌>>=◌, ◌>>◌}
use fog.Sdk.Outcome.Locked.{outside}
use fog.Ctl.Args.{FosCtl, AddKind, GetKind, DeleteKind}
use fog.Ctl.Terminal.{Machine, Screen, context}
use fog.Ctl.Force.Jobs.{
  add_entity, add_fim, add_cloud, add_instance, delete_by_job, delete_fim, delete_cloud,
}
use fog.Ctl.Force.Tables.{
  get_entity, get_entities, get_fim, get_fims, get_cloud, get_clouds, get_instance, get_instances,
}

module _ {W : Type 0} (machine : Machine W) (fuel : ℕ) where
  abbrev pub add : AddKind → String → Task (Screen × W) Unit
  add (AddKind.entity path) host = add_entity machine host path
  add (AddKind.fim u locator) host = add_fim machine host u locator
  add (AddKind.cloud u conf ca cert key) host = add_cloud machine host u conf ca cert key
  add (AddKind.entity_instance u f c) host = add_instance machine host fuel u f c

  abbrev pub get : GetKind → String → Task (Screen × W) Unit
  get (GetKind.entity (some u)) host = get_entity machine host u
  get (GetKind.entity none) host = get_entities machine host
  get (GetKind.fim (some u)) host = get_fim machine host u
  get (GetKind.fim none) host = get_fims machine host
  get (GetKind.cloud (some u)) host = get_cloud machine host u
  get (GetKind.cloud none) host = get_clouds machine host
  get (GetKind.entity_instance (some u)) host = get_instance machine host u
  get (GetKind.entity_instance none) host = get_instances machine host

  abbrev pub delete : DeleteKind → String → Task (Screen × W) Unit
  delete (DeleteKind.entity u) host = delete_by_job machine host "offload" u
  delete (DeleteKind.fim u) host = delete_fim machine host u
  delete (DeleteKind.cloud u) host = delete_cloud machine host u
  delete (DeleteKind.entity_instance u) host = delete_by_job machine host "teardown" u

  abbrev pub perform : FosCtl → String → Task (Screen × W) Unit
  perform (FosCtl.add ak) host = add ak host
  perform (FosCtl.get gk) host = get gk host
  perform (FosCtl.delete dk) host = delete dk host
  perform (FosCtl.fim f) host = panics

  unfoldable pub force_cli : FosCtl → String → Task (Screen × W) Unit
  force_cli args host =
      outside (context "Unable to build HTTP client" machine.http.build) >> perform args host
