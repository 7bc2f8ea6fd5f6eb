-- ===== src/Ctl/Force/Silent.antt =====
-- What the commands that go to the orchestrator leave on the screen when they fail.
use fog.Prelude.{ℕ, String, none, some, ◌≡◌, ◌==◌, Bool, true, false}
use fog.Sdk.Types.{Uuid}
use fog.Ctl.Args.{FosCtl, AddKind, GetKind, DeleteKind}
use fog.Ctl.Terminal.{Machine, HttpResponse, line}
use fog.Ctl.Quiet.{Silent, >>=-Silent, print-Silent, pure-Silent, panics-Silent, if-Silent, quiet}
use fog.Ctl.Force.Jobs.{
  acknowledged, add_entity, add_fim, add_cloud, add_instance, delete_by_job, delete_fim,
  delete_cloud,
}
use fog.Ctl.Force.Tables.{
  get_entities, get_fim, get_fims, get_cloud, get_clouds, get_instance, get_instances,
}
use fog.Ctl.Force.{force_cli, add, get, delete, perform}

-- The commands whose output is made of one piece.
abbrev pub one_piece : FosCtl → Bool
one_piece (FosCtl.get (GetKind.entity (some u))) = false
one_piece _ = true

module _ {W : Type 0} (machine : Machine W) (fuel : ℕ) (host : String) where
  acknowledged-Silent : (u : Uuid) (res : HttpResponse) → Silent (acknowledged machine host u res)
  acknowledged-Silent u res =
      if-Silent (res.status == 200) (print-Silent (line (machine.show_uuid u))) pure-Silent

  add-Silent : (ak : AddKind) → Silent (add machine fuel ak host)
  unfolding add_entity add_fim add_cloud add_instance
  add-Silent (AddKind.entity path) = search quiet
  add-Silent (AddKind.fim u locator) = search quiet
  add-Silent (AddKind.cloud u conf ca cert key) = search quiet
  add-Silent (AddKind.entity_instance u f c) = search quiet

  get-Silent : (gk : GetKind) → one_piece (FosCtl.get gk) ≡ true → Silent (get machine fuel gk host)
  unfolding get_entities get_fim get_fims get_cloud get_clouds get_instance get_instances
  get-Silent (GetKind.entity (some u)) h = cc h
  get-Silent (GetKind.entity none) h = search quiet
  get-Silent (GetKind.fim (some u)) h = search quiet
  get-Silent (GetKind.fim none) h = search quiet
  get-Silent (GetKind.cloud (some u)) h = search quiet
  get-Silent (GetKind.cloud none) h = search quiet
  get-Silent (GetKind.entity_instance (some u)) h = search quiet
  get-Silent (GetKind.entity_instance none) h = search quiet

  delete-Silent : (dk : DeleteKind) → Silent (delete machine fuel dk host)
  unfolding delete_by_job delete_fim delete_cloud
  delete-Silent (DeleteKind.entity u) = search quiet
  delete-Silent (DeleteKind.fim u) = search quiet
  delete-Silent (DeleteKind.cloud u) = search quiet
  delete-Silent (DeleteKind.entity_instance u) = search quiet

  perform-Silent : (args : FosCtl) → one_piece args ≡ true → Silent (perform machine fuel args host)
  perform-Silent (FosCtl.add ak) h = add-Silent ak
  perform-Silent (FosCtl.get gk) h = get-Silent gk h
  perform-Silent (FosCtl.delete dk) h = delete-Silent dk
  perform-Silent (FosCtl.fim f) h = panics-Silent

  -- A command of `force_cli` other than the one that shows a single entity has printed nothing
  -- when it does not return: when it fails, panics, or is still waiting when the fuel is used up.
  pub force_cli-Silent :
      (args : FosCtl) → one_piece args ≡ true → Silent (force_cli machine fuel args host)
  unfolding force_cli
  force_cli-Silent args h = >>=-Silent _ _ λ built. perform-Silent args h
