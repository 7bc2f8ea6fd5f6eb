-- ===== src/Ctl/Fim/Silent.antt =====
-- What the commands that go to a FIM leave on the screen.
use fog.Prelude.{String, none, some}
use fog.Connector.Global.Defs.{Global}
use fog.Agent.Env.{Env, World}
use fog.Ctl.Args.{FimCtl, AddFimKind, GetFimKind, DeleteFimKind}
use fog.Ctl.Terminal.{Machine}
use fog.Ctl.Quiet.{Once, >>=-Once, print-Once, panics-Once}
use fog.Ctl.Fim.Nodes.{
  Session, add_fdu, add_entity, add_instance, delete_fdu, delete_entity, delete_instance,
}
use fog.Ctl.Fim.Tables.{
  get_fdu_table, get_fdus_table, get_instance_table, get_instances_table, get_node_table,
  get_nodes_table,
}
use fog.Ctl.Fim.{fim_cli, add, get, delete, perform}

module _ (env : Env) (machine : Machine (World env)) (session : Session (World env)) where
  add-Once : (self : Global) (ak : AddFimKind) → Once (add env machine session self ak)
  unfolding add_fdu add_entity add_instance
  add-Once self (AddFimKind.fdu path) = >>=-Once _ _ λ u. print-Once _
  add-Once self (AddFimKind.entity path) = >>=-Once _ _ λ u. print-Once _
  add-Once self (AddFimKind.network path) = panics-Once
  add-Once self (AddFimKind.fdu_instance u) = >>=-Once _ _ λ v. print-Once _

  get-Once : (self : Global) (gk : GetFimKind) → Once (get env machine session self gk)
  unfolding get_fdu_table get_fdus_table get_instance_table get_instances_table get_node_table
      get_nodes_table
  get-Once self (GetFimKind.fdu (some u)) = >>=-Once _ _ λ row. print-Once _
  get-Once self (GetFimKind.fdu none) = >>=-Once _ _ λ rows. print-Once _
  get-Once self (GetFimKind.entity u) = panics-Once
  get-Once self (GetFimKind.network u) = panics-Once
  get-Once self (GetFimKind.fdu_instance (some u)) = >>=-Once _ _ λ rows. print-Once _
  get-Once self (GetFimKind.fdu_instance none) = >>=-Once _ _ λ rows. print-Once _
  get-Once self (GetFimKind.node (some u)) = >>=-Once _ _ λ rows. print-Once _
  get-Once self (GetFimKind.node none) = >>=-Once _ _ λ rows. print-Once _

  delete-Once : (self : Global) (dk : DeleteFimKind) → Once (delete env machine session self dk)
  unfolding delete_fdu delete_entity delete_instance
  delete-Once self (DeleteFimKind.fdu u) = >>=-Once _ _ λ v. print-Once _
  delete-Once self (DeleteFimKind.entity u) = >>=-Once _ _ λ v. print-Once _
  delete-Once self (DeleteFimKind.network u) = panics-Once
  delete-Once self (DeleteFimKind.fdu_instance u) = >>=-Once _ _ λ v. print-Once _

  perform-Once : (self : Global) (args : FimCtl) → Once (perform env machine session self args)
  perform-Once self (FimCtl.add ak) = add-Once self ak
  perform-Once self (FimCtl.get gk) = get-Once self gk
  perform-Once self (FimCtl.delete dk) = delete-Once self dk

  -- A command of `fim_cli` prints exactly one line or table when it returns, and nothing when it
  -- does not: when the arguments name what is not implemented, when a call fails, or when an agent
  -- answers with an error.
  pub fim_cli-Once :
      (args : FimCtl) (zlocator : String) → Once (fim_cli env machine session args zlocator)
  unfolding fim_cli
  fim_cli-Once args zlocator = >>=-Once _ _ λ zconnector. perform-Once zconnector.global args
