-- ===== src/Ctl/Fim.antt =====
-- `fim_cli` of fog05-fosctl/src/fim.rs: the commands that go to the agents of a FIM and to its
-- store.
pub mod Nodes
pub mod Tables
pub mod Laws
pub mod Silent
pub mod Served
use fog.Prelude.{String, ◌<>◌, Option, none, some}
use fog.Sdk.Fresult.{FError}
use fog.Sdk.Outcome.{expecting, Call, Task, panics, ◌>>=◌, ◌>>◌}
use fog.Sdk.Outcome.Locked.{outside}
use fog.Connector.Global.Defs.{Global}
use fog.Connector.Handle.{ZConnector, new}
use fog.Agent.Env.{Env, World}
use fog.Ctl.Args.{FimCtl, AddFimKind, GetFimKind, DeleteFimKind}
use fog.Ctl.Terminal.{Machine, Screen}
use fog.Ctl.Fim.Nodes.{
  Session, add_fdu, add_entity, add_instance, delete_fdu, delete_entity, delete_instance,
}
use fog.Ctl.Fim.Tables.{
  get_fdu_table, get_fdus_table, get_instance_table, get_instances_table, get_node_table,
  get_nodes_table,
}
pub use fog.Ctl.Fim.Nodes.{Session}

module _ (env : Env) (machine : Machine (World env)) (session : Session (World env)) where
  abbrev pub add : Global → AddFimKind → Task (Screen × World env) Unit
  add self (AddFimKind.fdu path) = add_fdu env machine session self path
  add self (AddFimKind.entity path) = add_entity env machine session self path
  add self (AddFimKind.network path) = panics
  add self (AddFimKind.fdu_instance u) = add_instance env machine session self u

  abbrev pub get : Global → GetFimKind → Task (Screen × World env) Unit
  get self (GetFimKind.fdu (some u)) = get_fdu_table env machine self u
  get self (GetFimKind.fdu none) = get_fdus_table env machine self
  get self (GetFimKind.entity u) = panics
  get self (GetFimKind.network u) = panics
  get self (GetFimKind.fdu_instance (some u)) = get_instance_table env machine self u
  get self (GetFimKind.fdu_instance none) = get_instances_table env machine self
  get self (GetFimKind.node (some u)) = get_node_table env machine self u
  get self (GetFimKind.node none) = get_nodes_table env machine self

  abbrev pub delete : Global → DeleteFimKind → Task (Screen × World env) Unit
  delete self (DeleteFimKind.fdu u) = delete_fdu env machine session self u
  delete self (DeleteFimKind.entity u) = delete_entity env machine session self u
  delete self (DeleteFimKind.network u) = panics
  delete self (DeleteFimKind.fdu_instance u) = delete_instance env machine session self u

  abbrev pub perform : Global → FimCtl → Task (Screen × World env) Unit
  perform self (FimCtl.add ak) = add self ak
  perform self (FimCtl.get gk) = get self gk
  perform self (FimCtl.delete dk) = delete self dk

  -- What is done before the arguments are looked at.
  abbrev pub joined : String → Task (World env) ZConnector
  joined zlocator =
      expecting (session.connect ("mode=client;peer=" <> zlocator))
      >> (expecting (session.open_net ("mode=client;peer=" <> zlocator))
          >> new session.machine_uid session.parse_uuid none none)

  unfoldable pub fim_cli : FimCtl → String → Task (Screen × World env) Unit
  unfolding new
  fim_cli args zlocator = outside (joined zlocator) >>= λ zconnector. perform zconnector.global args
