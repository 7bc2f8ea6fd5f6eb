-- ===== src/Ctl/Fim/Nodes.antt =====
-- The commands of fog05-fosctl/src/fim.rs that change something: each asks the agent of one node,
-- which is chosen among those that are known.
use fog.Prelude.{String, ◌<>◌, Bool, true, false, if◌then◌else◌}
use fog.Sdk.Fresult.{FError}
use fog.Sdk.Outcome.{
  Outcome, ret, fail, panic, hang, Result, ok, err, Call, Task, pure, panics, unwrap, rpc_call,
  ◌>>=◌, ◌>>◌,
}
use fog.Sdk.Outcome.Locked.{outside}
use fog.Sdk.Types.{Uuid}
use fog.Sdk.Im.Fdu.{FduDescriptor}
use fog.Sdk.Im.Entity.{EntityDescriptor}
use fog.Connector.Global.Defs.{Global}
use fog.Connector.Global.Nodes.{get_all_nodes}
use fog.Connector.Global.Fdus.{get_fdu, get_instance}
use fog.Connector.Global.Entities.{get_entity, get_entity_instance}
use fog.Agent.Env.{Env, World}
use fog.Api.{choosing}
use fog.Rest.{transport}
use fog.Ctl.Terminal.{Machine, Screen, Read, println, in_context, reading}

-- The two sessions with zenoh, the identity of the machine, and serde_yaml.
pub record Session (W : Type 0) : Type 0 where
  pub connect : String → Call W Unit
  pub open_net : String → Call W Unit
  pub machine_uid : Call W String
  pub parse_uuid : String → Result String Uuid
  pub fdu_yaml : Read FduDescriptor
  pub entity_yaml : Read EntityDescriptor

abbrev pub is_not_found : FError → Bool
is_not_found FError.not_found = true
is_not_found _ = false

module _ {W : Type 0} where
  -- `match call { Ok(a) => .., Err(FError::NotFound) => .., Err(e) => panic!(..) }`
  abbrev pub resolve : {A B : Type 0} → Outcome A → (A → Task W B) → Task W B → Task W B
  resolve (ret a) found missing w = found a w
  resolve (fail e) found missing w = if is_not_found e then missing w else (panic, w)
  resolve panic found missing w = (panic, w)
  resolve hang found missing w = (hang, w)

  abbrev pub matched : {A B : Type 0} → Task W A → (A → Task W B) → Task W B → Task W B
  matched call found missing w = let (o, w') = call w in resolve o found missing w'

module _ (env : Env) (machine : Machine (World env)) (session : Session (World env))
    (self : Global) where
  abbrev pub entry_point : Task (World env) Uuid
  entry_point = do
    nodes ← get_all_nodes env.zenoh env.codecs self
    picked ← choosing env self nodes
    unwrap picked

  -- `match node_client.call().await? { Ok(a) => .., Err(e) => panic!(..) }`
  abbrev pub insisted : Result FError Uuid → Task (World env) Uuid
  insisted (ok u) = pure u
  insisted (err e) = panics

  abbrev pub ask : (Uuid → Call (World env) (Result FError Uuid)) → Task (World env) Uuid
  ask call = do node ← entry_point; answer ← transport (call node); insisted answer

  abbrev pub described : {A : Type 0} → Read A → String → Task (World env) A
  described read path = reading machine path >>= λ text.
      in_context ("Descriptor is not valid `" <> (machine.debug_text path <> "`"))
        (read.from_str text)

  abbrev pub showing : Uuid → Task (Screen × World env) Unit
  showing u = println (machine.show_uuid u)

  unfoldable pub add_fdu : String → Task (Screen × World env) Unit
  add_fdu descriptor_path =
      outside (
        described session.fdu_yaml descriptor_path >>= λ fdu.
        ask (λ node. env.orchestrator.onboard_fdu node fdu))
      >>= showing

  unfoldable pub add_entity : String → Task (Screen × World env) Unit
  add_entity descriptor_path =
      outside (
        described session.entity_yaml descriptor_path >>= λ entity.
        ask (λ node. env.orchestrator.onboard_entity node entity))
      >>= showing

  -- The three calls by which an instance is made to run.
  abbrev pub run_on : Uuid → Uuid → Task (World env) Uuid
  run_on node id = do
    scheduled ← rpc_call (env.orchestrator.schedule_fdu node id)
    rpc_call (env.orchestrator.configure_fdu node scheduled.uuid)
    started ← rpc_call (env.orchestrator.start_fdu node scheduled.uuid)
    pure started.uuid

  -- The three calls by which an instance is taken down.
  abbrev pub remove_on : Uuid → Uuid → Task (World env) Uuid
  remove_on node id = do
    stopped ← rpc_call (env.orchestrator.stop_fdu node id)
    rpc_call (env.orchestrator.clean_fdu node stopped.uuid)
    undefined ← rpc_call (env.orchestrator.undefine_fdu node stopped.uuid)
    pure undefined.uuid

  abbrev pub instantiate : Uuid → Task (World env) Uuid
  instantiate id = entry_point >>= λ node.
      matched (get_fdu env.zenoh env.codecs self id) (λ fdu. run_on node id)
        (matched (get_entity env.zenoh env.codecs self id)
          (λ entity. rpc_call (env.orchestrator.schedule_entity node id)) panics)

  unfoldable pub add_instance : Uuid → Task (Screen × World env) Unit
  add_instance id = outside (instantiate id) >>= showing

  unfoldable pub delete_fdu : Uuid → Task (Screen × World env) Unit
  delete_fdu id = outside (ask (λ node. env.orchestrator.offload_fdu node id)) >>= showing

  unfoldable pub delete_entity : Uuid → Task (Screen × World env) Unit
  delete_entity id = outside (ask (λ node. env.orchestrator.offload_entity node id)) >>= showing

  abbrev pub take_down : Uuid → Task (World env) Uuid
  take_down id =
      matched (get_instance env.zenoh env.codecs self id)
        (λ fdu. entry_point >>= λ node. remove_on node id)
        (matched (get_entity_instance env.zenoh env.codecs self id)
          (λ entity. entry_point >>= λ node. rpc_call (env.orchestrator.deschedule_entity node id))
          panics)

  unfoldable pub delete_instance : Uuid → Task (Screen × World env) Unit
  delete_instance id = outside (take_down id) >>= showing
