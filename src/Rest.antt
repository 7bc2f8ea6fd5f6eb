-- ===== src/Rest.antt =====
-- The handlers of fog05-rest/src/main.rs, after the identifier or the descriptor of the request is
-- parsed. A response is the value that is serialized; an error that tide answers with is kept as
-- the error that it is made from.
pub mod Laws
use fog.Prelude.{String, Option, none, some}
use fog.Sdk.Fresult.{FError, from_zrpc_error}
use fog.Sdk.Outcome.{
  Outcome, Result, ok, err, ret, fail, panic, hang, Call, Task, pure, unwrap, rpc_call, ◌>>=◌, ◌>>◌,
}
use fog.Sdk.Types.{Uuid}
use fog.Sdk.Im.Fdu.{FduDescriptor, FduRecord}
use fog.Connector.Global.Defs.{Global}
use fog.Connector.Global.Fdus.{get_fdu, get_instance}
use fog.Connector.Global.Nodes.{get_all_nodes}
use fog.Agent.Env.{Env, World}
use fog.Api.{choosing}

-- `FOSRestResponse`
pub record Response (A : Type 0) : Type 0 where
  pub result : Option A
  pub error : Option String

abbrev pub succeeded : {A : Type 0} → A → Response A
succeeded a = record { result = some a; error = none }

-- The text of an error is that of its `Debug`.
abbrev pub failed : {A : Type 0} → String → Response A
failed text = record { result = none; error = some text }

-- `call.await?` on a remote call: the first `?` only
abbrev pub transport : {W A : Type 0} → Call W (Result FError A) → Task W (Result FError A)
transport c w =
    let (r, w') = c w in
    elim r [ ok answer ↦ (ret answer, w') | err e ↦ (fail (from_zrpc_error e), w') ]

module _ (env : Env) (debug : FError → String) (self : Global) where
  -- `match call { Ok(a) => .., Err(e) => .. }`, where an error becomes the response
  abbrev pub resolve :
      {A B : Type 0}
      → Outcome A
      → (A → Task (World env) (Response B))
      → Task (World env) (Response B)
  resolve (ret a) rest w = rest a w
  resolve (fail e) rest w = (ret (failed (debug e)), w)
  resolve panic rest w = (panic, w)
  resolve hang rest w = (hang, w)

  abbrev pub matched :
      {A B : Type 0}
      → Task (World env) A
      → (A → Task (World env) (Response B))
      → Task (World env) (Response B)
  matched call rest w = let (o, w') = call w in resolve o rest w'

  -- the same on the answer of a remote call
  abbrev answered :
      {A B : Type 0} → Result FError A → (A → Response B) → Task (World env) (Response B)
  answered (ok a) make = pure (make a)
  answered (err e) make = pure (failed (debug e))

  -- The service of a node that is chosen among those that are known.
  abbrev pub entry_point : Task (World env) Uuid
  entry_point = do
    nodes ← get_all_nodes env.zenoh env.codecs self
    picked ← choosing env self nodes
    unwrap picked

  unfoldable pub define_fdu : FduDescriptor → Task (World env) (Response FduDescriptor)
  define_fdu fdu_descriptor = do
    node ← entry_point
    answer ← transport (env.orchestrator.onboard_fdu node fdu_descriptor)
    answered answer λ fdu_uuid. succeeded (record fdu_descriptor { uuid = some fdu_uuid })

  -- The three calls by which an instance is made to run.
  unfoldable pub instantiate_on : Uuid → Uuid → Task (World env) (Response FduRecord)
  instantiate_on node fdu_uuid = do
    scheduled ← rpc_call (env.orchestrator.schedule_fdu node fdu_uuid)
    rpc_call (env.orchestrator.configure_fdu node scheduled.uuid)
    started ← rpc_call (env.orchestrator.start_fdu node scheduled.uuid)
    pure (succeeded started)

  unfoldable pub instantiate_fdu : Uuid → Task (World env) (Response FduRecord)
  unfolding instantiate_on
  instantiate_fdu fdu_uuid = do
    node ← entry_point
    matched (get_fdu env.zenoh env.codecs self fdu_uuid) λ fdu. instantiate_on node fdu_uuid

  -- The three calls by which an instance is taken down.
  unfoldable pub delete_on : Uuid → Uuid → Task (World env) (Response FduRecord)
  delete_on node instance_uuid = do
    stopped ← rpc_call (env.orchestrator.stop_fdu node instance_uuid)
    rpc_call (env.orchestrator.clean_fdu node stopped.uuid)
    undefined ← rpc_call (env.orchestrator.undefine_fdu node stopped.uuid)
    pure (succeeded undefined)

  unfoldable pub delete_fdu_instance : Uuid → Task (World env) (Response FduRecord)
  unfolding delete_on
  delete_fdu_instance instance_uuid = do
    node ← entry_point
    matched (get_instance env.zenoh env.codecs self instance_uuid)
        λ found. delete_on node instance_uuid

  unfoldable pub get_fdu_instance : Uuid → Task (World env) (Response FduRecord)
  get_fdu_instance instance_uuid = do
    entry_point
    matched (get_instance env.zenoh env.codecs self instance_uuid) λ found. pure (succeeded found)

  unfoldable pub delete_fdu : Uuid → Task (World env) (Response FduDescriptor)
  delete_fdu fdu_uuid = do
    node ← entry_point
    matched (get_fdu env.zenoh env.codecs self fdu_uuid) λ fdu. (do
      answer ← transport (env.orchestrator.offload_fdu node fdu_uuid)
      answered answer λ offloaded. succeeded fdu)
