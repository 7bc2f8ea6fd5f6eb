-- ===== src/Agent/Catalog.antt =====
-- Descriptors, in `impl AgentOrchestratorInterface for Agent`: onboard and offload of FDUs and of
-- entities, and `fdu_info` of `impl AgentPluginInterface for Agent`.
pub mod Laws
use fog.Prelude.{Option, none, some, List, [], ◌∷◌, ◌++◌}
use fog.Sdk.Fresult.{FError}
use fog.Sdk.Outcome.{ret, Task, pure, raise, ◌>>=◌, ◌>>◌}
use fog.Sdk.Types.{Uuid}
use fog.Sdk.Im.Fdu.{FduDescriptor}
use fog.Sdk.Im.Entity.{EntityDescriptor}
use fog.Connector.Global.Fdus.{get_fdu, add_fdu, remove_fdu, get_all_fdu_instances}
use fog.Connector.Global.Entities.{get_entity, add_entity, remove_entity, get_all_entity_instances}
use fog.Agent.Env.{Env, World}
use fog.Agent.State.{Agent}

module _ (env : Env) where
  -- `Uuid::new_v4()`
  abbrev pub new_uuid : Task (World env) Uuid
  new_uuid w = let (u, w') = env.new_v4 w in (ret u, w')

  -- `match fdu.uuid`: an FDU with no identifier gets a new one.
  abbrev pub with_uuid : FduDescriptor → Option Uuid → Task (World env) FduDescriptor
  with_uuid fdu (some u) = pure fdu
  with_uuid fdu none = do u ← new_uuid; pure (record fdu { uuid = some u })

  -- the loop over `entity.fdus`
  pub with_uuids : List FduDescriptor → Task (World env) (List FduDescriptor)
  with_uuids [] = pure []
  with_uuids (fdu ∷ rest) = do
    ifdu ← with_uuid fdu fdu.uuid
    fdus ← with_uuids rest
    pure (ifdu ∷ fdus)

module _ (env : Env) (self : Agent) where
  unfoldable pub fdu_info : Uuid → Task (World env) FduDescriptor
  fdu_info fdu_uuid = get_fdu env.zenoh env.codecs self.global fdu_uuid

  abbrev onboard_as : FduDescriptor → Option Uuid → Task (World env) Uuid
  onboard_as fdu none = do
    fdu_uuid ← new_uuid env
    add_fdu env.zenoh env.codecs self.global (record fdu { uuid = some fdu_uuid })
    pure fdu_uuid
  onboard_as fdu (some fdu_uuid) = do add_fdu env.zenoh env.codecs self.global fdu; pure fdu_uuid

  unfoldable pub onboard_fdu : FduDescriptor → Task (World env) Uuid
  onboard_fdu fdu = onboard_as fdu fdu.uuid

  abbrev onboard_entity_as : EntityDescriptor → Option Uuid → Task (World env) Uuid
  onboard_entity_as entity none = do
    entity_uuid ← new_uuid env
    add_entity env.zenoh env.codecs self.global (record entity { uuid = some entity_uuid })
    pure entity_uuid
  onboard_entity_as entity (some entity_uuid) = do
    add_entity env.zenoh env.codecs self.global entity
    pure entity_uuid

  unfoldable pub onboard_entity : EntityDescriptor → Task (World env) Uuid
  unfolding with_uuids
  onboard_entity entity = do
    fdus ← with_uuids env entity.fdus
    onboard_entity_as (record entity { fdus = fdus }) entity.uuid

  -- `if !instances.is_empty() { return Err(HasInstances) }`
  abbrev pub unless_used : {A : Type 0} → List A → Task (World env) Uuid → Task (World env) Uuid
  unless_used [] rest = rest
  unless_used (i ∷ is) rest = raise FError.has_instances

  unfoldable pub offload_fdu : Uuid → Task (World env) Uuid
  offload_fdu fdu_uuid = do
    get_fdu env.zenoh env.codecs self.global fdu_uuid
    instances ← get_all_fdu_instances env.zenoh env.codecs self.global fdu_uuid
    unless_used instances (do remove_fdu env.zenoh env.codecs self.global fdu_uuid; pure fdu_uuid)

  unfoldable pub offload_entity : Uuid → Task (World env) Uuid
  offload_entity entity_uuid = do
    get_entity env.zenoh env.codecs self.global entity_uuid
    instances ← get_all_entity_instances env.zenoh env.codecs self.global entity_uuid
    unless_used instances
        (do remove_entity env.zenoh env.codecs self.global entity_uuid; pure entity_uuid)
