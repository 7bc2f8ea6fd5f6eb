-- ===== src/Dummy/Hypervisor.antt =====
-- `DummyHypervisor` of fog05-sdk/examples/dummy-hypervisor.rs: the operations on FDU instances of
-- `impl HypervisorPlugin`. The map of the instances stands behind a lock.
pub mod Configure
pub mod Moves
pub mod Laws
pub mod Refusals
pub mod Restore
pub mod Plugin
use fog.Prelude.{ℕ, Option, none, some, List, [], ◌∷◌, ◌==◌, put, drop}
use fog.Sdk.Fresult.{FError}
use fog.Sdk.Outcome.{ret, Task, pure, raise, unwrap, ◌>>=◌, ◌>>◌}
use fog.Sdk.Outcome.Locked.{outside, modify}
use fog.Sdk.Types.{Uuid}
use fog.Sdk.Im.Fdu.{
  FduDescriptor, FduRecord, FduRecordInterface, FduRecordConnectionPoint, FduState, defined,
  configured, running,
}
use fog.Connector.Local.Fdus.{get_instance, add_instance, remove_instance}
use fog.Dummy.Env.{Env, World, new_uuid}
use fog.Dummy.Hypervisor.Configure.{
  DummyHypervisor, agent_call, net_call, connect, create_cps, create_faces, values,
}

-- `HashMap<Uuid, FDURecord>`
abbrev pub Fdus : Type 0
Fdus = List (Uuid × FduRecord)

module _ {W A : Type 0} where
  -- `match instance.status`, where one state is allowed
  abbrev pub in_defined : FduState → Task W A → Task W A
  in_defined defined rest = rest
  in_defined _ rest = raise FError.transition_not_allowed

  abbrev pub in_configured : FduState → Task W A → Task W A
  in_configured configured rest = rest
  in_configured _ rest = raise FError.transition_not_allowed

  abbrev pub in_running : FduState → Task W A → Task W A
  in_running running rest = rest
  in_running _ rest = raise FError.transition_not_allowed

abbrev pub new_instance : Uuid → Uuid → Uuid → FduRecord
new_instance instance_uuid fdu_uuid node_uuid = record {
  uuid = instance_uuid;
  fdu_uuid = fdu_uuid;
  node = node_uuid;
  interfaces = [];
  connection_points = [];
  status = defined;
  error = none;
  hypervisor_specific = none;
  restarts = 0;
}

module _ (env : Env) (self : DummyHypervisor) where
  abbrev pub node_uuid : Task (World env) Uuid
  node_uuid = agent_call env self env.agent.get_node_uuid

  -- The reads at the start of an operation: the node, and the instance.
  abbrev pub known_instance : Uuid → Task (Fdus × World env) FduRecord
  known_instance instance_uuid = do
    outside node_uuid
    outside (get_instance env.zenoh env.codecs self.local instance_uuid)

  -- `add_instance(&instance).await?; guard.fdus.insert(instance_uuid, instance); Ok(instance_uuid)`
  abbrev pub publish : Uuid → FduRecord → Task (Fdus × World env) Uuid
  publish instance_uuid next = do
    outside (add_instance env.zenoh env.codecs self.local next)
    modify (put ◌==◌ instance_uuid next)
    pure instance_uuid

  unfoldable pub define_fdu : FduDescriptor → Task (Fdus × World env) FduRecord
  define_fdu fdu = do
    node ← outside node_uuid
    instance_uuid ← outside (new_uuid env)
    fdu_uuid ← unwrap fdu.uuid
    publish instance_uuid (new_instance instance_uuid fdu_uuid node)
    pure (new_instance instance_uuid fdu_uuid node)

  unfoldable pub undefine_fdu : Uuid → Task (Fdus × World env) Uuid
  undefine_fdu instance_uuid = do
    found ← known_instance instance_uuid
    in_defined found.status (do
      modify (drop ◌==◌ instance_uuid)
      outside (remove_instance env.zenoh env.codecs self.local instance_uuid)
      pure instance_uuid)

  -- Everything that `configure_fdu` makes in the network, put into the record.
  unfoldable pub configured_record : FduRecord → Task (World env) FduRecord
  unfolding connect create_cps create_faces
  configured_record found = do
    descriptor ← agent_call env self λ server. env.agent.fdu_info server found.fdu_uuid
    fdu_ns ← net_call env self env.net.create_network_namespace
    cps ← create_cps env self descriptor.connection_points []
    interfaces ← create_faces env self fdu_ns.uuid cps descriptor.interfaces
    pure (record found {
      hypervisor_specific = some (env.to_json fdu_ns.uuid);
      interfaces = interfaces;
      connection_points = values (env.into_iter cps);
      status = configured;
    })

  unfoldable pub configure_fdu : Uuid → Task (Fdus × World env) Uuid
  unfolding configured_record
  configure_fdu instance_uuid = do
    found ← known_instance instance_uuid
    in_defined found.status
        (do next ← outside (configured_record found); publish instance_uuid next)

  unfoldable pub delete_faces : List FduRecordInterface → Task (World env) Unit
  delete_faces [] = pure tt
  delete_faces (iface ∷ rest) = do
    net_call env self λ server. env.net.delete_virtual_interface server iface.intf_uuid
    delete_faces rest

  unfoldable pub delete_cps : List FduRecordConnectionPoint → Task (World env) Unit
  delete_cps [] = pure tt
  delete_cps (cp ∷ rest) = do
    net_call env self λ server. env.net.delete_connection_point server cp.uuid
    delete_cps rest

  -- Everything that `clean_fdu` takes out of the network.
  unfoldable pub cleaned_record : FduRecord → Task (World env) FduRecord
  unfolding delete_faces delete_cps
  cleaned_record found = do
    hv_specific ← unwrap found.hypervisor_specific
    netns ← unwrap (env.from_json hv_specific)
    net_call env self λ server. env.net.delete_network_namespace server netns
    delete_faces found.interfaces
    delete_cps found.connection_points
    pure (record found { interfaces = []; connection_points = []; status = defined })

  unfoldable pub clean_fdu : Uuid → Task (Fdus × World env) Uuid
  unfolding cleaned_record
  clean_fdu instance_uuid = do
    found ← known_instance instance_uuid
    in_configured found.status
        (do next ← outside (cleaned_record found); publish instance_uuid next)

  unfoldable pub start_fdu : Uuid → Task (Fdus × World env) Uuid
  start_fdu instance_uuid = do
    found ← known_instance instance_uuid
    in_configured found.status (publish instance_uuid (record found { status = running }))

  unfoldable pub stop_fdu : Uuid → Task (Fdus × World env) Uuid
  stop_fdu instance_uuid = do
    found ← known_instance instance_uuid
    in_running found.status (publish instance_uuid (record found { status = configured }))

  unfoldable pub get_fdu_status : Uuid → Task (Fdus × World env) FduRecord
  get_fdu_status instance_uuid = known_instance instance_uuid
