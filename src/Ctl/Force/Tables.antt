-- ===== src/Ctl/Force/Tables.antt =====
-- The commands of fog05-fosctl/src/force.rs that show something.
use fog.Prelude.{String, ◌<>◌, Option, none, some, List, [], ◌∷◌}
use fog.Sdk.Outcome.{Task, pure, unwrap, ◌>>=◌, ◌>>◌}
use fog.Sdk.Outcome.Locked.{outside}
use fog.Sdk.Types.{Uuid}
use fog.Sdk.Im.Fdu.{FduDescriptor}
use fog.Sdk.Im.Entity.{VirtualNetwork}
use fog.Ctl.Display.{display_entity_status, display_link_kind, display_ip_version}
use fog.Ctl.Terminal.{Machine, Screen, Read, println, printstd}
use fog.Ctl.Force.Jobs.{fetch}

module _ {W : Type 0} (machine : Machine W) (force_host : String) where
  abbrev pub fdu_cells : FduDescriptor → Uuid → List String
  fdu_cells fdu u =
      machine.show_uuid u
      ∷ fdu.id
      ∷ fdu.name
      ∷ fdu.fdu_version
      ∷ fdu.hypervisor
      ∷ machine.debug_texts fdu.depends_on
      ∷ []

  abbrev pub fdu_rows : List FduDescriptor → Task W (List (List String))
  fdu_rows [] = pure []
  fdu_rows (fdu ∷ fdus) = do
    u ← unwrap fdu.uuid
    rows ← fdu_rows fdus
    pure (fdu_cells fdu u ∷ rows)

  abbrev net_rows : List VirtualNetwork → List (List String)
  net_rows [] = []
  net_rows (net ∷ nets) =
      (net.id ∷ display_link_kind net.link_kind ∷ display_ip_version net.ip_version ∷ [])
      ∷ net_rows nets

  unfoldable pub get_entity : Uuid → Task (Screen × W) Unit
  get_entity entity_id = do
    resp ← outside (
        fetch machine force_host machine.json.get_entity ("entity/" <> machine.show_uuid entity_id))
    u ← unwrap resp.entity.uuid
    printstd (
        ("UUID" ∷ "ID" ∷ "Name" ∷ "Version" ∷ [])
        ∷ (machine.show_uuid u
            ∷ resp.entity.id
            ∷ resp.entity.name
            ∷ resp.entity.entity_version
            ∷ [])
        ∷ [])
    println "FDUs:"
    rows ← outside (fdu_rows resp.entity.fdus)
    printstd (("UUID" ∷ "ID" ∷ "Name" ∷ "Version" ∷ "Hypervisor" ∷ "Depend On" ∷ []) ∷ rows)
    println "Networks:"
    printstd (("ID" ∷ "Link Kind" ∷ "IP Version" ∷ []) ∷ net_rows resp.entity.virtual_links)

  -- One request for each of the identifiers, in their order.
  abbrev pub each :
      {A : Type 0}
      → Read A
      → String
      → (Uuid → A → List String)
      → List Uuid
      → Task W (List (List String))
  each read path row [] = pure []
  each read path row (u ∷ us) = do
    resp ← fetch machine force_host read (path <> machine.show_uuid u)
    rows ← each read path row us
    pure (row u resp ∷ rows)

  abbrev pub list_entities : Task W (List (List String))
  list_entities = do
    resp ← fetch machine force_host machine.json.get_entities "entity"
    each machine.json.get_entity "entity/" (λ u found. machine.show_uuid u ∷ found.entity.id ∷ [])
        resp.entities

  unfoldable pub get_entities : Task (Screen × W) Unit
  get_entities = outside list_entities >>= λ rows. printstd (("Entity UUID" ∷ "ID" ∷ []) ∷ rows)

  abbrev pub uuid_rows : List Uuid → List (List String)
  uuid_rows [] = []
  uuid_rows (u ∷ us) = (machine.show_uuid u ∷ []) ∷ uuid_rows us

  unfoldable pub get_fim : Uuid → Task (Screen × W) Unit
  get_fim fim_id = do
    resp ←
        outside (fetch machine force_host machine.json.get_fim ("fim/" <> machine.show_uuid fim_id))
    printstd
        (("UUID" ∷ "Locator" ∷ []) ∷ (machine.show_uuid resp.fim.uuid ∷ resp.fim.locator ∷ []) ∷ [])

  unfoldable pub get_fims : Task (Screen × W) Unit
  get_fims = do
    resp ← outside (fetch machine force_host machine.json.get_fims "fim")
    printstd (("UUID" ∷ []) ∷ uuid_rows resp.fims)

  unfoldable pub get_cloud : Uuid → Task (Screen × W) Unit
  get_cloud cloud_id = do
    resp ←
        outside
          (fetch machine force_host machine.json.get_cloud ("cloud/" <> machine.show_uuid cloud_id))
    printstd (
        ("UUID" ∷ "Config" ∷ [])
        ∷ (machine.show_uuid resp.cloud.uuid ∷ resp.cloud.config ∷ [])
        ∷ [])

  unfoldable pub get_clouds : Task (Screen × W) Unit
  get_clouds = do
    resp ← outside (fetch machine force_host machine.json.get_clouds "cloud")
    printstd (("UUID" ∷ []) ∷ uuid_rows resp.clouds)

  abbrev optional : Option Uuid → String
  optional none = ""
  optional (some u) = machine.show_uuid u

  unfoldable pub get_instance : Uuid → Task (Screen × W) Unit
  get_instance instance_id = do
    resp ← outside (
        fetch machine force_host machine.json.get_instance
          ("instances/" <> machine.show_uuid instance_id))
    printstd (
        ("UUID" ∷ "ID" ∷ "Status" ∷ "FIM" ∷ "Cloud" ∷ [])
        ∷ (machine.show_uuid resp.instance_record.uuid
            ∷ machine.show_uuid resp.instance_record.id
            ∷ display_entity_status resp.instance_record.status
            ∷ optional resp.instance_record.fim_id
            ∷ optional resp.instance_record.cloud_id
            ∷ [])
        ∷ [])

  -- The instances are asked for one by one where the entities are.
  abbrev pub list_instances : Task W (List (List String))
  list_instances = do
    resp ← fetch machine force_host machine.json.get_instances "instances"
    each machine.json.get_instance "entity/"
        (λ u found.
          machine.show_uuid u
          ∷ machine.show_uuid found.instance_record.id
          ∷ display_entity_status found.instance_record.status
          ∷ [])
        resp.instances

  unfoldable pub get_instances : Task (Screen × W) Unit
  get_instances =
      outside list_instances >>= λ rows. printstd (("Entity UUID" ∷ "ID" ∷ "Status" ∷ []) ∷ rows)
