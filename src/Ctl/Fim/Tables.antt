-- ===== src/Ctl/Fim/Tables.antt =====
-- The commands of fog05-fosctl/src/fim.rs that show what the store holds.
use fog.Prelude.{String, str_eq, ◌<>◌, List, [], ◌∷◌, ◌++◌, if◌then◌else◌}
use fog.Sdk.Outcome.{Task, pure, panics, unwrap, ◌>>=◌}
use fog.Sdk.Outcome.Locked.{outside}
use fog.Sdk.Types.{Uuid}
use fog.Sdk.Im.Fdu.{FduDescriptor, FduRecord}
use fog.Sdk.Im.Node.{NodeInfo, NodeStatus, NetworkInterfaceStatus, CpuSpec}
use fog.Sdk.Im.Entity.{EntityRecord}
use fog.Connector.Global.Defs.{Global}
use fog.Connector.Global.Nodes.{get_all_nodes, get_node_info, get_node_status}
use fog.Connector.Global.Fdus.{get_fdu, get_all_fdu, get_instance, get_all_instances}
use fog.Connector.Global.Entities.{get_entity_instance, get_all_entities_instances}
use fog.Agent.Env.{Env, World}
use fog.Ctl.Display.{display_state, display_entity_status, display_node_status, join}
use fog.Ctl.Terminal.{Machine, Screen, printstd}
use fog.Ctl.Fim.Nodes.{matched}

abbrev Rows : Type 0
Rows = List (List String)

-- A row for each value, in their order.
abbrev pub rows_of : {A W : Type 0} → (A → Task W (List String)) → List A → Task W Rows
rows_of row [] = pure []
rows_of row (a ∷ more) = do first ← row a; rest ← rows_of row more; pure (first ∷ rest)

-- one line for each address
abbrev face_text : String → List String → String
face_text name [] = ""
face_text name (ip ∷ ips) = (name <> (" " <> (ip <> "\n"))) <> face_text name ips

abbrev pub faces_text : List NetworkInterfaceStatus → String
faces_text [] = ""
faces_text (face ∷ faces) =
    (if str_eq face.name "lo" then "" else face_text face.name face.ips) <> faces_text faces

module _ (env : Env) (machine : Machine (World env)) (self : Global) where
  -- `fdu.uuid.unwrap()`, where the row is made
  abbrev fdu_row : FduDescriptor → Task (World env) (List String)
  fdu_row fdu = unwrap fdu.uuid >>= λ u.
      pure (machine.show_uuid u ∷ fdu.id ∷ fdu.name ∷ fdu.hypervisor ∷ fdu.fdu_version ∷ [])

  abbrev fdu_heading : List String
  fdu_heading = "UUID" ∷ "ID" ∷ "Name" ∷ "Hypervisor" ∷ "Version" ∷ []

  unfoldable pub get_fdu_table : Uuid → Task (Screen × World env) Unit
  get_fdu_table fdu_id = outside (get_fdu env.zenoh env.codecs self fdu_id >>= fdu_row) >>= λ row.
      printstd (fdu_heading ∷ row ∷ [])

  unfoldable pub get_fdus_table : Task (Screen × World env) Unit
  get_fdus_table = outside (get_all_fdu env.zenoh env.codecs self >>= rows_of fdu_row) >>= λ rows.
      printstd (fdu_heading ∷ rows)

  abbrev uuid_lines : List Uuid → String
  uuid_lines [] = ""
  uuid_lines (u ∷ us) = (machine.show_uuid u <> "\n") <> uuid_lines us

  abbrev instance_table : FduRecord → Rows
  instance_table fdu =
      ("UUID" ∷ "ID" ∷ "Node" ∷ "Status" ∷ "Restarts" ∷ [])
      ∷ (machine.show_uuid fdu.uuid
          ∷ machine.show_uuid fdu.fdu_uuid
          ∷ machine.show_uuid fdu.node
          ∷ display_state fdu.status
          ∷ machine.show_number fdu.restarts
          ∷ [])
      ∷ []

  abbrev entity_table : EntityRecord → Rows
  entity_table entity =
      ("UUID" ∷ "ID" ∷ "FDUs" ∷ "Status" ∷ [])
      ∷ (machine.show_uuid entity.uuid
          ∷ machine.show_uuid entity.id
          ∷ uuid_lines entity.fdus
          ∷ display_entity_status entity.status
          ∷ [])
      ∷ []

  unfoldable pub get_instance_table : Uuid → Task (Screen × World env) Unit
  get_instance_table instance_id =
      outside (
        matched (get_instance env.zenoh env.codecs self instance_id)
          (λ fdu. pure (instance_table fdu))
          (matched (get_entity_instance env.zenoh env.codecs self instance_id)
            (λ entity. pure (entity_table entity)) panics))
      >>= printstd

  abbrev pub instance_rows : List FduRecord → Rows
  instance_rows [] = []
  instance_rows (f ∷ fs) =
      (machine.show_uuid f.uuid
        ∷ machine.show_uuid f.fdu_uuid
        ∷ machine.show_uuid f.node
        ∷ display_state f.status
        ∷ "FDU"
        ∷ "-"
        ∷ machine.show_number f.restarts
        ∷ [])
      ∷ instance_rows fs

  abbrev pub entity_rows : List EntityRecord → Rows
  entity_rows [] = []
  entity_rows (e ∷ es) =
      (machine.show_uuid e.uuid
        ∷ machine.show_uuid e.id
        ∷ ""
        ∷ display_entity_status e.status
        ∷ "Entity"
        ∷ uuid_lines e.fdus
        ∷ "-"
        ∷ [])
      ∷ entity_rows es

  abbrev pub list_instances : Task (World env) Rows
  list_instances = do
    fdus ← get_all_instances env.zenoh env.codecs self
    entities ← get_all_entities_instances env.zenoh env.codecs self
    pure (instance_rows fdus ++ entity_rows entities)

  unfoldable pub get_instances_table : Task (Screen × World env) Unit
  get_instances_table = outside list_instances >>= λ rows.
      printstd (("UUID" ∷ "ID" ∷ "Node" ∷ "Status" ∷ "Kind" ∷ "FDUs" ∷ "Restarts" ∷ []) ∷ rows)

  -- `cpu[0]`
  abbrev pub first_cpu : List CpuSpec → Task (World env) CpuSpec
  first_cpu [] = panics
  first_cpu (cpu ∷ cpus) = pure cpu

  abbrev pub node_heading : List String
  node_heading = "UUID" ∷ "Hostname" ∷ "Status" ∷ "Hypervisors" ∷ "Architecture" ∷ "OS" ∷ []

  abbrev pub node_cells : NodeInfo → NodeStatus → CpuSpec → List String
  node_cells ni ns cpu =
      machine.show_uuid ni.uuid
      ∷ ni.name
      ∷ display_node_status ns.status
      ∷ join ns.supported_hypervisors
      ∷ cpu.arch
      ∷ ni.os
      ∷ []

  abbrev pub show_node : Uuid → Task (World env) Rows
  show_node node_id = do
    ni ← get_node_info env.zenoh env.codecs self node_id
    ns ← get_node_status env.zenoh env.codecs self node_id
    cpu ← first_cpu ni.cpu
    pure (
        (node_heading ++ ("Addresses" ∷ []))
        ∷ (node_cells ni ns cpu ++ (faces_text ns.interfaces ∷ []))
        ∷ [])

  unfoldable pub get_node_table : Uuid → Task (Screen × World env) Unit
  get_node_table node_id = outside (show_node node_id) >>= printstd

  abbrev pub node_row : NodeInfo → Task (World env) (List String)
  node_row node = do
    ns ← get_node_status env.zenoh env.codecs self node.uuid
    cpu ← first_cpu node.cpu
    pure (node_cells node ns cpu)

  unfoldable pub get_nodes_table : Task (Screen × World env) Unit
  get_nodes_table =
      outside (get_all_nodes env.zenoh env.codecs self >>= rows_of node_row) >>= λ rows.
      printstd (node_heading ∷ rows)
