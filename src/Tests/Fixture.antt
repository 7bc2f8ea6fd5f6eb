-- ===== src/Tests/Fixture.antt =====
-- A small system in memory. Its node is 1, the service of its agent 100, its FDU 7, the instance
-- of that FDU 9, and its entity 5. The plugin writes the state that it is asked for into the store.
use mathlib.Core.List.{Memᴰ}
use fog.Prelude.{inl, inr, ℕ, zero, suc, String, true, Option, none, some, List, [], ◌∷◌, refl, leb}
use fog.Sdk.Outcome.{Result, ok, err, Call}
use fog.Sdk.Fresult.{FError}
use fog.Sdk.Types.{PluginInfo, PluginKind, Uuid}
use fog.Sdk.Im.Fdu.{FduDescriptor, FduRecord, FduState, defined, configured, running, MigrationKind}
use fog.Sdk.Im.Node.{NodeInfo, NodeStatus, NodeStatusEnum}
use fog.Sdk.Im.Entity.{EntityDescriptor, EntityRecord, EntityStatus}
use fog.Zenoh.{Key, Entry, raw, id, Codec, RoundTrips}
use fog.Zenoh.Select.{without}
use fog.Zenoh.Memory.{memory}
use fog.Connector.Codecs.{Codecs}
use fog.Connector.Keys.{
  global_prefix, fdu_descriptor_path, fdu_instance_path, node_info_path, node_status_path,
}
use fog.Connector.Global.Defs.{Global}
use fog.Agent.Plugins.{plugin_info}
use fog.Agent.Scheduling.Laws.{Chooses}
use fog.Agent.Env.{Env}
use fog.Agent.State.{Agent}

abbrev pub fdu : FduDescriptor
fdu = record {
  uuid = some 7;
  id = "fdu";
  name = "fdu";
  version = "1";
  fdu_version = "1";
  description = none;
  hypervisor = "dummy";
  image = none;
  hypervisor_specific = none;
  computation_requirements = record {
    cpu_arch = "x86_64";
    cpu_min_freq = 1;
    cpu_min_count = 1;
    gpu_min_count = 0;
    fpga_min_count = 0;
    operating_system = none;
    ram_size_mb = 1;
    storage_size_mb = 1;
  };
  geographical_requirements = none;
  interfaces = [];
  storage = [];
  connection_points = [];
  configuration = none;
  migration_kind = MigrationKind.live;
  replicas = none;
  depends_on = [];
}

abbrev pub instance_in : FduState → FduRecord
instance_in state = record {
  uuid = 9;
  fdu_uuid = 7;
  node = 1;
  interfaces = [];
  connection_points = [];
  status = state;
  error = none;
  hypervisor_specific = none;
  restarts = 0;
}

abbrev pub node_info : NodeInfo
node_info = record {
  uuid = 1;
  name = "node";
  os = "linux";
  cpu = record { model = "cpu"; frequency = 2; arch = "x86_64" } ∷ [];
  ram = record { size = 4 };
  disks = [];
  io = [];
  accelerators = [];
  interfaces = [];
  position = none;
  agent_service_uuid = 100;
}

abbrev pub node_status : NodeStatus
node_status = record {
  uuid = 1;
  status = NodeStatusEnum.ready;
  supported_hypervisors = "dummy" ∷ [];
  interfaces = [];
  ram = record { total = 4; free = 4 };
  disk = record { mount_point = "/"; total = 4; free = 4 } ∷ [];
  neighbors = [];
}

abbrev pub entity : EntityDescriptor
entity = record {
  uuid = some 5;
  id = "entity";
  version = "1";
  entity_version = "1";
  name = "entity";
  description = none;
  fdus = fdu ∷ [];
  virtual_links = [];
}

abbrev pub entity_record : EntityRecord
entity_record = record {
  uuid = 6;
  id = 5;
  status = EntityStatus.onboarding;
  fdus = [];
  virtual_links = [];
  fim_id = none;
  cloud_id = none;
}

-- Every value is written as an empty buffer, which reads back as `a`.
abbrev only : {A : Type 0} → A → Codec A
only a = record { serialize = λ x. ok []; deserialize = λ b. ok a }

abbrev unused : {A : Type 0} → Codec A
unused = record { serialize = λ x. err "unused"; deserialize = λ b. err "unused" }

-- A state in a buffer, and back.
abbrev pub state_code : FduState → ℕ
state_code defined = 0
state_code configured = 1
state_code running = 2
state_code (FduState.error e) = 3

abbrev state_of : List ℕ → Result String FduRecord
state_of (zero ∷ []) = ok (instance_in defined)
state_of (suc zero ∷ []) = ok (instance_in configured)
state_of (suc (suc zero) ∷ []) = ok (instance_in running)
state_of _ = err "state"

-- The identifier of a descriptor in a buffer, and back.
abbrev uuid_code : Option Uuid → List ℕ
uuid_code none = []
uuid_code (some u) = u ∷ []

abbrev fdu_of : List ℕ → Result String FduDescriptor
fdu_of [] = ok (record fdu { uuid = none })
fdu_of (u ∷ rest) = ok (record fdu { uuid = some u })

-- the plugin that the tests register
abbrev pub kvm : PluginInfo
kvm = plugin_info 60 (PluginKind.hypervisor "kvm")

abbrev pub codecs : Codecs
codecs = record {
  system_info = unused;
  system_config = unused;
  node_info = only node_info;
  node_status = only node_status;
  plugin = only kvm;
  network = unused;
  connection_point = unused;
  interface = unused;
  namespace = unused;
  fdu = record { serialize = λ d. ok (uuid_code d.uuid); deserialize = fdu_of };
  instance_record = record {
    serialize = λ i. ok (state_code i.status ∷ []);
    deserialize = state_of;
  };
  entity = only entity;
  entity_record = only entity_record;
}

abbrev pub fdu_round : (u : Uuid) → RoundTrips codecs.fdu (record fdu { uuid = some u })
fdu_round u = record { buffer = u ∷ []; written = refl; back = refl }

abbrev pub instance_round : RoundTrips codecs.instance_record (instance_in defined)
instance_round = record { buffer = 0 ∷ []; written = refl; back = refl }

abbrev pub kvm_round : RoundTrips codecs.plugin kvm
kvm_round = record { buffer = []; written = refl; back = refl }

abbrev pub global : Global
global = record { system_id = 0; tenant_id = 0 }

abbrev pub fdu_key : Key
fdu_key = fdu_descriptor_path global_prefix (id 0) (id 0) (id 7)

abbrev pub instance_key : Key
instance_key = fdu_instance_path global_prefix (id 0) (id 0) (id 7) (id 9)

abbrev pub info_key : Key
info_key = node_info_path global_prefix (id 0) (id 0) (id 1)

abbrev pub status_key : Key
status_key = node_status_path global_prefix (id 0) (id 0) (id 1)

-- The store with the instance in a state.
abbrev pub store_in : FduState → List Entry
store_in state =
    (instance_key, raw (state_code state ∷ []))
    ∷ (fdu_key, raw (7 ∷ []))
    ∷ (info_key, raw [])
    ∷ (status_key, raw [])
    ∷ []

-- A plugin call that brings the instance into a state.
abbrev reaching : FduState → Uuid → Uuid → Call (List Entry) (Result FError Uuid)
reaching state plugin u w =
    (ok (ok u), (instance_key, raw (state_code state ∷ [])) ∷ without instance_key w)

abbrev answering : {A : Type 0} → A → Call (List Entry) (Result FError A)
answering a w = (ok (ok a), w)

abbrev first_of : List Uuid → List Entry → Option Uuid × List Entry
first_of [] w = (none, w)
first_of (u ∷ us) w = (some u, w)

abbrev pub env : Env
env = record {
  zenoh = memory;
  codecs = codecs;
  orchestrator = record {
    check_fdu_compatibility = λ server u. answering true;
    onboard_fdu = λ server d. answering 7;
    offload_fdu = λ server u. answering 7;
    schedule_fdu = λ server u. answering (instance_in defined);
    define_fdu = λ server u. answering (instance_in defined);
    configure_fdu = λ server u. answering (instance_in configured);
    start_fdu = λ server u. answering (instance_in running);
    stop_fdu = λ server u. answering (instance_in configured);
    clean_fdu = λ server u. answering (instance_in defined);
    undefine_fdu = λ server u. answering (instance_in defined);
    onboard_entity = λ server d. answering 5;
    offload_entity = λ server u. answering 5;
    schedule_entity = λ server u. answering 6;
    deschedule_entity = λ server u. answering 6;
  };
  hypervisor = record {
    define_fdu = λ plugin d w.
        (ok (ok (instance_in defined)), (instance_key, raw (0 ∷ [])) ∷ without instance_key w);
    configure_fdu = reaching configured;
    start_fdu = reaching running;
    stop_fdu = reaching configured;
    clean_fdu = reaching defined;
    undefine_fdu = λ plugin u. answering u;
    get_fdu_status = λ plugin u. answering (instance_in defined);
  };
  networking = record {
    verify_server = λ plugin w. (ok true, w);
    create_default_virtual_network = λ plugin dhcp w. (err "none", w);
  };
  floats = record { from_u32 = λ n. n; times_1024 = λ n. n; ge = λ a b. leb b a };
  sleep = λ w. w;
  new_v4 = λ w. (11, w);
  choose = first_of;
  path_exists = λ p w. (true, w);
  spawn = λ job w. w;
}

abbrev pub agent : Agent
agent = record {
  node_uuid = 1;
  global = global;
  local = record { node_uuid = 1 };
  inner = record {
    pid = 1;
    networking = none;
    hypervisors = ("dummy", 50) ∷ [];
    config = record {
      system = 0;
      pid_file = "";
      zlocator = "";
      path = "";
      mgmt_interface = "";
      monitoring_interveal = 10;
    };
    instance_uuid = some 100;
  };
}

pub chooses_first : Chooses env
chooses_first [] w = inl (refl, refl)
chooses_first (u ∷ us) w = inr (u, Memᴰ.head refl, refl)
