-- ===== src/Agent/Bootstrap.antt =====
-- fog05-agent/src/main.rs: what the agent does before it runs. A file, the table of the processes
-- and the sessions with zenoh are parameters; a signed number of 32 bits stands as its bit pattern.
pub mod Laws
pub mod Sound
use fog.Prelude.{ℕ, String, ◌<>◌, Bool, true, false, Option, none, some, [], if◌then◌else◌}
use fog.Sdk.Outcome.{
  Outcome, Result, ok, err, ret, panic, Call, Task, pure, panics, expect, expecting, ◌>>=◌, ◌>>◌,
}
use fog.Sdk.Types.{Uuid}
use fog.Connector.Handle.{ZConnector, get_node_uuid, unwrapped, new}
use fog.Agent.State.{Agent, AgentConfig}

-- `sysinfo::ProcessStatus`, of which the agent tells three apart from the rest
pub data ProcessStatus : Type 0 where
  run idle sleep other : ProcessStatus

pub record Machine (W : Type 0) : Type 0 where
  pub read_to_string : String → Call W String
  -- `fs::File::create`, which gives a handle of the file, and what is done with it
  pub create : String → Call W ℕ
  pub write_all : ℕ → String → Call W Unit
  pub sync_all : ℕ → Call W Unit
  pub exists : String → W → Bool × W
  pub remove_file : String → Call W Unit
  pub process : ℕ → W → Option ProcessStatus × W
  pub id : ℕ
  pub show : ℕ → String
  pub parse_i32 : String → Result String ℕ
  pub parse_yaml : String → Result String AgentConfig
  pub machine_uid : Call W String
  pub parse_uuid : String → Result String Uuid
  -- `Zenoh::new` and `zenoh::net::open`
  pub connect : String → Call W Unit
  pub open_net : String → Call W Unit

module _ {W A : Type 0} where
  -- A value that is asked for and always there.
  abbrev pub asking : (W → A × W) → Task W A
  asking q w = let (a, w') = q w in (ret a, w')

module _ {W : Type 0} (machine : Machine W) where
  abbrev pub read_file : String → Task W String
  read_file path = expecting (machine.read_to_string path)

  abbrev pub write_file : String → String → Task W Unit
  write_file path content = do
    file ← expecting (machine.create path)
    expecting (machine.write_all file content)
    expecting (machine.sync_all file)

  abbrev pub parsed_pid : Bool → String → Task W (Option ℕ)
  parsed_pid false path = pure none
  parsed_pid true path = do
    text ← read_file path
    pid ← expect (machine.parse_i32 text)
    pure (some pid)

  -- The PID that the file holds, where there is one.
  abbrev pub old_pid : String → Task W (Option ℕ)
  old_pid path = asking (machine.exists path) >>= λ there. parsed_pid there path

  -- `match s.process(pid)`
  abbrev pub alive : Option ProcessStatus → Bool
  alive none = false
  alive (some run) = true
  alive (some idle) = true
  alive (some sleep) = true
  alive (some other) = false

  abbrev pub remove_stale : Bool → String → Task W Unit
  remove_stale true path = panics
  remove_stale false path = expecting (machine.remove_file path)

  abbrev pub cleared : Option ℕ → String → Task W Unit
  cleared none path = pure tt
  cleared (some pid) path =
      asking (machine.process pid) >>= λ found. remove_stale (alive found) path

  -- What the file system is checked for, and told, before the agent is made.
  abbrev pub claim : String → Task W Unit
  claim path = do pid ← old_pid path; cleared pid path; write_file path (machine.show machine.id)

  abbrev pub own_node_uuid : Task W Uuid
  own_node_uuid w =
      let (o, w') = get_node_uuid machine.machine_uid machine.parse_uuid w in
      (unwrapped machine.machine_uid machine.parse_uuid o, w')

  abbrev pub new_agent : AgentConfig → Uuid → ZConnector → Agent
  new_agent config node_uuid connector = record {
    node_uuid = node_uuid;
    global = connector.global;
    local = connector.local;
    inner = record {
      pid = machine.id;
      networking = none;
      hypervisors = [];
      config = config;
      instance_uuid = none;
    };
  }

  abbrev pub made : AgentConfig → Task W Agent
  made config = do
    node_uuid ← own_node_uuid
    expecting (machine.connect ("mode=client;peer=" <> config.zlocator))
    expecting (machine.open_net ("mode=client;peer=" <> config.zlocator))
    connector ← new machine.machine_uid machine.parse_uuid (some config.system) none
    pure (new_agent config node_uuid connector)

  -- `main`, up to the start of the agent
  unfoldable pub bootstrap : String → Task W Agent
  unfolding new
  bootstrap config_path = do
    text ← read_file config_path
    config ← expect (machine.parse_yaml text)
    claim config.pid_file
    made config
