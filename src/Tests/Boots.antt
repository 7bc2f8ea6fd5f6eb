-- ===== src/Tests/Boots.antt =====
-- The bootstrap of the agent on a machine whose world is the content of the PID file. The process 4
-- is running, and the agent is the process 5.
use fog.Prelude.{
  String, str_eq, ◌≡◌, ◌==◌, refl, Bool, true, false, Option, none, some, if◌then◌else◌,
}
use fog.Sdk.Outcome.{ok}
use fog.Connector.Global.Defs as global
use fog.Connector.Handle.{new}
use fog.Agent.State.{AgentConfig}
use fog.Agent.Bootstrap.{Machine, sleep, bootstrap, new_agent}
use fog.Agent.Bootstrap.Laws.{Unclaimed, Written}
use fog.Agent.Bootstrap.Sound.{Fresh, bootstrap_sound}

abbrev conf : AgentConfig
conf = record {
  system = 3;
  pid_file = "pid";
  zlocator = "tcp";
  path = "/";
  mgmt_interface = "eth0";
  monitoring_interveal = 10;
}

abbrev content : Option String → String
content none = ""
content (some text) = text

abbrev there : Option String → Bool
there none = false
there (some text) = true

abbrev machine : Machine (Option String)
machine = record {
  read_to_string = λ path w. (ok (content w), w);
  create = λ path w. (ok 1, some "");
  write_all = λ file text w. (ok tt, some text);
  sync_all = λ file w. (ok tt, w);
  exists = λ path w. (there w, w);
  remove_file = λ path w. (ok tt, none);
  process = λ pid w. ((if pid == 4 then some sleep else none), w);
  id = 5;
  show = λ pid. "five";
  parse_i32 = λ text. if str_eq text "four" then ok 4 else ok 6;
  parse_yaml = λ text. ok conf;
  machine_uid = λ w. (ok "1", w);
  parse_uuid = λ text. ok 1;
  connect = λ locator w. (ok tt, w);
  open_net = λ locator w. (ok tt, w);
}

-- A PID file with the PID of a process that is gone.
bootstrap_sound_example :
    (text : String) × (config : AgentConfig) × (w₁ w₂ w₃ : Option String) × (machine.read_to_string
        "conf"
        (some "six")
      ≡ (ok text, w₁))
    × (machine.parse_yaml text ≡ ok config)
    × Unclaimed machine config.pid_file w₁ w₂
    × Written machine config.pid_file w₂ w₃
    × Fresh machine config (
        new_agent machine conf 1 (record {
          global = record { system_id = 3; tenant_id = 0 };
          local = record { node_uuid = 1 };
        }))
unfolding bootstrap new global.new
bootstrap_sound_example = bootstrap_sound machine "conf" (some "six") {w' = some "five"} refl
