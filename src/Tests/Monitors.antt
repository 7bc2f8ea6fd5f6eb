-- ===== src/Tests/Monitors.antt =====
-- The agent's monitoring, and its files, in memory.
use mathlib.Core.List.{Memᴰ}
use fog.Prelude.{◌≡◌, refl, inl, String, true, ◌∷◌, [], List, Option, none, some}
use fog.Sdk.Outcome.{Result, ok, err, ret}
use fog.Sdk.Im.Fdu.{FduRecord, defined, running}
use fog.Sdk.Im.Node.{NodeStatus}
use fog.Zenoh.{Entry}
use fog.Zenoh.Memory.{memory_reliable}
use fog.Connector.Global.Nodes as global
use fog.Connector.Local.Nodes as local
use fog.Agent.Env.{Env}
use fog.Agent.State.{Agent}
use fog.Agent.Host.{Host, Reading}
use fog.Agent.Instances.{await_state}
use fog.Agent.Monitoring.{monitoring_fdus, monitor_host, disk_statuses, status_of}
use fog.Agent.Monitoring.Laws.{await_state-monitoring_fdus, get_node_status-monitor_host}
use fog.Agent.Os.Calls.{System, Bytes}
use fog.Agent.Os.Laws.{Files, Entry as FileEntry, absent, file, is_there}
use fog.Tests.Fixture.{env, agent, instance_in, instance_round, store_in}
use fog.Connector.Keys.{
  fdu_instance_path, fdu_instance_selector, fdu_descriptor_path, node_info_path, node_status_path,
}

abbrev received : List (Result String FduRecord)
received = err "closed" ∷ []

no_records : (j : FduRecord) → ¬ Memᴰ (ok j) received
no_records j (Memᴰ.tail t) = elim t [ ]
no_records j (Memᴰ.head e) = cc e

await_state-monitoring_fdus_example :
    (w' : List Entry) × (monitoring_fdus env agent
        (ok (instance_in defined) ∷ received)
        (store_in running)
      ≡ (ret tt, w'))
    × (await_state env agent defined 1 9 w' ≡ (ret (instance_in defined), w'))
unfolding fdu_instance_path fdu_instance_selector fdu_descriptor_path node_info_path
    node_status_path
await_state-monitoring_fdus_example =
    await_state-monitoring_fdus env agent memory_reliable defined 0 (instance_in defined) received
      (store_in running) (inl refl) refl instance_round refl (λ j at. absurd (no_records j at))
      (λ j at. absurd (no_records j at))

abbrev host : Host
host = record { hostname = some "node"; arch = "x86_64"; os = "linux"; kib = λ x. x; mib = λ x. x }

abbrev reading : Reading
reading = record {
  processors = [];
  total_memory = 4;
  free_memory = 2;
  disks =
      record {
        name = some "sda";
        mount_point = some "/";
        file_system = some "ext4";
        total_space = 8;
        available_space = 6;
      }
      ∷ [];
  networks =
      (
        "eth0",
        record {
          total_packets_transmitted = 1;
          total_packets_received = 2;
          total_transmitted = 3;
          total_received = 4;
        },
      )
      ∷ [];
  interfaces =
      record { name = "eth0"; index = 1; mac = none; ips = []; flags = 0 }
      ∷ record { name = "lo"; index = 2; mac = none; ips = []; flags = 0 }
      ∷ [];
}

abbrev networked : Agent
networked = record agent { inner = record agent.inner { networking = some 51 } }

-- Every status is written as an empty buffer, which reads back as the one of the reading.
abbrev told : NodeStatus
told = status_of host agent reading (record { mount_point = "/"; total = 8; free = 6 } ∷ [])

abbrev status_env : Env
status_env = record env {
  codecs = record env.codecs {
    node_status = record { serialize = λ x. ok []; deserialize = λ b. ok told };
  };
}

get_node_status-monitor_host_example :
    (w' : List Entry) × (monitor_host status_env host agent reading (store_in running)
      ≡ (ret tt, w'))
    × (global.get_node_status status_env.zenoh status_env.codecs agent.global 1 w' ≡ (ret told, w'))
    × (local.get_node_status status_env.zenoh status_env.codecs agent.local w' ≡ (ret told, w'))
unfolding disk_statuses
get_node_status-monitor_host_example =
    get_node_status-monitor_host status_env agent memory_reliable host reading (store_in running)
      refl (record { buffer = []; written = refl; back = refl })

-- A file system with one file, whose path does not matter.
abbrev entry_of : Option Bytes → FileEntry
entry_of none = absent
entry_of (some content) = file content

abbrev answered : Option Bytes → Option Bytes → Result String Bytes × Option Bytes
answered none w = (err "none", w)
answered (some content) w = (ok content, w)

abbrev one_file : System (Option Bytes)
one_file = record {
  File = Unit;
  Response = Unit;
  exists = λ path w. (is_there (entry_of w), w);
  file_type = λ path w. (ok (record { is_dir = true; is_file = true }), w);
  create_dir = λ path w. (err "no directories", w);
  remove_dir = λ path w. (err "no directories", w);
  create = λ path w. (ok tt, some []);
  open_file = λ path w. (ok tt, w);
  sync_all = λ f w. (ok tt, w);
  remove_file = λ path w. (ok tt, none);
  write = λ path content w. (ok tt, some content);
  read_to_end = λ f w. answered w w;
  copy = λ from to w. (ok 0, w);
  copy_into = λ content f w. (ok 0, some content);
  get = λ url w. (err "no network", w);
  bytes = λ resp w. (err "no network", w);
  output = λ cmd args w. (err "no commands", w);
  process = λ pid w. (true, w);
  pid_of_u32 = λ pid. ok pid;
  split_whitespace = λ cmd. [];
  from_utf8 = λ b. err "utf8";
}

file-inj : {a b : Bytes} → file a ≡ file b → a ≡ b
file-inj e = cc e

entry_of-eq_file :
    (w : Option Bytes) {content : Bytes} → entry_of w ≡ file content → w ≡ some content
entry_of-eq_file none h = cc h
entry_of-eq_file (some c) h = cc h

abbrev one_file_ok : Files one_file
one_file_ok = record {
  at = λ path w. entry_of w;
  exists_ok = λ path w. refl;
  create_ok = λ path w free. (tt, some [], refl, refl);
  sync_ok = λ f w. refl;
  write_ok = λ path content old w used. (some content, refl, refl);
  read_ok = λ path content w used. (tt, w, w, refl, rw (entry_of-eq_file w used));
}
