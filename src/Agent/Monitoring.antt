-- ===== src/Agent/Monitoring.antt =====
-- `run`, `stop` and `advertise` of `Agent`, fog05-agent/src/agent.rs: what the node tells about
-- itself, and how the records of its instances get from the node's part of the store into the
-- global one.
pub mod Laws
use fog.Prelude.{ℕ, String, str_eq, true, Option, none, some, List, [], ◌∷◌, find}
use fog.Sdk.Outcome.{
  Outcome, Result, ok, err, ret, fail, panic, hang, Task, pure, unwrap, ◌>>=◌, ◌>>◌,
}
use fog.Sdk.Im.Fdu.{FduRecord}
use fog.Sdk.Im.Node.{
  NodeInfo, NodeStatus, NodeStatusEnum, ready, not_ready, CpuSpec, DiskSpec, DiskStatus,
  NetworkInterface, NetworkInterfaceStatus, RamSpec, RamStatus,
}
use fog.Connector.Global.Fdus.{add_instance}
use fog.Connector.Global.Nodes as global
use fog.Connector.Local.Nodes as local
use fog.Agent.Host.{Host, Reading, Processor, Disk, Traffic}
use fog.Agent.Env.{Env, World}
use fog.Agent.State.{Agent, AgentInner, Plugins}

module _ {A : Type 0} where
  -- `let _ = result`
  abbrev ignored : Outcome A → Outcome Unit
  ignored (ret a) = ret tt
  ignored (fail e) = ret tt
  ignored panic = panic
  ignored hang = hang

  -- `result.unwrap()`
  abbrev unwrapped : Outcome A → Outcome A
  unwrapped (ret a) = ret a
  unwrapped (fail e) = panic
  unwrapped panic = panic
  unwrapped hang = hang

module _ {W A : Type 0} where
  abbrev pub ignore : Task W A → Task W Unit
  ignore m w = let (o, w') = m w in (ignored o, w')

  abbrev pub unwrap_result : Task W A → Task W A
  unwrap_result m w = let (o, w') = m w in (unwrapped o, w')

module _ (env : Env) (self : Agent) where
  -- The loop of the task `monitoring_fdus`, for what it receives: errors of the receiver and of
  -- `add_instance` are passed over.
  unfoldable pub monitoring_fdus : List (Result String FduRecord) → Task (World env) Unit
  monitoring_fdus [] = pure tt
  monitoring_fdus (ok instance_record ∷ rest) = do
    ignore (add_instance env.zenoh env.codecs self.global instance_record)
    monitoring_fdus rest
  monitoring_fdus (err e ∷ rest) = monitoring_fdus rest

module _ (host : Host) where
  unfoldable pub disk_statuses : {W : Type 0} → List Disk → Task W (List DiskStatus)
  disk_statuses [] = pure []
  disk_statuses (disk ∷ rest) = do
    mount_point ← unwrap disk.mount_point
    statuses ← disk_statuses rest
    pure (
        record {
          mount_point = mount_point;
          total = host.mib disk.total_space;
          free = host.mib disk.available_space;
        }
        ∷ statuses)

  unfoldable pub disk_specs : {W : Type 0} → List Disk → Task W (List DiskSpec)
  disk_specs [] = pure []
  disk_specs (disk ∷ rest) = do
    local_address ← unwrap disk.name
    mount_point ← unwrap disk.mount_point
    file_system ← unwrap disk.file_system
    specs ← disk_specs rest
    pure (
        record {
          local_address = local_address;
          dimension = host.mib disk.total_space;
          mount_point = mount_point;
          file_system = file_system;
        }
        ∷ specs)

  unfoldable pub cpu_specs : List Processor → List CpuSpec
  cpu_specs [] = []
  cpu_specs (processor ∷ rest) =
      record { model = processor.vendor_id; frequency = processor.frequency; arch = host.arch }
      ∷ cpu_specs rest

abbrev face_status : NetworkInterface → Traffic → NetworkInterfaceStatus
face_status iface sys_iface = record {
  name = iface.name;
  index = iface.index;
  mac = iface.mac;
  ips = iface.ips;
  flags = iface.flags;
  is_up = true;
  mtu = 1500;
  speed = 100;
  sent_pkts = sys_iface.total_packets_transmitted;
  recv_pkts = sys_iface.total_packets_received;
  sent_bytes = sys_iface.total_transmitted;
  recv_bytes = sys_iface.total_received;
}

-- An interface that the counters do not have is left out.
abbrev with_status :
    NetworkInterface → Option Traffic → List NetworkInterfaceStatus → List NetworkInterfaceStatus
with_status iface none rest = rest
with_status iface (some sys_iface) rest = face_status iface sys_iface ∷ rest

unfoldable pub face_statuses :
    List (String × Traffic) → List NetworkInterface → List NetworkInterfaceStatus
face_statuses networks [] = []
face_statuses networks (iface ∷ rest) =
    with_status iface (find str_eq iface.name networks) (face_statuses networks rest)

-- `guard.hypervisors.keys()`
unfoldable pub keys : Plugins → List String
keys [] = []
keys ((name, client) ∷ rest) = name ∷ keys rest

-- `match guard.networking`, by the names of the hypervisors
unfoldable pub readiness : {A : Type 0} → Option A → List String → NodeStatusEnum
readiness (some client) [] = not_ready
readiness (some client) (name ∷ rest) = ready
readiness none hvs = not_ready

unfoldable pub status_of : Host → Agent → Reading → List DiskStatus → NodeStatus
unfolding readiness keys face_statuses
status_of host self reading disks = record {
  uuid = self.node_uuid;
  status = readiness self.inner.networking (keys self.inner.hypervisors);
  supported_hypervisors = keys self.inner.hypervisors;
  interfaces = face_statuses reading.networks reading.interfaces;
  ram = record { total = host.kib reading.total_memory; free = host.kib reading.free_memory };
  disk = disks;
  neighbors = [];
}

module _ (env : Env) (host : Host) where
  -- One round of the loop `monitoring_hw`.
  unfoldable pub monitor_host : Agent → Reading → Task (World env) Unit
  unfolding disk_statuses status_of
  monitor_host self reading = do
    disks ← disk_statuses host reading.disks
    unwrap_result (
        global.add_node_status env.zenoh env.codecs self.global (status_of host self reading disks))
    unwrap_result
        (local.add_node_status env.zenoh env.codecs self.local (status_of host self reading disks))
    λ w. (ret tt, env.sleep w)

  -- The loop, for the state of the agent and the reading of each round that ends before the stop
  -- message.
  unfoldable pub monitoring_hw : List (Agent × Reading) → Task (World env) Unit
  unfolding monitor_host
  monitoring_hw [] = pure tt
  monitoring_hw ((self, reading) ∷ rest) = do monitor_host self reading; monitoring_hw rest

  abbrev pub info_of : Agent → Reading → String → List DiskSpec → ℕ → NodeInfo
  unfolding cpu_specs
  info_of self reading name disks instance_uuid = record {
    uuid = self.node_uuid;
    name = name;
    os = host.os;
    cpu = cpu_specs host reading.processors;
    ram = record { size = host.kib reading.total_memory };
    disks = disks;
    io = [];
    accelerators = [];
    interfaces = reading.interfaces;
    position = none;
    agent_service_uuid = instance_uuid;
  }

  unfoldable pub advertise : Agent → Reading → Task (World env) Unit
  unfolding disk_specs
  advertise self reading = do
    name ← unwrap host.hostname
    disks ← disk_specs host reading.disks
    instance_uuid ← unwrap self.inner.instance_uuid
    unwrap_result (
        global.add_node_info env.zenoh env.codecs self.global
          (info_of self reading name disks instance_uuid))
    unwrap_result (
        local.add_node_info env.zenoh env.codecs self.local
          (info_of self reading name disks instance_uuid))
    pure tt

-- `stop`, after the stop message is sent
unfoldable pub stop : (env : Env) → Agent → Task (World env) Unit
stop env self = do
  unwrap_result (global.remove_node_status env.zenoh env.codecs self.global self.node_uuid)
  unwrap_result (global.remove_node_info env.zenoh env.codecs self.global self.node_uuid)
