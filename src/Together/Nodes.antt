-- ===== src/Together/Nodes.antt =====
-- Two agents and the dummy hypervisor of the second: an instance that is started from another node.
use fog.Zenoh.Reliable.{Reliable}
use fog.Connector.Global.Laws as global_laws
use fog.Connector.Local.Fdus as local
use fog.Connector.Local.Laws as local_laws
use fog.Agent.Env.{Env}
use fog.Agent.State.{Agent}
use fog.Agent.Instances as handlers
use fog.Dummy.Hypervisor.{Fdus}
