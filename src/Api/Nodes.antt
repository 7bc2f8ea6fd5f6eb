-- ===== src/Api/Nodes.antt =====
-- `NodeApi` of fog05-sdk/src/api.rs: what is known of the nodes.
use fog.Prelude.{List}
use fog.Sdk.Outcome.{Task}
use fog.Sdk.Types.{Uuid}
use fog.Sdk.Im.Node.{NodeInfo, NodeStatus}
use fog.Connector.Global.Defs.{Global}
use fog.Connector.Global.Nodes.{get_all_nodes, get_node_info, get_node_status}
use fog.Agent.Env.{Env, World}

module _ (env : Env) (self : Global) where
  unfoldable pub list : Task (World env) (List NodeInfo)
  list = get_all_nodes env.zenoh env.codecs self

  unfoldable pub info : Uuid → Task (World env) NodeInfo
  info node_uuid = get_node_info env.zenoh env.codecs self node_uuid

  unfoldable pub status : Uuid → Task (World env) NodeStatus
  status node_uuid = get_node_status env.zenoh env.codecs self node_uuid
