-- ===== src/Connector/LocalKeys.antt =====
-- The paths and selectors of fog05-sdk/src/zconnector/local.rs: the macros that its methods use.
use fog.Prelude.{[], ◌∷◌, ◌++◌}
use fog.Zenoh.{Chunk, word, star, Key}

-- `LOCAL_PREFIX`
abbrev pub local_prefix : Key
local_prefix = word "fos" ∷ word "local" ∷ []

unfoldable pub node_info_path : Key → Chunk → Key
node_info_path prefix nodeid = prefix ++ (nodeid ∷ word "info" ∷ [])

unfoldable pub node_status_path : Key → Chunk → Key
node_status_path prefix nodeid = prefix ++ (nodeid ∷ word "status" ∷ [])

unfoldable pub node_plugin_path : Key → Chunk → Chunk → Key
node_plugin_path prefix nodeid pluginid =
    prefix ++ (nodeid ∷ word "plugins" ∷ pluginid ∷ word "info" ∷ [])

unfoldable pub node_instance_path : Key → Chunk → Chunk → Chunk → Key
node_instance_path prefix nodeid fduid instanceid =
    prefix ++ (nodeid ∷ word "fdu" ∷ fduid ∷ word "instances" ∷ instanceid ∷ word "info" ∷ [])

unfoldable pub node_instance_selector : Key → Chunk → Chunk → Key
node_instance_selector prefix nodeid instanceid =
    prefix ++ (nodeid ∷ word "fdu" ∷ star ∷ word "instances" ∷ instanceid ∷ word "info" ∷ [])

unfoldable pub node_instance_selector2 : Key → Chunk → Chunk → Key
node_instance_selector2 prefix nodeid fduid =
    prefix ++ (nodeid ∷ word "fdu" ∷ fduid ∷ word "instances" ∷ star ∷ word "info" ∷ [])

unfoldable pub node_instance_selector3 : Key → Chunk → Key
node_instance_selector3 prefix nodeid =
    prefix ++ (nodeid ∷ word "fdu" ∷ star ∷ word "instances" ∷ star ∷ word "info" ∷ [])

unfoldable pub node_vnet_path : Key → Chunk → Chunk → Key
node_vnet_path prefix nodeid vnetid =
    prefix ++ (nodeid ∷ word "network" ∷ vnetid ∷ word "info" ∷ [])

unfoldable pub node_cp_path : Key → Chunk → Chunk → Key
node_cp_path prefix nodeid cpid =
    prefix ++ (nodeid ∷ word "connection_point" ∷ cpid ∷ word "info" ∷ [])

unfoldable pub node_viface_path : Key → Chunk → Chunk → Key
node_viface_path prefix nodeid vifaceid =
    prefix ++ (nodeid ∷ word "viface" ∷ vifaceid ∷ word "info" ∷ [])

unfoldable pub node_netns_path : Key → Chunk → Chunk → Key
node_netns_path prefix nodeid netnsid =
    prefix ++ (nodeid ∷ word "netns" ∷ netnsid ∷ word "info" ∷ [])
