-- ===== src/Connector/Keys.antt =====
-- The paths and selectors of fog05-sdk/src/zconnector/mod.rs: the macros that its methods use. What
-- a macro is given is printed into one chunk each.
pub mod Laws
use fog.Prelude.{[], ◌∷◌, ◌++◌}
use fog.Zenoh.{Chunk, word, star, Key}

-- `GLOBAL_PREFIX`
abbrev pub global_prefix : Key
global_prefix = word "fos" ∷ word "global" ∷ []

unfoldable pub sys_info_path : Key → Chunk → Key
sys_info_path prefix sysid = prefix ++ (sysid ∷ word "info" ∷ [])

unfoldable pub sys_conf_path : Key → Chunk → Key
sys_conf_path prefix sysid = prefix ++ (sysid ∷ word "configuration" ∷ [])

unfoldable pub nodes_selector : Key → Chunk → Chunk → Key
nodes_selector prefix sysid tenantid =
    prefix ++ (sysid ∷ word "tenants" ∷ tenantid ∷ word "nodes" ∷ star ∷ word "info" ∷ [])

unfoldable pub node_info_path : Key → Chunk → Chunk → Chunk → Key
node_info_path prefix sysid tenantid nodeid =
    prefix ++ (sysid ∷ word "tenants" ∷ tenantid ∷ word "nodes" ∷ nodeid ∷ word "info" ∷ [])

unfoldable pub node_status_path : Key → Chunk → Chunk → Chunk → Key
node_status_path prefix sysid tenantid nodeid =
    prefix ++ (sysid ∷ word "tenants" ∷ tenantid ∷ word "nodes" ∷ nodeid ∷ word "status" ∷ [])

unfoldable pub node_plugin_path : Key → Chunk → Chunk → Chunk → Chunk → Key
node_plugin_path prefix sysid tenantid nodeid pluginid =
    prefix
    ++ (sysid
        ∷ word "tenants"
        ∷ tenantid
        ∷ word "nodes"
        ∷ nodeid
        ∷ word "plugins"
        ∷ pluginid
        ∷ word "info"
        ∷ [])

unfoldable pub fdu_descriptor_path : Key → Chunk → Chunk → Chunk → Key
fdu_descriptor_path prefix sysid tenantid fduid =
    prefix
    ++ (sysid ∷ word "tenants" ∷ tenantid ∷ word "catalog" ∷ word "fdu" ∷ fduid ∷ word "info" ∷ [])

unfoldable pub fdu_descriptor_selector : Key → Chunk → Chunk → Key
fdu_descriptor_selector prefix sysid tenantid =
    prefix
    ++ (sysid ∷ word "tenants" ∷ tenantid ∷ word "catalog" ∷ word "fdu" ∷ star ∷ word "info" ∷ [])

unfoldable pub fdu_instance_selector : Key → Chunk → Chunk → Chunk → Key
fdu_instance_selector prefix sysid tenantid instanceid =
    prefix
    ++ (sysid
        ∷ word "tenants"
        ∷ tenantid
        ∷ word "records"
        ∷ word "fdu"
        ∷ star
        ∷ word "instance"
        ∷ instanceid
        ∷ word "info"
        ∷ [])

unfoldable pub fdu_instance_path : Key → Chunk → Chunk → Chunk → Chunk → Key
fdu_instance_path prefix sysid tenantid fduid instanceid =
    prefix
    ++ (sysid
        ∷ word "tenants"
        ∷ tenantid
        ∷ word "records"
        ∷ word "fdu"
        ∷ fduid
        ∷ word "instance"
        ∷ instanceid
        ∷ word "info"
        ∷ [])

unfoldable pub fdu_instances_selector : Key → Chunk → Chunk → Chunk → Key
fdu_instances_selector prefix sysid tenantid fduid =
    prefix
    ++ (sysid
        ∷ word "tenants"
        ∷ tenantid
        ∷ word "records"
        ∷ word "fdu"
        ∷ fduid
        ∷ word "instance"
        ∷ star
        ∷ word "info"
        ∷ [])

unfoldable pub fdu_all_instances_selector : Key → Chunk → Chunk → Key
fdu_all_instances_selector prefix sysid tenantid =
    prefix
    ++ (sysid
        ∷ word "tenants"
        ∷ tenantid
        ∷ word "records"
        ∷ word "fdu"
        ∷ star
        ∷ word "instance"
        ∷ star
        ∷ word "info"
        ∷ [])

unfoldable pub entity_descriptor_path : Key → Chunk → Chunk → Chunk → Key
entity_descriptor_path prefix sysid tenantid entityid =
    prefix
    ++ (sysid
        ∷ word "tenants"
        ∷ tenantid
        ∷ word "catalog"
        ∷ word "entity"
        ∷ entityid
        ∷ word "info"
        ∷ [])

unfoldable pub entity_descriptor_selector : Key → Chunk → Chunk → Key
entity_descriptor_selector prefix sysid tenantid =
    prefix
    ++ (sysid
        ∷ word "tenants"
        ∷ tenantid
        ∷ word "catalog"
        ∷ word "entity"
        ∷ star
        ∷ word "info"
        ∷ [])

unfoldable pub entity_instance_selector : Key → Chunk → Chunk → Chunk → Key
entity_instance_selector prefix sysid tenantid instanceid =
    prefix
    ++ (sysid
        ∷ word "tenants"
        ∷ tenantid
        ∷ word "records"
        ∷ word "entity"
        ∷ star
        ∷ word "instance"
        ∷ instanceid
        ∷ word "info"
        ∷ [])

unfoldable pub entity_instance_path : Key → Chunk → Chunk → Chunk → Chunk → Key
entity_instance_path prefix sysid tenantid entityid instanceid =
    prefix
    ++ (sysid
        ∷ word "tenants"
        ∷ tenantid
        ∷ word "records"
        ∷ word "entity"
        ∷ entityid
        ∷ word "instance"
        ∷ instanceid
        ∷ word "info"
        ∷ [])

unfoldable pub entity_instances_selector : Key → Chunk → Chunk → Chunk → Key
entity_instances_selector prefix sysid tenantid entityid =
    prefix
    ++ (sysid
        ∷ word "tenants"
        ∷ tenantid
        ∷ word "records"
        ∷ word "entity"
        ∷ entityid
        ∷ word "instance"
        ∷ star
        ∷ word "info"
        ∷ [])

unfoldable pub entity_all_instances_selector : Key → Chunk → Chunk → Key
entity_all_instances_selector prefix sysid tenantid =
    prefix
    ++ (sysid
        ∷ word "tenants"
        ∷ tenantid
        ∷ word "records"
        ∷ word "entity"
        ∷ star
        ∷ word "instance"
        ∷ star
        ∷ word "info"
        ∷ [])

unfoldable pub vnet_path : Key → Chunk → Chunk → Chunk → Key
vnet_path prefix sysid tenantid vnetid =
    prefix ++ (sysid ∷ word "tenants" ∷ tenantid ∷ word "network" ∷ vnetid ∷ word "info" ∷ [])

unfoldable pub cp_path : Key → Chunk → Chunk → Chunk → Key
cp_path prefix sysid tenantid cpid =
    prefix
    ++ (sysid ∷ word "tenants" ∷ tenantid ∷ word "connection_point" ∷ cpid ∷ word "info" ∷ [])

unfoldable pub viface_path : Key → Chunk → Chunk → Chunk → Key
viface_path prefix sysid tenantid vifaceid =
    prefix ++ (sysid ∷ word "tenants" ∷ tenantid ∷ word "viface" ∷ vifaceid ∷ word "info" ∷ [])
