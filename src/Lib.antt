-- ===== src/Lib.antt =====
-- A verification library for fog05: the agent of a node, the connector through which it shares
-- state with the other agents, and the information model that they exchange.
--
-- The program. An agent (fog05-agent/src/agent.rs) runs on each node of a system. The agents share
-- one key-value store, zenoh, in which they keep descriptors of the units to run (FDUs) and of the
-- sets of units that are deployed together (entities), records of their instances, and what is
-- known of the nodes. They reach it through the connector (fog05-sdk/src/zconnector), whose methods
-- parse a path, open a workspace, and get, put or delete. An agent hands the work on an instance to
-- a hypervisor plugin, over a remote call, and then polls the store until the plugin has written
-- the state it is waiting for; for an instance of another node it calls that node's agent.
--
-- The files.
--   Sdk/Fresult, Sdk/Types, Sdk/Im: fog05-sdk/src/fresult.rs, types.rs and im, field by field.
--   Sdk/Outcome: how a call ends (`Ok`, `Err`, a panic, or still in a loop), and `?`, `??` and
--     `unwrap` as steps of a do block. Sdk/Outcome/Laws: what a block that returns has done.
--   Zenoh: the store's calls as a record of parameters; Zenoh/Reliable: what is relied on while
--     nothing fails; Zenoh/Memory: a store in memory that has it.
--   Connector/Keys, Connector/LocalKeys: the path macros of zconnector/mod.rs and local.rs.
--   Connector/Query: the steps that all methods of the connector repeat. Connector/Global and
--     Connector/Local: the methods of `Global` and of `Local`, one definition each.
--   Connector/Handle: `ZConnector` of mod.rs, and the UUID of the node that it reads.
--   Connector/Subscribe: `subscribe_instances` of local.rs and `FDURecordStream` of mod.rs.
--   Agent/Env: what the agent calls and does not implement. Agent/State: its state.
--   Agent/Instances: define_fdu, configure_fdu, start_fdu, stop_fdu, clean_fdu, undefine_fdu and
--     fdu_status. Agent/Plugins: register_plugin and unregister_plugin. Agent/Catalog: onboarding
--     and offloading. Agent/Compatibility: check_fdu_compatibility. Agent/Scheduling:
--     get_compatible_nodes and schedule_fdu. Agent/Entities: the entity tasks and the calls that
--     spawn them.
--   Agent/Host: what the agent reads of its host. Agent/Monitoring: the loops of `run`, and
--     advertise and stop. Agent/Bootstrap: `main` of fog05-agent/src/main.rs. Agent/Os:
--     `impl OS for Agent`, files, commands and processes.
--   Api: `FDUApi` and `NodeApi` of fog05-sdk/src/api.rs. Rest: the handlers of fog05-rest/src/main.rs.
--   Dummy/Env: what the example plugins of fog05-sdk/examples call. Dummy/Hypervisor: the
--     operations of dummy-hypervisor.rs, whose network is made in Dummy/Hypervisor/Configure.
--     Dummy/Network: the operations of dummy-network.rs, in Networks (virtual networks and
--     connection points), Interfaces, Namespaces, and Bindings (what interfaces are connected to).
--     Dummy/Serving: `run` of both plugins, and `start` up to the task that it spawns.
--   Ctl: the command line tool, fog05-fosctl. Ctl/Types and Ctl/Args: its messages and arguments.
--     Ctl/Terminal: its machine, and what it prints. Ctl/Force: `force_cli`, in Jobs (what changes
--     something) and Tables (what shows something). Ctl/Fim: `fim_cli`, in Nodes and Tables.
--   Interfaces: the traits of fog05-sdk/src/agent.rs and plugins.rs as records of methods.
--     Agent/Interfaces, Dummy/Hypervisor/Plugin and Dummy/Network/Plugin: their implementations.
--   Together: the agent and the dummy hypervisor of one node, each calling the other;
--     Together/Remote, Together/Nodes and Together/Undefined: an agent and the agent of another node.
--   Tests: a small system in memory, at which the theorems are applied.
--
-- Conventions. A call is a function from a world to an outcome and a world; the world holds the
-- store and all that runs beside the agent, so each call of zenoh, of a plugin or of another agent
-- may change it in any way. Theorems that name no `Reliable` store hold for every such world. A
-- UUID is its 128-bit value; a path is the list of the chunks between its slashes; a 64-bit float
-- is its bit pattern; the client of a server is the server's UUID. Log lines are left out.
--
-- Fuel. The polling loop of the handlers has no bound of its own. The model gives it fuel, one unit
-- for a turn, and a loop out of fuel is an outcome apart (`hang`). Fuel above the number of turns
-- that the loop takes is enough. The two loops of the monitoring go over what they receive and read
-- until the agent stops. The command line tool's loop that waits for a job has fuel in the same way.
-- All other loops of the code go over lists.
--
-- Not modelled: the start of the servers of the agent, which is calls of zrpc and of the
-- runtime; the servers and the clients that its macros generate, which are parameters; the
-- routes of the REST server and what it refuses while it parses a request; the parsing of the
-- command line; the serializers, which call one serde format each.
pub mod Prelude
pub mod Sdk
pub mod Zenoh
pub mod Connector
pub mod Agent
pub mod Api
pub mod Rest
pub mod Ctl
pub mod Interfaces
pub mod Dummy
pub mod Together
pub mod Tests
