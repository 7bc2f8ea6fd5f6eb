-- ===== src/Interfaces.antt =====
-- The remote interfaces of agents and plugins, the traits of fog05-sdk/src/agent.rs and
-- fog05-sdk/src/plugins.rs: what they are, and how the client of one reaches its server.
pub mod Networking
pub mod Hypervisor
pub mod Orchestrator
pub mod AgentPlugin
pub mod Os
pub mod Clients
