-- ===== src/Agent.antt =====
-- The agent of a node, fog05-agent/src/agent.rs.
pub mod Env
pub mod Host
pub mod Os
pub mod Monitoring
pub mod State
pub mod Instances
pub mod Plugins
pub mod Catalog
pub mod Compatibility
pub mod Scheduling
pub mod Entities
pub mod Interfaces
pub mod Bootstrap
