-- ===== src/Dummy/Network.antt =====
-- `DummyNetwork` of fog05-sdk/examples/dummy-network.rs, by what its operations are on.
pub mod Defs
pub mod Networks
pub mod Interfaces
pub mod Namespaces
pub mod Bindings
pub mod Laws
pub mod Bridges
pub mod Pairs
pub mod Deletion
pub mod Life
pub mod Plugin
