-- ===== src/Connector/Local.antt =====
-- `Local` of fog05-sdk/src/zconnector/local.rs, by the kind of data that its methods access.
pub mod Defs
pub mod Nodes
pub mod Laws
pub mod Frames
pub mod Networks
pub mod Fdus
