-- ===== src/Connector/Global.antt =====
-- `Global` of fog05-sdk/src/zconnector/mod.rs, by the kind of data that its methods access.
pub mod Defs
pub mod Nodes
pub mod Networks
pub mod Fdus
pub mod Entities
pub mod Laws
pub mod Frames
