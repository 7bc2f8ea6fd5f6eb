-- ===== src/Sdk/Im.antt =====
-- The information model, fog05-sdk/src/im: what the store holds about FDUs, nodes and entities.
pub mod Fdu
pub mod Node
pub mod Entity
