-- ===== src/Connector.antt =====
-- The connector, fog05-sdk/src/zconnector: typed access to what zenoh holds. Connector/Query has
-- the steps that its methods repeat, Connector/Keys and Connector/LocalKeys the paths,
-- Connector/Global and Connector/Local the methods of the two halves.
pub mod Codecs
pub mod Query
pub mod Keys
pub mod LocalKeys
pub mod Global
pub mod Local
pub mod Subscribe
pub mod Handle
