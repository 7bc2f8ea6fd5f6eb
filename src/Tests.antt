-- ===== src/Tests.antt =====
-- The theorems at concrete inputs: a store in memory, and an agent with one FDU, one instance and
-- one entity (Tests/Fixture).
mod Fixture
mod Stores
mod Agents
mod Apis
mod Plugins
mod Dummies
mod Monitors
mod Systems
mod Commands
mod Networks
mod Boots
