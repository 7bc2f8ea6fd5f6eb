-- ===== src/Sdk.antt =====
-- The crate fog05-sdk: its error type (Sdk/Fresult), the outcome of a call and the sequencing of
-- fallible calls (Sdk/Outcome), its network and plugin types (Sdk/Types), and the information
-- model (Sdk/Im).
pub mod Fresult
pub mod Outcome
pub mod Types
pub mod Im
