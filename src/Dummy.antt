-- ===== src/Dummy.antt =====
-- The example plugins of fog05-sdk/examples: a hypervisor and a networking plugin that keep their
-- records in the store and run nothing.
pub mod Env
pub mod Hypervisor
pub mod Network
pub mod Serving
