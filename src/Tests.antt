-- ===== src/Tests.antt =====
-- Runs of the models on concrete inputs.
pub mod Gates
pub mod Logs
pub mod Fallbacks
pub mod Dispatch
pub mod Crontabs
pub mod Firewalls
pub mod KeyFiles
pub mod Hosts
