-- ===== src/Service.antt =====
-- node/src/service: the services around the engine.
pub mod MessageApi
pub mod Manager
pub mod ControlApi
pub mod Sample
pub mod TonNode
pub mod Wired
