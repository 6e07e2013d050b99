-- ===== src/Engine.antt =====
-- node/src/engine: block time, the queue of inbound messages, the chains and the engine over them.
pub mod Time
pub mod Messages
pub mod Shardchain
pub mod MasterLib
pub mod Masterchain
pub mod Node
