-- ===== src/Block.antt =====
-- node/src/block: blocks with their shard states, their finality, and the building of blocks.
pub mod Ever
pub mod Sample
pub mod ShardBlock
pub mod Finality
pub mod Executor
pub mod Builder
