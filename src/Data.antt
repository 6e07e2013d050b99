-- ===== src/Data.antt =====
-- node/src/data: key-value storages, the storage of a shard, and the documents database.
pub mod Kv
pub mod ShardStorage
pub mod Documents
pub mod FsStorage
pub mod Fork
