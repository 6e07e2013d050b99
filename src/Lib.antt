-- ===== src/Lib.antt =====
-- Evernode SE: one process that makes blocks for a simulated Everscale network. Messages come in
-- over an API into a bounded queue per node; one engine thread takes them out, builds blocks of one
-- shard, executes the messages' transactions, and puts each block into the finality, which keeps the
-- last block in memory and in a key-value storage and reports the finalized block to a database.
--
-- The files, with the sources from the repository's root:
-- - Common: native numbers, lists, bytes and their readers and writers, association maps, integers;
--   Common.Result for node/src/error.rs, where a failed unwrap, expect or assert is `panic`;
--   Common.Exec for `&mut self` methods with `?`: a step that gives a result and the state that it
--   leaves, also where it fails; Common.Post for what holds where such a step succeeds.
-- - Data.Kv: the trait KVStorage of node/src/data/mod.rs; Data.Kv.Mem for mem_storage.rs, Data.Kv.Fs
--   for FSKVStorage of fs_storage.rs over a file system parameter; Data.FsStorage for the folders of
--   shards and their reset in fs_storage.rs; Data.ShardStorage for the keys and saves of
--   shard_storage.rs.
-- - Data.Documents: the trait DocumentsDb of node/src/data/mod.rs; Mem for mem_documents_db.rs and
--   documents_db_mock.rs; Arango for arango.rs, with the worker's thread as a function of the records
--   in its channel and of the server's answers; Reflect for node/src/block/json.rs.
-- - Engine.Time: node/src/engine/time.rs. Engine.Messages: node/src/engine/messages.rs, and in
--   Wakeup the threads that share the queue, as a step relation, with the loop `run` of
--   node/src/engine/engine.rs.
-- - Engine.Shardchain: node/src/engine/shardchain.rs, which builds a block on the last finalized one and
--   puts it into the finality.
-- - Engine.Masterchain: node/src/engine/masterchain.rs, with the register of the shards' last blocks;
--   Engine.MasterLib is what it takes from ever_block.
--   Engine.Node: node/src/engine/engine.rs, where an execution is a run over both chains, the queue and
--   the block time; what the threads of the API do with the last two comes between the builds of
--   blocks, as an argument, and so do the readings of the clock.
-- - Data.Fork: node/src/data/fork_provider.rs, with the endpoint as a state that requests change; the
--   manager's fork asks it for the blockchain configuration, and the builder for accounts.
-- - Config: node/src/config.rs. Main: node/src/main.rs, from the command line to the running service of
--   Service.TonNode (node/src/service/mod.rs).
-- - Service.ControlApi, Service.MessageApi and Service.Manager: control_api.rs, message_api.rs and
--   engine_manager.rs of node/src/service. The engine's thread is whether the manager holds its handle: a
--   thread that panics, and a join that does not return, are not in the manager's model. A request is a function of the manager's state or of the
--   queue; the attempts of a request that waits for room alternate with what other threads do.
--   Service.Wired puts the models of the storages, the database, the provider of a fork and the engine
--   in the place of what the manager calls.
-- - Block.Ever and Block.Executor: what is used of the libraries ever_block and ever_executor, as
--   records of operations that every model takes as a parameter. IsEverBlock lists the round trips that
--   theorems rely on, and IsHeaderLib of Block.Builder.Header what a block's header keeps.
--   Block.Sample is a small instance for the examples.
-- - Block.ShardBlock: node/src/block/finality_block.rs. Block.Finality: node/src/block/finality.rs,
--   with the storage and the database as interfaces.
-- - Block.Builder: node/src/block/builder.rs. Execute holds `execute` and `add_raw_transaction`, and
--   Build holds `build_block` and `finalize_block`. The builder takes messages from Engine.Messages,
--   and a finalized block goes to Block.Finality.
--
-- Numbers are native; a u32 or u64 addition wraps (`% 2 ^ 32`, `% 2 ^ 64`). Maps are association
-- lists; the order of a HashMap is not modelled. Log lines are left out. A seed that the source draws
-- at random is an argument. Loops that the source does not bound have fuel: the entries of the finality
-- index have the length of the bytes, of which each entry takes at least one; the loop over external
-- messages has the length of the queue at the loop's start, of which each round takes one message. This is
-- enough for the queue of the model, into which nothing is put during a build; in the source the API's
-- threads can put messages there, and the loop goes on with them. The rounds of new messages and the
-- rounds of an execution have a fuel argument, since a contract can send messages for ever.
--
-- Not modelled: the HTTP server behind the routes, the parser of the command line, the reader that serde
-- derives for the configuration, the library that converts blocks to JSON, what other threads do within
-- the build of one block, log lines, and the contracts; integration-tests/src/lib.rs is test code.
pub mod Common
pub mod Config
pub mod Data
pub mod Block
pub mod Engine
pub mod Service
pub mod Main
