-- ===== src/Service/Manager.antt =====
-- node/src/service/engine_manager.rs: the manager that replaces the engine while the node runs. The
-- engine, its thread and what lies outside of the process (the folders, the database and the endpoint
-- of a fork) are the parameter Outside. The field `thread` is whether the manager holds the handle of a
-- thread; that the thread panics is not modelled, and neither is a join that does not return.
pub mod Commands
mod Examples
use evernode_se.Common.{String, Bool, true, false, Option, none, some, if◌then◌else◌}
use evernode_se.Common.Int.{ℤ}
use evernode_se.Common.Result.{NodeResult, ok, err, panic}
use evernode_se.Common.Exec.{Exec, continue, lift, ◌>>=◌, ◌>>◌}
use evernode_se.Config.{NodeConfig, ForkConfig, ConfigLib, shard_ident, document_db_config}

pub record TonNodeServiceConfig (Config Value : Type 0) : Type 0 where
  pub node : NodeConfig Value
  pub blockchain : Config

pub record Outside (W Engine Config Value ShardIdent Documents : Type 0) : Type 0 where
  pub configs : ConfigLib Value ShardIdent
  pub masterchain : ShardIdent
  -- `FSStorage::new` in the current folder, and `FSStorage::clear_db`
  pub open_storage : Exec W (Unit {0})
  pub clear_storage : ShardIdent → Exec W (Unit {0})
  -- `ArangoHelper::from_config`, and `ArangoHelper::clear_db`
  pub connect : String → Exec W Documents
  pub clear_documents : Documents → Exec W (Unit {0})
  -- `ForkProvider::get_blockchain_config`
  pub fork_blockchain_config : ForkConfig → Exec W (Config × ℤ)
  -- `TonNodeEngine::with_params`, with the accounts of the fork, if there is one
  pub new_engine : ℤ → ShardIdent → Config → Documents → Option ForkConfig → Exec W Engine
  -- `message_queue.stop()`, and the engine's thread up to its end
  pub stop_queue : Engine → Engine
  pub join : Engine → W → W

-- `thread` is whether there is a thread's handle.
pub record TonNodeEngineManager (W Engine Config Value : Type 0) : Type 0 where
  pub original_config : TonNodeServiceConfig Config Value
  pub engine : Engine
  pub thread : Bool
  pub outside : W

module _ {W Engine Config Value ShardIdent Documents : Type 0}
    (lib : Outside W Engine Config Value ShardIdent Documents) where
  abbrev pub Manager : Type 0
  Manager = TonNodeEngineManager W Engine Config Value

  abbrev pub blockchain_of :
      Option ForkConfig → TonNodeServiceConfig Config Value → Exec W (Config × ℤ)
  blockchain_of none config w = (ok (config.blockchain, config.node.global_id), w)
  blockchain_of (some fork) config w = lib.fork_blockchain_config fork w

  unfoldable pub create_engine : TonNodeServiceConfig Config Value → Exec W Engine
  unfolding shard_ident document_db_config
  create_engine config = do
    lib.open_storage
    chain ← blockchain_of config.node.fork config
    shard ← lift (shard_ident lib.configs config.node.shard_id)
    database ← lift (document_db_config lib.configs config.node)
    documents ← lib.connect database
    lib.new_engine chain.1 shard chain.0 documents config.node.fork

  unfoldable pub new : TonNodeServiceConfig Config Value → Exec W Manager
  unfolding create_engine
  new config = create_engine config >>= λ engine w.
      (ok (record { original_config = config; engine = engine; thread = false; outside = w }), w)

  unfoldable pub start : Manager → Manager
  start m = record m { thread = true }

  unfoldable pub stop : Manager → Manager
  stop m =
      let engine = lib.stop_queue m.engine in
      record m {
        engine = engine;
        thread = false;
        outside = if m.thread then lib.join engine m.outside else m.outside;
      }

  abbrev pub on_outside : {A : Type 0} → Exec W A → Exec Manager A
  on_outside act m = let (r, w) = act m.outside in (r, record m { outside = w })

  unfoldable pub clear_outside : TonNodeServiceConfig Config Value → Exec W (Unit {0})
  unfolding shard_ident document_db_config
  clear_outside config = do
    database ← lift (document_db_config lib.configs config.node)
    documents ← lib.connect database
    lib.clear_documents documents
    lib.open_storage
    shard ← lift (shard_ident lib.configs config.node.shard_id)
    lib.clear_storage shard
    lib.clear_storage lib.masterchain

  unfoldable pub clear_db : Exec Manager (Unit {0})
  unfolding clear_outside
  clear_db m = on_outside (clear_outside m.original_config) m

  -- `*self.node.write() = (Self::create_engine(..)?, None)` and `self.start()`
  unfoldable pub replace_and_start : TonNodeServiceConfig Config Value → Exec Manager (Unit {0})
  unfolding create_engine start
  replace_and_start config = on_outside (create_engine config) >>= λ engine m.
      (ok tt, start (record m { engine = engine; thread = false }))

  unfoldable pub clear_if : Bool → Exec Manager (Unit {0})
  unfolding clear_db
  clear_if false m = (ok tt, m)
  clear_if true m = clear_db m

  unfoldable pub reset : Exec Manager (Unit {0})
  unfolding stop clear_db replace_and_start
  reset m = (clear_db >> replace_and_start m.original_config) (stop m)

  abbrev pub with_fork :
      TonNodeServiceConfig Config Value → String → Option String → TonNodeServiceConfig Config Value
  with_fork config endpoint auth = record config {
    node = record config.node { fork = some (record { endpoint = endpoint; auth = auth }) };
  }

  unfoldable pub fork : String → Option String → Bool → Exec Manager (Unit {0})
  unfolding stop clear_if replace_and_start
  fork endpoint auth clears m =
      (clear_if clears >> replace_and_start (with_fork m.original_config endpoint auth)) (stop m)

  unfoldable pub unfork : Bool → Exec Manager (Unit {0})
  unfolding stop clear_if replace_and_start
  unfork clears m = (clear_if clears >> replace_and_start m.original_config) (stop m)
