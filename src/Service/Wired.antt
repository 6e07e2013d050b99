-- ===== src/Service/Wired.antt =====
-- node/src/service/engine_manager.rs over the models of what it calls: the storages of the chains, the
-- database, the provider of a fork and the engine. A chain's storage is found under its shard.
pub mod Reset
mod Examples
use evernode_se.Common.{ℕ, String, Bool, true, false, Option, none, some, if◌then◌else◌}
use evernode_se.Common.Int.{ℤ}
use evernode_se.Common.Assoc.{Key, eqb}
use evernode_se.Common.Result.{NodeResult, ok, err, panic}
use evernode_se.Common.Exec.{Exec, pure, ◌>>=◌, ◌>>◌}
use evernode_se.Config.{ForkConfig, ConfigLib}
use evernode_se.Data.Kv.{StorageKey, codes}
use evernode_se.Data.FsStorage.{Directories, clear_db, with_path, new as new_storage}
use evernode_se.Data.Fork.{ForkLib, get_account, get_blockchain_config, new as new_provider}
use evernode_se.Data.Documents.Arango.{ArangoHelper, ArangoHelperConfig, Reply, from_config}
use evernode_se.Data.Documents.Arango.Clear.{clear_db as clear_collections}
use evernode_se.Engine.Messages.{stop}
use evernode_se.Engine.MasterLib.{McLib}
use evernode_se.Engine.Node.{TonNodeEngine, World, with_params}
use evernode_se.Block.Ever.{EverBlock}
use evernode_se.Block.Executor.{ExecLib}
use evernode_se.Block.Finality.{Services}
use evernode_se.Service.Manager.{Outside}

-- What lies outside of the process: the storage of each shard, the folders, and the network.
pub record NodeWorld (ShardIdent S F N : Type 0) : Type 0 where
  pub chains : ShardIdent → S
  pub folders : F
  pub net : N

-- The libraries, and how the types of one are those of another.
pub record Wiring (e : EverBlock) (x : ExecLib e) (S F N V Value : Type 0) : Type 1 where
  pub lib : McLib e x
  pub services : Services e S (ArangoHelper V)
  pub directories : Directories F
  -- whether a shard is of the masterchain, its workchain, and its prefix with the tag
  pub shard_parts : e.ShardIdent → Bool × ℤ × ℕ
  pub fork_lib : ForkLib N x.Config
  pub address_of : x.AccountId → fork_lib.Address
  pub account_of : fork_lib.ShardAccount → x.ShardAccount
  pub configs : ConfigLib Value e.ShardIdent
  -- the reader of the database's configuration
  pub arango_config : String → NodeResult ArangoHelperConfig
  -- what the database answers to a request, and how an answer is told in the error's text
  pub answer : N → String → Reply
  pub told : String → Reply → String
  -- the gas limits of the masterchain and of a workchain
  pub gas_limits : x.Config → ℕ × ℕ
  pub world : World x.Message
  pub fuel : ℕ
  -- the engine's thread up to its end
  pub ran : TonNodeEngine e x S (ArangoHelper V) → TonNodeEngine e x S (ArangoHelper V)

module _ {e : EverBlock} {x : ExecLib e} {S F N V Value : Type 0}
    (u : Wiring e x S F N V Value) where
  abbrev Worlds : Type 0
  Worlds = NodeWorld e.ShardIdent S F N

  abbrev pub put_chain : e.ShardIdent → S → Worlds → Worlds
  put_chain shard s w = record w {
    chains = λ other. if u.lib.ident_key.eqb shard other then s else w.chains other;
  }

  abbrev in_folders : {A : Type 0} → Exec F A → Exec Worlds A
  in_folders act w = let (r, f) = act w.folders in (r, record w { folders = f })

  -- `FSStorage::shard_storage`: the folders of a shard.
  abbrev pub open_chain : e.ShardIdent → Exec Worlds StorageKey
  open_chain shard = in_folders (
      with_path u.directories (u.shard_parts shard).0 (u.shard_parts shard).1
        (u.shard_parts shard).2 (codes "./workchains"))

  abbrev pub clear_opened : e.ShardIdent → Exec Worlds (Unit {0})
  clear_opened shard w =
      let (r, s) = clear_db u.services.kv (w.chains shard) in (r, put_chain shard s w)

  abbrev pub clear_chain : e.ShardIdent → Exec Worlds (Unit {0})
  clear_chain shard = do open_chain shard; clear_opened shard

  abbrev found_account :
      NodeResult (Option u.fork_lib.ShardAccount) → NodeResult (Option x.ShardAccount)
  found_account (ok none) = ok none
  found_account (ok (some a)) = ok (some (u.account_of a))
  found_account (err error) = err error
  found_account panic = panic

  -- The accounts of a fork, as the endpoint gives them at the start.
  abbrev pub provider_of :
      N → Option ForkConfig → Option (x.AccountId → NodeResult (Option x.ShardAccount))
  provider_of net none = none
  provider_of net (some fork) =
      some λ id. found_account (get_account u.fork_lib (new_provider fork) (u.address_of id) net).0

  abbrev storages_of : TonNodeEngine e x S (ArangoHelper V) → Worlds → Worlds
  storages_of engine w =
      let mc = engine.masterchain.shardchain.block_finality in
      let wc = engine.workchain.block_finality in
      put_chain wc.shard_ident wc.storage (put_chain u.lib.masterchain mc.storage w)

  abbrev pub on_storages :
      NodeResult (TonNodeEngine e x S (ArangoHelper V))
      → Worlds
      → NodeResult (TonNodeEngine e x S (ArangoHelper V)) × Worlds
  on_storages (ok engine) w = (ok engine, storages_of engine w)
  on_storages (err error) w = (err error, w)
  on_storages panic w = (panic, w)

  -- The folders of both chains are made before the first of them is loaded.
  unfoldable pub wired :
      Outside Worlds
        (TonNodeEngine e x S (ArangoHelper V))
        x.Config
        Value
        e.ShardIdent
        (ArangoHelper V)
  unfolding clear_db new_storage with_path get_account get_blockchain_config new_provider
      from_config clear_collections stop with_params
  wired = record {
    configs = u.configs;
    masterchain = u.lib.masterchain;
    open_storage = in_folders (new_storage u.directories (codes ".")) >> pure tt;
    clear_storage = clear_chain;
    connect = λ config w. (from_config (u.arango_config config), w);
    clear_documents = λ helper w. ((clear_collections helper.config (u.answer w.net) u.told).0, w);
    fork_blockchain_config = λ fork w.
        let (r, n) = get_blockchain_config u.fork_lib (new_provider fork) w.net in
        (r, record w { net = n });
    new_engine = λ global_id shard config documents fork.
        open_chain u.lib.masterchain
        >> (open_chain shard >> λ w.
            on_storages
              (with_params e x u.lib u.services u.world u.fuel global_id shard config
                (u.gas_limits config) (some documents) (w.chains u.lib.masterchain, w.chains shard)
                (provider_of w.net fork))
              w);
    stop_queue = λ engine. record engine { message_queue = stop engine.message_queue };
    join = λ engine w. storages_of (u.ran engine) w;
  }
