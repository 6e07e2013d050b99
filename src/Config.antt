-- ===== src/Config.antt =====
-- node/src/config.rs: the configuration of the node. The reader that serde derives for it, the print
-- of a JSON value and the identifiers of shards are parameters.
use evernode_se.Common.{ℕ, String, Option, List}
use evernode_se.Common.Int.{ℤ, pos}
use evernode_se.Common.Result.{NodeResult, or_panic, LibResult}

pub record ShardIdConfig : Type 0 where
  pub workchain : ℤ
  pub shardchain_pfx : ℕ
  pub shardchain_pfx_len : ℕ

pub record NodeApiConfig : Type 0 where
  pub messages : String
  pub live_control : String
  pub address : String
  pub port : ℕ

pub record ForkConfig : Type 0 where
  pub endpoint : String
  pub auth : Option String

pub record NodeConfig (Value : Type 0) : Type 0 where
  pub node_index : ℕ
  pub port : ℕ
  pub private_key : String
  pub keys : List String
  pub boot : List String
  pub global_id : ℤ
  pub shard_id : ShardIdConfig
  pub document_db : Value
  pub log_path : String
  pub api : NodeApiConfig
  pub fork : Option ForkConfig

unfoldable pub default_messages : String
default_messages = "topics/messages"

unfoldable pub default_live_control : String
default_live_control = "se"

unfoldable pub default_address : String
default_address = "127.0.0.1"

unfoldable pub default_port : ℕ
default_port = 3000

unfoldable pub default_api : NodeApiConfig
unfolding default_messages default_live_control default_address default_port
default_api = record {
  messages = default_messages;
  live_control = default_live_control;
  address = default_address;
  port = default_port;
}

unfoldable pub default_global_id : ℤ
default_global_id = pos 0

unfoldable pub default_log_path : String
default_log_path = "./log_cfg.yml"

pub record ConfigLib (Value ShardIdent : Type 0) : Type 0 where
  -- `serde_json::from_str` at `NodeConfig`
  pub read_config : String → LibResult (NodeConfig Value)
  -- `serde_json::to_string`
  pub to_string : Value → Option String
  -- `ShardIdent::with_prefix_len`
  pub with_prefix_len : ℕ → ℤ → ℕ → Option ShardIdent

module _ {Value ShardIdent : Type 0} (lib : ConfigLib Value ShardIdent) where
  unfoldable pub shard_ident : ShardIdConfig → NodeResult ShardIdent
  shard_ident c = or_panic (lib.with_prefix_len c.shardchain_pfx_len c.workchain c.shardchain_pfx)

  abbrev pub parse : String → LibResult (NodeConfig Value)
  parse json = lib.read_config json

  unfoldable pub document_db_config : NodeConfig Value → NodeResult String
  document_db_config config = or_panic (lib.to_string config.document_db)
