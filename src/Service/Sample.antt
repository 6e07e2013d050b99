-- ===== src/Service/Sample.antt =====
-- A configuration for the tests of the services.
use evernode_se.Common.{String, none, []}
use evernode_se.Common.Int.{pos}
use evernode_se.Config.{NodeConfig, default_global_id, default_log_path, default_api}

-- A configuration for the first shard, with this database and no fork.
abbrev pub sample_node : String → NodeConfig String
sample_node document_db = record {
  node_index = 0;
  port = 4000;
  private_key = "";
  keys = [];
  boot = [];
  global_id = default_global_id;
  shard_id = record { workchain = pos 0; shardchain_pfx = 0; shardchain_pfx_len = 0 };
  document_db = document_db;
  log_path = default_log_path;
  api = default_api;
  fork = none;
}
