-- ===== src/Service/Wired/Examples.antt =====
-- A small node whose storages hold an index, and its reset.
use evernode_se.Common.{ℕ, ◌≡◌, refl, String, none, some, false, true, [], ◌∷◌}
use evernode_se.Common.Int.{ℤ, pos}
use evernode_se.Common.Assoc
use evernode_se.Common.Bytes.{bytes_eqb}
use evernode_se.Common.Result.{ok, done}
use evernode_se.Engine.Time.{seq, is_seq, get_next, set_last}
use evernode_se.Engine.Messages.{dequeue}
use evernode_se.Engine.Shardchain.{
  Shardchain, build_with, new_collator, finality_and_apply_block, nex_seq_no, apply_built,
  build_block as chain_build, generate_block as generate_shard,
}
use evernode_se.Engine.Masterchain.{
  generate_block, put_master, master_block as carry, apply_master, set_shards,
  register_new_shard_block, descr_of, next_seq_no,
}
use evernode_se.Engine.Masterchain.Sample.{sample_mc}
use evernode_se.Engine.Node.{
  execute_queued_messages, shard_step, after_shard, shard_blocks, master_step, round, rounds,
  set_last_time, get_next_time, time_mode,
}
use evernode_se.Data.Kv.Mem.{MemKvStorage, mem_kv}
use evernode_se.Data.Kv.Mem
use evernode_se.Block.Sample.{sample}
use evernode_se.Block.ShardBlock
use evernode_se.Block.ShardBlock.{with_block_and_state, key_by_seqno}
use evernode_se.Block.Finality.{Services, with_params as new_finality, get_last_info}
use evernode_se.Block.Finality.Disk.{put_block_with_info}
use evernode_se.Block.Builder.{
  with_params as new_builder, try_prepare_transaction, prepared, at_and_lt, is_limits_reached,
}
use evernode_se.Block.Builder.Execute.{
  execute, find_or_provide, provided, record_transaction, stored_account, add_raw_transaction,
  describe_in_msg, in_msg_of, add_out_msgs, out_msg_of,
}
use evernode_se.Block.Builder.Build.{
  build_block, fill_block, process_new_messages, import_messages, import_external, external_step,
  execute_external, after_external, import_internal, sort_by_lt, process_rounds, process_round,
  process_new, deliver_new, enqueue_new, finalize_block,
}
use evernode_se.Block.Builder.SampleExec.{sample_exec}
use evernode_se.Engine.Node.{with_params as new_node}
use evernode_se.Engine.Masterchain.{with_params as new_masterchain}
use evernode_se.Engine.Shardchain.{with_params as new_shardchain}
use evernode_se.Engine.Time.{new as new_time}
use evernode_se.Engine.Messages.{new as new_queue, stop as stop_messages}
use evernode_se.Block.Finality.Disk.{load, load_fresh, load_zerostate}
use evernode_se.Config.{shard_ident, document_db_config}
use evernode_se.Data.Kv.Mem.{mem_kv-IsKv}
use evernode_se.Data.ShardStorage.{blocks_finality_info_key, block_key, block_finality_hash_key}
use evernode_se.Data.FsStorage.{clear_db, with_path, new as new_folders}
use evernode_se.Data.Fork.{ForkLib}
use evernode_se.Data.Documents.Arango.{is_error, ArangoHelper, status, from_config}
use evernode_se.Data.Documents.Arango.Clear.{clear_db as clear_collections}
use evernode_se.Data.Documents.Arango.Post.{is_success}
use evernode_se.Service.Sample.{sample_node}
use evernode_se.Service.Manager.{
  Manager, create_engine, clear_outside, reset, stop, start, replace_and_start,
  clear_db as clear_all,
}
use evernode_se.Service.Wired.{Wiring, NodeWorld, wired}
use evernode_se.Service.Wired.Reset.{Made, StartsFresh, reset-StartsFresh}

abbrev services : Services sample MemKvStorage (ArangoHelper ℕ)
services = record {
  kv = mem_kv;
  to_hex_string = λ h. h ∷ [];
  reflect_block_in_db = λ mc sb db. ([], db);
}

abbrev no_fork : ForkLib (Unit {0}) (Unit {0})
no_fork = record {
  Response = Unit {0};
  send = λ r w. (done tt, w);
  text_of = λ r w. (done "", w);
  Value = Unit {0};
  null = tt;
  text = λ s. tt;
  object = λ m. tt;
  to_string = λ v. "";
  from_str = λ s. done tt;
  get = λ v k. none;
  pointer = λ v p. none;
  as_str = λ v. none;
  Block = Unit {0};
  Extra = Unit {0};
  McExtra = Unit {0};
  Params = Unit {0};
  construct_from_base64 = λ s. done tt;
  read_extra = λ b. done tt;
  read_custom = λ x. done none;
  config = λ m. none;
  with_config = λ p. done tt;
  global_id = λ b. pos 0;
  Address = ℕ;
  address_text = λ a. "";
  base64_decode = λ s. done [];
  Cell = Unit {0};
  read_single_root_boc = λ bytes. done tt;
  ShardAccount = ℕ;
  with_account_root = λ cell hash lt. 1;
}

abbrev wiring : Wiring sample sample_exec MemKvStorage (Unit {0}) (Unit {0}) ℕ String
wiring = record {
  lib = sample_mc;
  services = services;
  directories = record { dir_exists = λ p f. true; create_dir_all = λ p f. (ok tt, f) };
  shard_parts = λ s. (false, s, 0);
  fork_lib = no_fork;
  address_of = λ a. a;
  account_of = λ a. a;
  configs = record {
    read_config = λ s. done (sample_node s);
    to_string = some;
    with_prefix_len = λ len w pfx. some w;
  };
  arango_config = λ s. ok (record {
    server = s;
    database = "d";
    blocks_collection = "b";
    messages_collection = "m";
    transactions_collection = "t";
    accounts_collection = "a";
  });
  answer = λ net url. status 200;
  told = λ url reply. "";
  gas_limits = λ c. (1000, 1000);
  world = record { now = λ n. 100; seed = λ n. 0; others = λ n s. s; build_fuel = 2 };
  fuel = 3;
  ran = λ node. node;
}

-- Both storages hold an index that cannot be read.
abbrev outside : NodeWorld ℤ MemKvStorage (Unit {0}) (Unit {0})
outside = record {
  chains = λ shard. (blocks_finality_info_key, 1 ∷ []) ∷ [];
  folders = tt;
  net = tt;
}

abbrev chain : Shardchain sample sample_exec MemKvStorage (ArangoHelper ℕ)
chain = record {
  finality_was_loaded = false;
  blockchain_config = tt;
  block_finality = new_finality sample services (pos 0) (pos 0) (outside.chains (pos 0)) none;
  block_gas_limit = 1000;
  accounts_provider = none;
}

abbrev running : Manager (wired wiring)
running = record {
  original_config = record { node = sample_node "db"; blockchain = tt };
  engine = record {
    time = record { delta = 0; last_time = 1; mode = seq; seq_mode_interval = 1 };
    message_queue = record { storage = 9 ∷ []; capacity = 5; stopped = false };
    masterchain = record {
      blockchain_config = tt;
      shardchain = chain;
      shards = [];
      shards_has_been_changed = false;
    };
    workchain = chain;
  };
  thread = true;
  outside = outside;
}

abbrev after_reset : Manager (wired wiring)
after_reset = (reset (wired wiring) running).1

resets : reset (wired wiring) running ≡ (ok tt, after_reset)
unfolding build_block fill_block process_new_messages import_messages import_external external_step
    execute_external after_external import_internal sort_by_lt process_rounds process_round
    process_new deliver_new enqueue_new finalize_block execute find_or_provide provided
    try_prepare_transaction prepared record_transaction stored_account add_raw_transaction
    describe_in_msg in_msg_of add_out_msgs out_msg_of at_and_lt is_limits_reached is_seq dequeue
    generate_block chain_build build_with new_collator put_master carry apply_master set_shards
    finality_and_apply_block generate_shard apply_built nex_seq_no next_seq_no
    register_new_shard_block descr_of get_last_info new_builder put_block_with_info new_finality
    with_block_and_state key_by_seqno Mem.get Mem.set Assoc.get Assoc.insert Assoc.remove
    ShardBlock.serialize ShardBlock.new execute_queued_messages shard_step after_shard shard_blocks
    master_step round rounds set_last_time get_next_time time_mode get_next set_last reset clear_all
    clear_outside stop replace_and_start start create_engine wired shard_ident document_db_config
    clear_db with_path new_folders from_config clear_collections is_error is_success stop_messages
    new_node new_masterchain new_shardchain new_time new_queue load load_fresh load_zerostate
    bytes_eqb block_key block_finality_hash_key Mem.remove
resets = refl

reset-StartsFresh_example :
    (chains : ℤ → MemKvStorage) × Made wiring (pos 0) chains after_reset.engine
    × StartsFresh wiring (chains sample_mc.masterchain)
    × StartsFresh wiring (chains (pos 0))
unfolding shard_ident
reset-StartsFresh_example =
    reset-StartsFresh wiring mem_kv-IsKv running after_reset (pos 0) refl resets
