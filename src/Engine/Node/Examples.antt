-- ===== src/Engine/Node/Examples.antt =====
-- An engine over the small libraries, with one message that waits.
use evernode_se.Common.{ℕ, ◌≡◌, ◌==◌, if◌then◌else◌, refl, none, some, false, true, List, [], ◌∷◌}
use evernode_se.Common.Int.{pos}
use evernode_se.Common.Assoc
use evernode_se.Common.Result.{NodeResult, ok}
use evernode_se.Engine.Time.{seq, is_seq, get_next, set_last}
use evernode_se.Engine.Messages.{dequeue}
use evernode_se.Engine.Shardchain.{
  Shardchain, build_with, new_collator, finality_and_apply_block, nex_seq_no, apply_built,
  build_block as chain_build, generate_block as generate_shard,
}
use evernode_se.Engine.Masterchain.{
  generate_block, put_master, master_block as carry, apply_master, set_shards,
  register_new_shard_block, descr_of, next_seq_no,
}
use evernode_se.Engine.Masterchain.Sample.{sample_mc}
use evernode_se.Engine.Node.{
  TonNodeEngine, World, Running, shard_block, master_block, execute_queued_messages, shard_step,
  after_shard, shard_blocks, master_step, round, rounds, set_last_time, get_next_time, time_mode,
}
use evernode_se.Engine.Node.Due.{due, execute_queued_messages-due, execute_queued_messages-settled}
use evernode_se.Engine.Node.Stamps.{RepeatsMaster, execute_queued_messages-RepeatsMaster}
use evernode_se.Data.Kv.Mem.{MemKvStorage, mem_kv}
use evernode_se.Data.Kv.Mem
use evernode_se.Block.Sample.{sample}
use evernode_se.Block.ShardBlock
use evernode_se.Block.ShardBlock.{with_block_and_state, key_by_seqno}
use evernode_se.Block.Finality.{Services, with_params as new_finality, get_last_info}
use evernode_se.Block.Finality.Disk.{put_block_with_info}
use evernode_se.Block.Builder.{
  with_params as new_builder, try_prepare_transaction, prepared, at_and_lt, is_limits_reached,
}
use evernode_se.Block.Builder.Execute.{
  execute, find_or_provide, provided, record_transaction, stored_account, add_raw_transaction,
  describe_in_msg, in_msg_of, add_out_msgs, out_msg_of,
}
use evernode_se.Block.Builder.Build.{
  build_block, fill_block, process_new_messages, import_messages, import_external, external_step,
  execute_external, after_external, import_internal, sort_by_lt, process_rounds, process_round,
  process_new, deliver_new, enqueue_new, finalize_block,
}
use evernode_se.Block.Builder.SampleExec.{sample_exec}

abbrev services : Services sample MemKvStorage (List ℕ)
services = record {
  kv = mem_kv;
  to_hex_string = λ h. h ∷ [];
  reflect_block_in_db = λ mc sb db. ([], mc ∷ db);
}

abbrev chain : Shardchain sample sample_exec MemKvStorage (List ℕ)
chain = record {
  finality_was_loaded = false;
  blockchain_config = tt;
  block_finality = new_finality sample services (pos 0) (pos 0) [] (some []);
  block_gas_limit = 1000;
  accounts_provider = none;
}

abbrev engine : TonNodeEngine sample sample_exec MemKvStorage (List ℕ)
engine = record {
  time = record { delta = 0; last_time = 1; mode = seq; seq_mode_interval = 1 };
  message_queue = record { storage = 9 ∷ []; capacity = 5; stopped = false };
  masterchain = record {
    blockchain_config = tt;
    shardchain = chain;
    shards = [];
    shards_has_been_changed = false;
  };
  workchain = chain;
}

abbrev quiet : World ℕ
quiet = record { now = λ n. 100; seed = λ n. 0; others = λ n s. s; build_fuel = 2 }

abbrev executed : NodeResult (Unit {0}) × Running sample sample_exec MemKvStorage (List ℕ)
executed = execute_queued_messages sample sample_exec sample_mc services quiet 3 engine

executes : (executed.0 ≡ ok tt) × (executed.1.stamps ≡ master_block 3 ∷ (shard_block 2 ∷ []))
unfolding build_block fill_block process_new_messages import_messages import_external external_step
    execute_external after_external import_internal sort_by_lt process_rounds process_round
    process_new deliver_new enqueue_new finalize_block execute find_or_provide provided
    try_prepare_transaction prepared record_transaction stored_account add_raw_transaction
    describe_in_msg in_msg_of add_out_msgs out_msg_of at_and_lt is_limits_reached is_seq dequeue
    generate_block chain_build build_with new_collator put_master carry apply_master set_shards
    finality_and_apply_block generate_shard apply_built nex_seq_no next_seq_no
    register_new_shard_block descr_of get_last_info new_builder put_block_with_info new_finality
    with_block_and_state key_by_seqno Mem.get Mem.set Assoc.get Assoc.insert Assoc.remove
    ShardBlock.serialize ShardBlock.new execute_queued_messages shard_step after_shard shard_blocks
    master_step round rounds set_last_time get_next_time time_mode get_next set_last
executes = (refl, refl)

execute_queued_messages-due_example :
    executed.1.node.masterchain.shards_has_been_changed ≡ due false executed.1.stamps
execute_queued_messages-due_example =
    execute_queued_messages-due sample sample_exec sample_mc services quiet 3 engine

execute_queued_messages-settled_example :
    (executed.1.node.masterchain.shards_has_been_changed ≡ false)
    × (due false executed.1.stamps ≡ false)
execute_queued_messages-settled_example =
    execute_queued_messages-settled sample sample_exec sample_mc services quiet 3 engine
      (executes.0)

-- The message arrives before the third build, when a master block of time 2 is there.
abbrev late : World ℕ
late = record quiet {
  others = λ n s. if n == 2 then record s { message_queue = engine.message_queue } else s;
}

abbrev waiting : TonNodeEngine sample sample_exec MemKvStorage (List ℕ)
waiting = record engine {
  message_queue = record engine.message_queue { storage = [] };
  masterchain = record engine.masterchain { shards_has_been_changed = true };
}

abbrev repeated : NodeResult (Unit {0}) × Running sample sample_exec MemKvStorage (List ℕ)
repeated = execute_queued_messages sample sample_exec sample_mc services late 3 waiting

repeats : repeated.1.stamps ≡ master_block 3 ∷ (shard_block 2 ∷ (master_block 2 ∷ []))
unfolding build_block fill_block process_new_messages import_messages import_external external_step
    execute_external after_external import_internal sort_by_lt process_rounds process_round
    process_new deliver_new enqueue_new finalize_block execute find_or_provide provided
    try_prepare_transaction prepared record_transaction stored_account add_raw_transaction
    describe_in_msg in_msg_of add_out_msgs out_msg_of at_and_lt is_limits_reached is_seq dequeue
    generate_block chain_build build_with new_collator put_master carry apply_master set_shards
    finality_and_apply_block generate_shard apply_built nex_seq_no next_seq_no
    register_new_shard_block descr_of get_last_info new_builder put_block_with_info new_finality
    with_block_and_state key_by_seqno Mem.get Mem.set Assoc.get Assoc.insert Assoc.remove
    ShardBlock.serialize ShardBlock.new execute_queued_messages shard_step after_shard shard_blocks
    master_step round rounds set_last_time get_next_time time_mode get_next set_last
repeats = refl

execute_queued_messages-RepeatsMaster_example : RepeatsMaster repeated.1.stamps
execute_queued_messages-RepeatsMaster_example =
    execute_queued_messages-RepeatsMaster sample sample_exec sample_mc services late 3 waiting
