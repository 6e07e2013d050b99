-- ===== src/Engine/Shardchain/Linked/Examples.antt =====
-- A chain that generates a block, is started again, and generates another.
use evernode_se.Common.{ℕ, ◌≡◌, refl, subst, Option, none, some, false, true, List, [], ◌∷◌, arith}
use evernode_se.Common.Int.{pos}
use evernode_se.Common.Assoc
use evernode_se.Common.Bytes.{
  bytes_eqb, read_u256, read_exact, be_bytes, digits, le_bytes, read_le, of_le_bytes, of_digits,
  of_be_bytes, read_upto,
}
use evernode_se.Data.ShardStorage.{block_key, block_finality_hash_key}
use evernode_se.Common.Result.{NodeResult, ok, ok-injective}
use evernode_se.Engine.Time.{seq, is_seq}
use evernode_se.Engine.Messages.{InMessagesQueue, dequeue}
use evernode_se.Engine.Shardchain.{
  Shardchain, generate_block, build_with, new_collator, apply_built, finality_and_apply_block,
  build_block as chain_build, with_params as new_chain,
}
use evernode_se.Engine.Shardchain.Linked.{Grows, IsLinked, born, generated, restarted}
use evernode_se.Engine.Shardchain.Linked.Growth.{generate_block-IsLinked}
use evernode_se.Engine.Shardchain.Linked.Sample.{
  Headed, linked, linked_exec, prev_of, linked-IsEverBlock, linked-IsHeaderLib,
}
use evernode_se.Data.Kv.Mem.{MemKvStorage, mem_kv, mem_kv-IsKv}
use evernode_se.Data.Kv.Mem
use evernode_se.Block.ShardBlock
use evernode_se.Block.ShardBlock.{ShardBlock, with_block_and_state, key_by_seqno}
use evernode_se.Block.Finality.{Services, with_params, get_last_info, read_one_sb_from_key}
use evernode_se.Block.Finality.Disk.{
  load, put_block_with_info, deserialize, read_entries, read_one_sb_hash, read_one_sb,
}
use evernode_se.Block.Finality.Restart.{IsNew}
use evernode_se.Block.Builder.{
  with_params as new_builder, try_prepare_transaction, prepared, at_and_lt, is_limits_reached,
}
use evernode_se.Block.Builder.Execute.{
  execute, find_or_provide, provided, record_transaction, stored_account, add_raw_transaction,
  describe_in_msg, in_msg_of, add_out_msgs, out_msg_of,
}
use evernode_se.Block.Builder.Build.{
  build_block, fill_block, process_new_messages, import_messages, import_external, external_step,
  execute_external, after_external, import_internal, sort_by_lt, process_rounds, process_round,
  process_new, deliver_new, enqueue_new, finalize_block,
}

abbrev services : Services linked MemKvStorage (List ℕ)
services = record {
  kv = mem_kv;
  to_hex_string = λ h. h ∷ [];
  reflect_block_in_db = λ mc sb db. ([], mc ∷ db);
}

abbrev Chain : Type 0
Chain = Shardchain linked linked_exec MemKvStorage (List ℕ)

abbrev chain : Chain
chain = record {
  finality_was_loaded = false;
  blockchain_config = tt;
  block_finality = with_params linked services (pos 0) (pos 0) [] (some []);
  block_gas_limit = 1000;
  accounts_provider = none;
}

abbrev inbox : List ℕ → InMessagesQueue ℕ
inbox messages = record { storage = messages; capacity = 5; stopped = false }

abbrev step : Chain → List ℕ → NodeResult (Option Headed) × (Chain × InMessagesQueue ℕ)
step c messages = generate_block linked linked_exec services 2 0 1 100 seq c (inbox messages)

abbrev one : Chain
one = (step chain (7 ∷ [])).1.0

-- The chain that is started again on the storage.
abbrev restarted_chain : Chain
restarted_chain = record {
  finality_was_loaded = true;
  blockchain_config = tt;
  block_finality =
      (load linked services
        (with_params linked services (pos 0) (pos 0) one.block_finality.storage (some []))).1;
  block_gas_limit = 1000;
  accounts_provider = none;
}

abbrev two : Chain
two = (step restarted_chain (9 ∷ [])).1.0

abbrev first_block : Headed
first_block = record {
  seq_no = 1;
  start_lt = 1;
  end_lt = 2;
  gen_utime = 100;
  prev = record { end_lt = 0; seq_no = 0; root_hash = 0; file_hash = 0 };
}

abbrev second_block : Headed
second_block = record {
  seq_no = 2;
  start_lt = 3;
  end_lt = 4;
  gen_utime = 100;
  prev = record { end_lt = 2; seq_no = 1; root_hash = 1001; file_hash = 77 };
}

first-IsNew :
    (state : ℕ) (sb : ShardBlock linked)
    → with_block_and_state linked first_block state ≡ ok sb
    → IsNew linked services chain.block_finality sb
unfolding with_block_and_state key_by_seqno with_params Mem.get Assoc.get
first-IsNew state sb built =
    subst (IsNew linked services chain.block_finality) (ok-injective built) (record {
      missing = refl;
      fits = record {
        seq_no = omega arith;
        size = omega arith;
        root_hash = omega arith;
        file_hash = omega arith;
      };
      later = omega arith;
    })

makes_first : step chain (7 ∷ []) ≡ (ok (some first_block), (one, inbox []))
unfolding build_block fill_block process_new_messages import_messages import_external external_step
    execute_external after_external import_internal sort_by_lt process_rounds process_round
    process_new deliver_new enqueue_new finalize_block execute find_or_provide provided
    try_prepare_transaction prepared record_transaction stored_account add_raw_transaction
    describe_in_msg in_msg_of add_out_msgs out_msg_of at_and_lt is_limits_reached is_seq dequeue
    generate_block chain_build build_with new_collator apply_built finality_and_apply_block
    get_last_info new_builder put_block_with_info with_params with_block_and_state key_by_seqno
    Mem.get Mem.set Assoc.get Assoc.insert Assoc.remove ShardBlock.serialize ShardBlock.new
makes_first = refl

starts_again :
    new_chain linked linked_exec services
      (pos 0)
      (pos 0)
      tt
      1000
      (some [])
      one.block_finality.storage
      none
    ≡ ok restarted_chain
unfolding build_block fill_block process_new_messages import_messages import_external external_step
    execute_external after_external import_internal sort_by_lt process_rounds process_round
    process_new deliver_new enqueue_new finalize_block execute find_or_provide provided
    try_prepare_transaction prepared record_transaction stored_account add_raw_transaction
    describe_in_msg in_msg_of add_out_msgs out_msg_of at_and_lt is_limits_reached is_seq dequeue
    generate_block chain_build build_with new_collator apply_built finality_and_apply_block
    get_last_info new_builder put_block_with_info with_params with_block_and_state key_by_seqno
    Mem.get Mem.set Assoc.get Assoc.insert Assoc.remove ShardBlock.serialize ShardBlock.new
    new_chain load ShardBlock.deserialize bytes_eqb block_key block_finality_hash_key deserialize
    read_entries read_one_sb_hash read_one_sb read_one_sb_from_key read_u256 read_exact be_bytes
    digits le_bytes read_le of_le_bytes of_digits of_be_bytes read_upto
starts_again = refl

makes_second : step restarted_chain (9 ∷ []) ≡ (ok (some second_block), (two, inbox []))
unfolding build_block fill_block process_new_messages import_messages import_external external_step
    execute_external after_external import_internal sort_by_lt process_rounds process_round
    process_new deliver_new enqueue_new finalize_block execute find_or_provide provided
    try_prepare_transaction prepared record_transaction stored_account add_raw_transaction
    describe_in_msg in_msg_of add_out_msgs out_msg_of at_and_lt is_limits_reached is_seq dequeue
    generate_block chain_build build_with new_collator apply_built finality_and_apply_block
    get_last_info new_builder put_block_with_info with_params with_block_and_state key_by_seqno
    Mem.get Mem.set Assoc.get Assoc.insert Assoc.remove ShardBlock.serialize ShardBlock.new
    new_chain load ShardBlock.deserialize bytes_eqb block_key block_finality_hash_key deserialize
    read_entries read_one_sb_hash read_one_sb read_one_sb_from_key read_u256 read_exact be_bytes
    digits le_bytes read_le of_le_bytes of_digits of_be_bytes read_upto
makes_second = refl

second-IsNew :
    (state : ℕ) (sb : ShardBlock linked)
    → with_block_and_state linked second_block state ≡ ok sb
    → IsNew linked services restarted_chain.block_finality sb
unfolding build_block fill_block process_new_messages import_messages import_external external_step
    execute_external after_external import_internal sort_by_lt process_rounds process_round
    process_new deliver_new enqueue_new finalize_block execute find_or_provide provided
    try_prepare_transaction prepared record_transaction stored_account add_raw_transaction
    describe_in_msg in_msg_of add_out_msgs out_msg_of at_and_lt is_limits_reached is_seq dequeue
    generate_block chain_build build_with new_collator apply_built finality_and_apply_block
    get_last_info new_builder put_block_with_info with_params with_block_and_state key_by_seqno
    Mem.get Mem.set Assoc.get Assoc.insert Assoc.remove ShardBlock.serialize ShardBlock.new
    new_chain load ShardBlock.deserialize bytes_eqb block_key block_finality_hash_key deserialize
    read_entries read_one_sb_hash read_one_sb read_one_sb_from_key read_u256 read_exact be_bytes
    digits le_bytes read_le of_le_bytes of_digits of_be_bytes read_upto
second-IsNew state sb built =
    subst (IsNew linked services restarted_chain.block_finality) (ok-injective built) (record {
      missing = refl;
      fits = record {
        seq_no = omega arith;
        size = omega arith;
        root_hash = omega arith;
        file_hash = omega arith;
      };
      later = omega arith;
    })

two_blocks :
    Grows linked linked_exec services prev_of one first_block two second_block
      (second_block ∷ first_block ∷ [])
two_blocks =
    generated 2 0 1 100 seq (inbox (9 ∷ [])) (inbox [])
      (restarted (pos 0) (pos 0) tt 1000 (some []) none born starts_again) second-IsNew makes_second

generate_block-IsLinked_example :
    IsLinked linked linked_exec services prev_of (second_block ∷ first_block ∷ [])
unfolding with_params
generate_block-IsLinked_example =
    generate_block-IsLinked linked linked_exec services prev_of mem_kv-IsKv linked-IsEverBlock
      linked-IsHeaderLib 2 0 1 100 seq (inbox (7 ∷ [])) (inbox []) chain one two first_block
      second_block (second_block ∷ first_block ∷ []) refl refl first-IsNew makes_first two_blocks
