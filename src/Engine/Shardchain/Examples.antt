-- ===== src/Engine/Shardchain/Examples.antt =====
-- A chain over the small libraries.
use evernode_se.Common.{ℕ, ◌≡◌, refl, subst, Option, none, some, false, true, List, [], ◌∷◌, arith}
use evernode_se.Common.Int.{pos}
use evernode_se.Common.Assoc
use evernode_se.Common.Result.{NodeResult, ok, ok-injective}
use evernode_se.Engine.Time.{seq, is_seq}
use evernode_se.Engine.Messages.{InMessagesQueue, dequeue}
use evernode_se.Engine.Shardchain.{
  Shardchain, generate_block, build_with, new_collator, apply_built, finality_and_apply_block,
  build_block as chain_build,
}
use evernode_se.Engine.Shardchain.Restart.{generate_block-load}
use evernode_se.Data.Kv.Mem.{MemKvStorage, mem_kv, mem_kv-IsKv}
use evernode_se.Data.Kv.Mem
use evernode_se.Block.Sample.{sample, sample-IsEverBlock}
use evernode_se.Block.ShardBlock
use evernode_se.Block.ShardBlock.{ShardBlock, with_block_and_state, key_by_seqno}
use evernode_se.Block.ShardBlock.RoundTrip.{without_traces}
use evernode_se.Block.Finality.{Services, with_params, get_last_info}
use evernode_se.Block.Finality.Disk.{load, put_block_with_info}
use evernode_se.Block.Finality.Restart.{IsNew}
use evernode_se.Block.Builder.{
  with_params as new_builder, try_prepare_transaction, prepared, at_and_lt, is_limits_reached,
}
use evernode_se.Block.Builder.Execute.{
  execute, find_or_provide, provided, record_transaction, stored_account, add_raw_transaction,
  describe_in_msg, in_msg_of, add_out_msgs, out_msg_of,
}
use evernode_se.Block.Builder.Build.{
  build_block, fill_block, process_new_messages, import_messages, import_external, external_step,
  execute_external, after_external, import_internal, sort_by_lt, process_rounds, process_round,
  process_new, deliver_new, enqueue_new, finalize_block,
}
use evernode_se.Block.Builder.SampleExec.{sample_exec}

abbrev services : Services sample MemKvStorage (List ℕ)
services = record {
  kv = mem_kv;
  to_hex_string = λ h. h ∷ [];
  reflect_block_in_db = λ mc sb db. ([], mc ∷ db);
}

abbrev chain : Shardchain sample sample_exec MemKvStorage (List ℕ)
chain = record {
  finality_was_loaded = false;
  blockchain_config = tt;
  block_finality = with_params sample services (pos 0) (pos 0) [] (some []);
  block_gas_limit = 1000;
  accounts_provider = none;
}

abbrev inbox : InMessagesQueue ℕ
inbox = record { storage = 7 ∷ 9 ∷ []; capacity = 5; stopped = false }

abbrev generated :
    NodeResult (Option ℕ)
    × (Shardchain sample sample_exec MemKvStorage (List ℕ) × InMessagesQueue ℕ)
generated = generate_block sample sample_exec services 2 0 1 100 seq chain inbox

one-IsNew :
    (state : ℕ) (sb : ShardBlock sample)
    → with_block_and_state sample 1 state ≡ ok sb
    → IsNew sample services chain.block_finality sb
unfolding with_block_and_state key_by_seqno with_params Mem.get Assoc.get
one-IsNew state sb built =
    subst (IsNew sample services chain.block_finality) (ok-injective built) (record {
      missing = refl;
      fits = record {
        seq_no = omega arith;
        size = omega arith;
        root_hash = omega arith;
        file_hash = omega arith;
      };
      later = omega arith;
    })

generates : generated.0 ≡ ok (some 1)
unfolding build_block fill_block process_new_messages import_messages import_external external_step
    execute_external after_external import_internal sort_by_lt process_rounds process_round
    process_new deliver_new enqueue_new finalize_block execute find_or_provide provided
    try_prepare_transaction prepared record_transaction stored_account add_raw_transaction
    describe_in_msg in_msg_of add_out_msgs out_msg_of at_and_lt is_limits_reached is_seq dequeue
    generate_block chain_build build_with new_collator apply_built finality_and_apply_block
    get_last_info new_builder put_block_with_info with_params with_block_and_state key_by_seqno
    Mem.get Mem.set Assoc.get Assoc.insert Assoc.remove ShardBlock.serialize ShardBlock.new
generates = refl

generate_block-load_example :
    (state : ℕ) × (sb : ShardBlock sample) × (with_block_and_state sample 1 state ≡ ok sb)
    × (load sample services generated.1.0.block_finality ≡ (
      ok true,
      record generated.1.0.block_finality {
        current_block = without_traces sb;
        last_finalized_block = without_traces sb;
      },
    ))
unfolding with_params
generate_block-load_example =
    generate_block-load sample sample_exec services mem_kv-IsKv sample-IsEverBlock 2 0 1 100 seq
      chain inbox 1 generated.1.0.block_finality refl refl one-IsNew generates refl
