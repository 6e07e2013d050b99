-- ===== src/Engine/Masterchain/Examples.antt =====
-- A masterchain over the small libraries.
use evernode_se.Common.{ℕ, ◌≡◌, refl, subst, Option, none, some, false, true, List, [], ◌∷◌, arith}
use evernode_se.Common.Int.{ℤ, pos}
use evernode_se.Common.Assoc
use evernode_se.Common.Assoc.{ℤ_key, eqb}
use evernode_se.Common.Result.{NodeResult, ok, ok-injective}
use evernode_se.Common.Post.{Post}
use evernode_se.Engine.Time.{seq, is_seq}
use evernode_se.Engine.Messages.{InMessagesQueue, dequeue}
use evernode_se.Engine.Shardchain.{
  build_with, new_collator, finality_and_apply_block, with_params as new_shardchain,
  build_block as chain_build,
}
use evernode_se.Engine.Masterchain.{
  Masterchain, generate_block, put_master, master_block, apply_master, set_shards, with_params,
  restore_state, register_new_shard_block, ShardInfo,
}
use evernode_se.Engine.Masterchain.Outcome.{Outcome, generate_block-Outcome}
use evernode_se.Engine.Masterchain.Register.{WellFormed, register_new_shard_block_lem}
use evernode_se.Engine.Masterchain.Restore.{generate_block-restore}
use evernode_se.Engine.Masterchain.Sample.{sample_mc, sample_mc-IsMcLib, the_descr}
use evernode_se.Data.Kv.Mem.{MemKvStorage, mem_kv, mem_kv-IsKv}
use evernode_se.Data.Kv.Mem
use evernode_se.Data.ShardStorage.{block_key, block_finality_hash_key}
use evernode_se.Common.Bytes.{
  bytes_eqb, read_u256, read_exact, be_bytes, digits, le_bytes, read_le, of_le_bytes, of_digits,
  of_be_bytes, read_upto,
}
use evernode_se.Block.Sample.{sample, sample-IsEverBlock}
use evernode_se.Block.ShardBlock
use evernode_se.Block.ShardBlock.{unwrap, ShardBlock, with_block_and_state, key_by_seqno}
use evernode_se.Block.Finality.{
  Services, with_params as new_finality, get_last_info, read_one_sb_from_key,
}
use evernode_se.Block.Finality.Disk.{
  load, put_block_with_info, deserialize, read_entries, read_one_sb_hash, read_one_sb,
}
use evernode_se.Block.Finality.Restart.{IsNew}
use evernode_se.Block.Builder.{
  with_params as new_builder, try_prepare_transaction, prepared, at_and_lt, is_limits_reached,
}
use evernode_se.Block.Builder.Build.{
  build_block, fill_block, process_new_messages, import_messages, import_external, external_step,
  execute_external, after_external, import_internal, sort_by_lt, process_rounds, process_round,
  process_new, deliver_new, enqueue_new, finalize_block,
}
use evernode_se.Block.Builder.SampleExec.{sample_exec}

abbrev services : Services sample MemKvStorage (List ℕ)
services = record {
  kv = mem_kv;
  to_hex_string = λ h. h ∷ [];
  reflect_block_in_db = λ mc sb db. ([], mc ∷ db);
}

-- One shard's block waits for a master block.
abbrev chain : Masterchain sample sample_exec MemKvStorage (List ℕ)
chain = record {
  blockchain_config = tt;
  shardchain = record {
    finality_was_loaded = false;
    blockchain_config = tt;
    block_finality = new_finality sample services (pos 0) (pos 0) [] (some []);
    block_gas_limit = 1000;
    accounts_provider = none;
  };
  shards = (pos 0, the_descr) ∷ [];
  shards_has_been_changed = true;
}

abbrev inbox : InMessagesQueue ℕ
inbox = record { storage = []; capacity = 5; stopped = false }

abbrev generated :
    NodeResult (Option ℕ)
    × (Masterchain sample sample_exec MemKvStorage (List ℕ) × InMessagesQueue ℕ)
generated = generate_block sample sample_exec sample_mc services 2 0 1 100 seq chain inbox

generates : generated.0 ≡ ok (some 101)
unfolding build_block fill_block process_new_messages import_messages import_external external_step
    execute_external after_external import_internal sort_by_lt process_rounds process_round
    process_new deliver_new enqueue_new finalize_block try_prepare_transaction prepared at_and_lt
    is_limits_reached is_seq dequeue generate_block chain_build build_with new_collator put_master
    master_block apply_master set_shards finality_and_apply_block get_last_info new_builder
    put_block_with_info new_finality with_block_and_state key_by_seqno Mem.get Mem.set Assoc.get
    Assoc.insert Assoc.remove ShardBlock.serialize ShardBlock.new
generates = refl

generate_block-Outcome_example :
    Outcome sample sample_exec sample_mc services 1 chain (generated.0, generated.1.0)
generate_block-Outcome_example =
    generate_block-Outcome sample sample_exec sample_mc services 2 0 1 100 seq chain inbox

abbrev header : ShardInfo ℤ
header = record {
  shard = pos 0;
  seq_no = 3;
  start_lt = 10;
  end_lt = 20;
  before_split = false;
  want_split = false;
  want_merge = false;
  flags = 0;
  min_ref_mc_seqno = 1;
  gen_utime = 5;
}

register_new_shard_block_lem_example :
    Post
      (λ _ m'.
        (cell : ℕ) × (boc : List ℕ) × (unwrap (sample.serialize_block 3) ≡ ok cell)
        × (sample.write_boc cell ≡ ok boc)
        × (m'.shards_has_been_changed ≡ true)
        × (Assoc.get m'.shards (pos 0)
            ≡ some (record {
              seq_no = 3;
              reg_mc_seqno = 1;
              start_lt = 10;
              end_lt = 20;
              root_hash = sample.repr_hash cell;
              file_hash = sample.calc_file_hash boc;
              before_split = false;
              want_split = false;
              want_merge = false;
              flags = 0;
              next_validator_shard = sample_mc.shard_prefix_with_tag (pos 0);
              min_ref_mc_seqno = 1;
              gen_utime = 5;
            }))
        × ((s : ℤ) → eqb (pos 0) s ≡ false → Assoc.get m'.shards s ≡ Assoc.get chain.shards s)
        × WellFormed sample sample_exec sample_mc m'.shards)
      (register_new_shard_block sample sample_exec sample_mc services 3 chain)
unfolding Assoc.get
register_new_shard_block_lem_example =
    register_new_shard_block_lem sample sample_exec sample_mc services 3 header chain refl refl
      (refl, refl, tt)

one-IsNew :
    (state : ℕ) (sb : ShardBlock sample)
    → with_block_and_state sample 101 state ≡ ok sb
    → IsNew sample services chain.shardchain.block_finality sb
unfolding with_block_and_state key_by_seqno new_finality Mem.get Assoc.get
one-IsNew state sb built =
    subst (IsNew sample services chain.shardchain.block_finality) (ok-injective built) (record {
      missing = refl;
      fits = record {
        seq_no = omega arith;
        size = omega arith;
        root_hash = omega arith;
        file_hash = omega arith;
      };
      later = omega arith;
    })

abbrev value_of {ℓ} : {A : Type ℓ} → NodeResult A → A → A
value_of (ok a) b = a
value_of _ b = b

abbrev started_from : NodeResult (Masterchain sample sample_exec MemKvStorage (List ℕ))
started_from =
    with_params sample sample_exec sample_mc services (pos 0) tt 1000 (some [])
      generated.1.0.shardchain.block_finality.storage none

abbrev started : Masterchain sample sample_exec MemKvStorage (List ℕ)
started = value_of started_from chain

starts : started_from ≡ ok started
unfolding build_block fill_block process_new_messages import_messages import_external external_step
    execute_external after_external import_internal sort_by_lt process_rounds process_round
    process_new deliver_new enqueue_new finalize_block try_prepare_transaction prepared at_and_lt
    is_limits_reached is_seq dequeue generate_block chain_build build_with new_collator put_master
    master_block apply_master set_shards finality_and_apply_block get_last_info new_builder
    put_block_with_info new_finality with_block_and_state key_by_seqno Mem.get Mem.set Assoc.get
    Assoc.insert Assoc.remove ShardBlock.serialize ShardBlock.new with_params new_shardchain load
    deserialize read_entries read_one_sb_hash read_one_sb read_one_sb_from_key read_u256 read_exact
    ShardBlock.deserialize bytes_eqb block_key block_finality_hash_key be_bytes digits le_bytes
    read_le of_le_bytes of_digits of_be_bytes read_upto
starts = refl

generate_block-restore_example :
    (restored : Masterchain sample sample_exec MemKvStorage (List ℕ)) × (restore_state sample
        sample_exec sample_mc services 2 0
        (started, inbox)
      ≡ (ok tt, (restored, inbox)))
    × (restored.shards_has_been_changed ≡ true)
    × ((s : ℤ) → Assoc.get restored.shards s ≡ Assoc.get chain.shards s)
unfolding new_finality Assoc.get
generate_block-restore_example =
    generate_block-restore sample sample_exec sample_mc sample_mc-IsMcLib services mem_kv-IsKv
      sample-IsEverBlock 2 0 1 100 seq chain inbox 101 (pos 0) 1000 (some []) none started 2 0 inbox
      refl refl one-IsNew (refl, refl, tt) generates starts
