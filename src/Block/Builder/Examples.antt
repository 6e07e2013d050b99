-- ===== src/Block/Builder/Examples.antt =====
-- Blocks built with the small libraries.
use evernode_se.Common.{ℕ, ◌≡◌, ◌≤◌, refl, none, false, List, [], ◌∷◌}
use evernode_se.Common.Int.{pos}
use evernode_se.Common.Result.{ok}
use evernode_se.Engine.Time.{BlockTimeMode, seq, system, is_seq}
use evernode_se.Engine.Messages.{InMessagesQueue, dequeue}
use evernode_se.Block.Sample.{sample}
use evernode_se.Block.Finality.{BlkPrevInfo}
use evernode_se.Block.Builder.{
  BlockBuilder, with_params, try_prepare_transaction, prepared, at_and_lt, is_limits_reached,
}
use evernode_se.Block.Builder.Execute.{
  execute, find_or_provide, provided, record_transaction, stored_account, add_raw_transaction,
  describe_in_msg, in_msg_of, add_out_msgs, out_msg_of,
}
use evernode_se.Block.Builder.Build.{
  build_block, fill_block, process_new_messages, import_messages, import_external, external_step,
  execute_external, after_external, import_internal, sort_by_lt, insert_by_lt, process_rounds,
  process_round, process_new, deliver_new, enqueue_new, finalize_block,
}
use evernode_se.Block.Builder.SampleExec.{sample_exec}
use evernode_se.Block.Builder.OneMessage.{fill_block-one_message}

abbrev prev : BlkPrevInfo
prev = record { end_lt = 40; seq_no = 5; root_hash = 1; file_hash = 2 }

abbrev fresh : BlockTimeMode → BlockBuilder sample sample_exec
fresh mode = record {
  shard_state = 5;
  accounts = [];
  block_info = record {
    shard = pos 0;
    seq_no = 6;
    prev_ref = prev;
    gen_utime = 100;
    start_lt = 41;
    end_lt = 0;
  };
  rand_seed = 0;
  new_messages = [];
  from_prev_blk = 100;
  in_msg_descr = [];
  out_msg_descr = [];
  out_queue = [];
  block_gas_limit = 1000;
  account_blocks = [];
  total_gas_used = 0;
  total_message_processed = 0;
  start_lt = 41;
  end_lt = 42;
  copyleft_rewards = 0;
  transaction_traces = [];
  time_mode = mode;
  accounts_provider = none;
}

made :
    (mode : BlockTimeMode)
    → with_params sample sample_exec 5 prev 100 mode 1000 none 0 ≡ ok (fresh mode)
unfolding with_params
made mode = refl

abbrev inbox : InMessagesQueue ℕ
inbox = record { storage = 7 ∷ 9 ∷ []; capacity = 5; stopped = false }

-- Message 7 is executed; its message 8 is left for the next block.
fill_block-one_message_example :
    ((fill_block sample sample_exec tt 2 (fresh seq) inbox).1.0.total_message_processed ≤ 1)
    × (fill_block sample sample_exec tt 9 (fresh seq) inbox
        ≡ fill_block sample sample_exec tt 2 (fresh seq) inbox)
fill_block-one_message_example =
    fill_block-one_message sample sample_exec tt 7 5 prev 100 1000 none 0 (fresh seq) inbox
      (made seq)

abbrev items : List (ℕ × ℕ × ℕ)
items = (1, 4, 30) ∷ (2, 5, 10) ∷ (3, 6, 30) ∷ []

sorted : sort_by_lt items ≡ (2, 5, 10) ∷ (1, 4, 30) ∷ (3, 6, 30) ∷ []
unfolding sort_by_lt insert_by_lt
sorted = refl

-- In sequential mode message 9 stays in the inbox and message 8 is put into the outbound queue. In
-- system mode all three are executed.
sequential_run : (fill_block sample sample_exec tt 2 (fresh seq) inbox).1.1.storage ≡ 9 ∷ []
unfolding build_block fill_block process_new_messages import_messages import_external external_step
    execute_external after_external import_internal sort_by_lt process_rounds process_round
    process_new deliver_new enqueue_new finalize_block execute find_or_provide provided
    try_prepare_transaction prepared record_transaction stored_account add_raw_transaction
    describe_in_msg in_msg_of add_out_msgs out_msg_of at_and_lt is_limits_reached is_seq dequeue
sequential_run = refl

system_run :
    (fill_block sample sample_exec tt 2 (fresh system) inbox).1.0.account_blocks ≡ 8 ∷ 9 ∷ 7 ∷ []
unfolding build_block fill_block process_new_messages import_messages import_external external_step
    execute_external after_external import_internal sort_by_lt process_rounds process_round
    process_new deliver_new enqueue_new finalize_block execute find_or_provide provided
    try_prepare_transaction prepared record_transaction stored_account add_raw_transaction
    describe_in_msg in_msg_of add_out_msgs out_msg_of at_and_lt is_limits_reached is_seq dequeue
system_run = refl

built :
    (build_block sample sample_exec tt 2 (fresh seq) inbox).0
    ≡ ok (record { block = 6; state = 6; is_empty = false; transaction_traces = [] })
unfolding build_block fill_block process_new_messages import_messages import_external external_step
    execute_external after_external import_internal sort_by_lt process_rounds process_round
    process_new deliver_new enqueue_new finalize_block execute find_or_provide provided
    try_prepare_transaction prepared record_transaction stored_account add_raw_transaction
    describe_in_msg in_msg_of add_out_msgs out_msg_of at_and_lt is_limits_reached is_seq dequeue
built = refl
