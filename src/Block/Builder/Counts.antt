-- ===== src/Block/Builder/Counts.antt =====
-- What the parts of `execute` do to the mode of time and to the count of executed messages.
use evernode_se.Common.{
  ℕ, ◌+◌, ◌%◌, ◌^◌, ◌≡◌, refl, ◌∙◌, Option, none, some, List, [], ◌∷◌, ◌⊎◌, inl, inr, arith,
}
use evernode_se.Common.Post.{continue-keeps}
use evernode_se.Engine.Time.{BlockTimeMode}
use evernode_se.Block.Ever.{EverBlock}
use evernode_se.Block.ShardBlock.{EngineTraceInfoData}
use evernode_se.Block.Executor.{ExecLib, ExecutorError, NewInfo}
use evernode_se.Block.Builder.{BlockBuilder, Prepared, prepared, try_prepare_transaction}
use evernode_se.Block.Builder.Execute.{
  add_reward_of, describe_in_msg, out_msg_of, add_out_msgs, add_raw_transaction, record_transaction,
  execute,
}

module _ (e : EverBlock) (x : ExecLib e) where
  open e use {Cell}
  open x use {Message, AccountId, ShardAccount, Transaction, Reason, Config}

  -- What the header of the block is made of: the state before it, the header's first fields, and the
  -- logical time of the start.
  abbrev pub header : BlockBuilder e x → e.State × NewInfo e.ShardIdent × ℕ
  header b = (b.shard_state, b.block_info, b.start_lt)

  -- The mode of time, the count of executed messages, and the header.
  abbrev pub counted : BlockBuilder e x → BlockTimeMode × ℕ × (e.State × NewInfo e.ShardIdent × ℕ)
  counted b = (b.time_mode, b.total_message_processed, header b)

  add_reward_of-counted :
      (o : Option x.Reward) (b : BlockBuilder e x) → counted (add_reward_of e x o b).1 ≡ counted b
  add_reward_of-counted o b = ground arith

  describe_in_msg-counted :
      (o : Option Cell) (tr_cell : Cell) (b : BlockBuilder e x)
      → counted (describe_in_msg e x o tr_cell b).1 ≡ counted b
  unfolding describe_in_msg
  describe_in_msg-counted o tr_cell b = ground arith

  out_msg_of-counted :
      (o : Option (x.Address × ℕ × x.Fee)) (msg : Message) (tr_cell : Cell) (b : BlockBuilder e x)
      → counted (out_msg_of e x o msg tr_cell b).1 ≡ counted b
  unfolding out_msg_of
  out_msg_of-counted o msg tr_cell b = ground arith

  add_out_msgs-counted :
      (msgs : List (Option Message)) (tr_cell : Cell) (b : BlockBuilder e x)
      → counted (add_out_msgs e x msgs tr_cell b).1 ≡ counted b
  unfolding add_out_msgs
  add_out_msgs-counted [] tr_cell b = refl
  add_out_msgs-counted (none ∷ msgs) tr_cell b = refl
  add_out_msgs-counted (some msg ∷ msgs) tr_cell b =
      continue-keeps counted (counted b) (out_msg_of e x (x.int_header msg) msg tr_cell b) _
        (out_msg_of-counted (x.int_header msg) msg tr_cell b)
        λ _ s i. add_out_msgs-counted msgs tr_cell s ∙ i

  add_raw_transaction-counted :
      (t : Transaction) (tr_cell : Cell) (b : BlockBuilder e x)
      → counted (add_raw_transaction e x t tr_cell b).1 ≡ counted b
  unfolding add_raw_transaction
  add_raw_transaction-counted t tr_cell b =
      grind (arith, add_reward_of-counted, describe_in_msg-counted, add_out_msgs-counted)

  prepared-counted :
      (r : Transaction ⊎ ExecutorError Reason) (root : Cell) (lt : ℕ)
      (trace : List EngineTraceInfoData) (msg : Message) (last_lt : ℕ) (b : BlockBuilder e x)
      → counted (prepared e x r root lt trace msg last_lt b).1 ≡ counted b
  unfolding prepared
  prepared-counted (inl t) root lt trace msg last_lt b = ground arith
  prepared-counted (inr error) root lt trace msg last_lt b = ground arith

  try_prepare_transaction-counted :
      (config : Config) (root : Cell) (msg : Message) (last_lt : ℕ) (b : BlockBuilder e x)
      → counted (try_prepare_transaction e x config root msg last_lt b).1 ≡ counted b
  unfolding try_prepare_transaction
  try_prepare_transaction-counted config root msg last_lt b = prepared-counted _ _ _ _ msg last_lt b

  record_transaction-counted :
      (acc_id : AccountId) (shard_acc : ShardAccount) (p : Prepared e x) (b : BlockBuilder e x)
      → counted (record_transaction e x acc_id shard_acc p b).1 ≡ counted b
  unfolding record_transaction
  record_transaction-counted acc_id shard_acc p b = grind (arith, add_raw_transaction-counted)

  -- `execute` counts one message, also where it fails, and keeps the mode of time.
  pub execute-counted :
      (msg : Message) (config : Config) (acc_id : AccountId) (b : BlockBuilder e x)
      → counted (execute e x msg config acc_id b).1
        ≡ (b.time_mode, (b.total_message_processed + 1) % 2 ^ 64, header b)
  unfolding execute
  execute-counted msg config acc_id b =
      grind (arith, try_prepare_transaction-counted, record_transaction-counted)
