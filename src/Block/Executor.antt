-- ===== src/Block/Executor.antt =====
-- What node/src/block/builder.rs takes from ever_block and ever_executor: messages, accounts,
-- transactions, the outbound queue, the descriptions of a block, and the transaction executor.
use evernode_se.Common.{ℕ, Bool, Option, List, ◌⊎◌}
use evernode_se.Common.Int.{ℤ}
use evernode_se.Common.Result.{NodeResult, NodeError}
use evernode_se.Block.Ever.{EverBlock}
use evernode_se.Block.ShardBlock.{EngineTraceInfoData}
use evernode_se.Block.Finality.{BlkPrevInfo}

-- `ExecutorError`, and any other error. An exit argument is an i32, where the argument is one.
pub data ExecutorError (Reason : Type 0) : Type 0 where
  no_accept_error : ℤ → Option (Option ℤ) → ExecutorError Reason
  no_funds_to_import_msg : ExecutorError Reason
  ext_msg_compute_skipped : Reason → ExecutorError Reason
  other_error : NodeError → ExecutorError Reason

-- How the compute phase of an aborted transaction is described.
pub data ComputePhase (Reason : Type 0) : Type 0 where
  vm_failed : ℤ → Option ℤ → ComputePhase Reason
  skipped_no_state : ComputePhase Reason
  skipped_no_gas : ComputePhase Reason
  skipped_for : Reason → ComputePhase Reason

pub record ExecutorOutcome (Cell Transaction Reason : Type 0) : Type 0 where
  pub result : Transaction ⊎ ExecutorError Reason
  pub acc_root : Cell
  pub last_tr_lt : ℕ
  pub trace : List EngineTraceInfoData

-- What the builder writes into a block's header.
pub record NewInfo (ShardIdent : Type 0) : Type 0 where
  pub shard : ShardIdent
  pub seq_no : ℕ
  pub prev_ref : BlkPrevInfo
  pub gen_utime : ℕ
  pub start_lt : ℕ
  pub end_lt : ℕ

pub record ValueFlow (Currency Rewards : Type 0) : Type 0 where
  pub fees_collected : Currency
  pub imported : Currency
  pub exported : Currency
  pub from_prev_blk : Currency
  pub to_next_blk : Currency
  pub copyleft_rewards : Rewards

pub record ExecLib (e : EverBlock) : Type 1 where
  pub Message : Type 0
  pub AccountId : Type 0
  pub Address : Type 0
  pub Fee : Type 0
  pub Account : Type 0
  pub ShardAccount : Type 0
  pub ShardAccounts : Type 0
  pub Transaction : Type 0
  pub Reason : Type 0
  pub Config : Type 0
  pub QueueKey : Type 0
  pub Envelope : Type 0
  pub EnqueuedMsg : Type 0
  pub OutMsgQueue : Type 0
  pub InMsg : Type 0
  pub OutMsg : Type 0
  pub InMsgDescr : Type 0
  pub OutMsgDescr : Type 0
  pub AccountBlocks : Type 0
  pub CopyleftRewards : Type 0
  pub Reward : Type 0
  pub Currency : Type 0
  -- Message
  pub int_dst_account_id : Message → Option AccountId
  -- the header of an internal message: destination, logical time of creation, forward fee
  pub int_header : Message → Option (Address × ℕ × Fee)
  pub message_lt : Message → Option ℕ
  pub workchain_id : Message → Option ℤ
  pub serialize_message : Message → NodeResult e.Cell
  pub message_of_cell : e.Cell → NodeResult Message
  pub default_account_id : AccountId
  pub contains_address : e.ShardIdent → Address → NodeResult Bool
  -- Account, ShardAccount and ShardAccounts
  pub account_of_cell : e.Cell → NodeResult Account
  pub account_is_none : Account → Bool
  pub last_tr_time : Account → Option ℕ
  pub set_last_tr_time : ℕ → Account → Account
  pub serialize_account : Account → NodeResult e.Cell
  pub default_shard_account : ShardAccount
  pub account_cell : ShardAccount → e.Cell
  pub last_trans_hash : ShardAccount → ℕ
  pub last_trans_lt : ShardAccount → ℕ
  -- `with_account_root` and `write_to_new_cell`
  pub with_account_root : e.Cell → ℕ → ℕ → NodeResult ShardAccount
  pub find_account : AccountId → ShardAccounts → NodeResult (Option ShardAccount)
  pub set_account : AccountId → ShardAccount → Account → ShardAccounts → NodeResult ShardAccounts
  pub remove_account : AccountId → ShardAccounts → NodeResult ShardAccounts
  pub full_balance : ShardAccounts → Currency
  -- Transaction
  pub with_account_and_message : Account → Message → ℕ → NodeResult Transaction
  pub set_now : ℕ → Transaction → Transaction
  -- `write_description` of an aborted ordinary transaction with this compute phase
  pub write_aborted : ComputePhase Reason → Transaction → NodeResult Transaction
  pub write_state_update : ℕ → ℕ → Transaction → NodeResult Transaction
  pub gas_used : Transaction → Option ℕ
  pub is_aborted : Transaction → NodeResult Bool
  pub set_prev_trans : ℕ → ℕ → Transaction → Transaction
  pub serialize_transaction : Transaction → NodeResult e.Cell
  pub logical_time : Transaction → ℕ
  pub copyleft_reward : Transaction → Option Reward
  pub in_msg_cell : Transaction → Option e.Cell
  -- the outbound messages in order; `none` where a message is not a standard one
  pub out_msgs : Transaction → NodeResult (List (Option Message))
  -- the outbound queue
  pub queue_items : OutMsgQueue → NodeResult (List (QueueKey × EnqueuedMsg × ℕ))
  pub read_enqueued : EnqueuedMsg → NodeResult Message
  pub remove_enqueued : QueueKey → OutMsgQueue → NodeResult OutMsgQueue
  pub set_enqueued : QueueKey → EnqueuedMsg → OutMsgQueue → NodeResult OutMsgQueue
  pub with_message_and_fee : Message → Fee → NodeResult Envelope
  -- `EnqueuedMsg::with_param`
  pub with_param : ℕ → Envelope → NodeResult EnqueuedMsg
  -- the key of a shard, a prefix and a hash, and the prefix of an account
  pub out_msg_key : e.ShardIdent → ℕ → ℕ → QueueKey
  pub account_prefix : AccountId → NodeResult ℕ
  -- the descriptions of a block
  pub in_immediate : Envelope → e.Cell → Fee → NodeResult InMsg
  pub in_external : e.Cell → e.Cell → InMsg
  pub out_new : EnqueuedMsg → e.Cell → OutMsg
  pub out_external : e.Cell → e.Cell → OutMsg
  pub empty_in : InMsgDescr
  pub empty_out : OutMsgDescr
  pub empty_blocks : AccountBlocks
  pub empty_rewards : CopyleftRewards
  pub set_in_msg : ℕ → InMsg → InMsgDescr → NodeResult InMsgDescr
  pub set_out_msg : ℕ → OutMsg → OutMsgDescr → NodeResult OutMsgDescr
  pub add_transaction : Transaction → e.Cell → AccountBlocks → NodeResult AccountBlocks
  pub add_reward : Reward → CopyleftRewards → NodeResult CopyleftRewards
  -- the shard state
  pub state_shard : e.State → e.ShardIdent
  pub state_global_id : e.State → ℤ
  pub shard_workchain : e.ShardIdent → ℤ
  pub read_accounts : e.State → NodeResult ShardAccounts
  pub read_out_msg_queue : e.State → NodeResult OutMsgQueue
  pub set_seq_no : ℕ → e.State → e.State
  pub write_accounts : ShardAccounts → e.State → NodeResult e.State
  pub write_out_msg_queue : OutMsgQueue → e.State → NodeResult e.State
  -- `account_blocks.root_extra()`, `fees_collected.grams.add(..)` of the inbound description's fees,
  -- and what the descriptions import and export
  pub fees_of_blocks : AccountBlocks → Currency
  pub add_in_fees : InMsgDescr → Currency → NodeResult Currency
  pub value_imported : InMsgDescr → Currency
  pub value_exported : OutMsgDescr → Currency
  -- whether `BlockInfo::set_seq_no` and `BlockInfo::set_prev_stuff` take these
  pub takes_seq_no : ℕ → Bool
  pub takes_prev_ref : BlkPrevInfo → Bool
  -- `Block::with_params`: the header, the value flow and the block's descriptions
  pub block_with_params :
      e.State
      → NewInfo e.ShardIdent
      → ValueFlow Currency CopyleftRewards
      → InMsgDescr
      → OutMsgDescr
      → AccountBlocks
      → ℕ
      → NodeResult e.Block
  -- The executor, with the configuration, the block's time, its logical time, the last logical time,
  -- the seed and the global id, on a message and an account: the result, the account that it leaves, the logical
  -- time that it leaves, and the trace.
  pub execute_with :
      Config → ℕ → ℕ → ℕ → ℕ → ℤ → Message → e.Cell → ExecutorOutcome e.Cell Transaction Reason
