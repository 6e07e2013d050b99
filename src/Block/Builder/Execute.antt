-- ===== src/Block/Builder/Execute.antt =====
-- node/src/block/builder.rs: `add_raw_transaction` and `execute`.
use evernode_se.Common.{
  ℕ, ◌+◌, ◌%◌, ◌^◌, max, Bool, true, false, Option, none, some, List, [], ◌∷◌, ◌++◌,
}
use evernode_se.Common.Assoc
use evernode_se.Common.Assoc.{ℕ_key}
use evernode_se.Common.Result.{NodeResult, ok, err, panic, ◌>>=◌ as bind, invalid_data}
use evernode_se.Common.Exec.{lift, modify, continue, ◌>>=◌, ◌>>◌}
use evernode_se.Block.Ever.{EverBlock}
use evernode_se.Block.ShardBlock.{EngineTraceInfoData}
use evernode_se.Block.Executor.{ExecLib}
use evernode_se.Block.Builder.{BlockBuilder, Act, Prepared, try_prepare_transaction}

module _ (e : EverBlock) (x : ExecLib e) where
  open e use {Cell, repr_hash}
  open x use {Message, AccountId, ShardAccount, ShardAccounts, Transaction, Config, Account}

  abbrev pub add_reward_of : Option x.Reward → Act e x (Unit {0})
  add_reward_of none b = (ok tt, b)
  add_reward_of (some reward) b =
      (do
        rewards ← lift (x.add_reward reward b.copyleft_rewards)
        modify (λ b'. record b' { copyleft_rewards = rewards }))
        b

  -- The description of an inbound message: with its envelope if it is internal.
  unfoldable pub in_msg_of :
      Option (x.Address × ℕ × x.Fee) → Message → Cell → Cell → NodeResult x.InMsg
  in_msg_of (some header) msg msg_cell tr_cell =
      bind (x.with_message_and_fee msg header.2) λ env. x.in_immediate env tr_cell header.2
  in_msg_of none msg msg_cell tr_cell = ok (x.in_external msg_cell tr_cell)

  unfoldable pub describe_in_msg : Option Cell → Cell → Act e x (Unit {0})
  describe_in_msg none tr_cell b = (ok tt, b)
  describe_in_msg (some msg_cell) tr_cell b =
      (do
        msg ← lift (x.message_of_cell msg_cell)
        in_msg ← lift (in_msg_of (x.int_header msg) msg msg_cell tr_cell)
        descr ← lift (x.set_in_msg (repr_hash msg_cell) in_msg b.in_msg_descr)
        modify (λ b'. record b' { in_msg_descr = descr }))
        b

  -- An outbound message: an internal one waits to be processed, another is described at once.
  unfoldable pub out_msg_of : Option (x.Address × ℕ × x.Fee) → Message → Cell → Act e x (Unit {0})
  out_msg_of (some header) msg tr_cell b =
      (ok tt, record b { new_messages = b.new_messages ++ (msg, tr_cell) ∷ [] })
  out_msg_of none msg tr_cell b =
      (do
        msg_cell ← lift (x.serialize_message msg)
        descr ←
            lift
              (x.set_out_msg (repr_hash msg_cell) (x.out_external msg_cell tr_cell) b.out_msg_descr)
        modify (λ b'. record b' { out_msg_descr = descr }))
        b

  -- `iterate_out_msgs`: a message that is not a standard one ends it with an error.
  unfoldable pub add_out_msgs : List (Option Message) → Cell → Act e x (Unit {0})
  add_out_msgs [] tr_cell b = (ok tt, b)
  add_out_msgs (none ∷ msgs) tr_cell b = (err (invalid_data "Supported only std messages"), b)
  add_out_msgs (some msg ∷ msgs) tr_cell b =
      continue (out_msg_of (x.int_header msg) msg tr_cell b).0 (λ _. add_out_msgs msgs tr_cell)
        (out_msg_of (x.int_header msg) msg tr_cell b).1

  unfoldable pub add_raw_transaction : Transaction → Cell → Act e x (Unit {0})
  add_raw_transaction transaction tr_cell b =
      (do
        blocks ← lift (x.add_transaction transaction tr_cell b.account_blocks)
        modify (λ b'. record b' { account_blocks = blocks })
        add_reward_of (x.copyleft_reward transaction)
        describe_in_msg (x.in_msg_cell transaction) tr_cell
        msgs ← lift (x.out_msgs transaction)
        add_out_msgs msgs tr_cell)
        b

  -- The shard's account, else the provider's, else none at all.
  unfoldable pub provided :
      Option (AccountId → NodeResult (Option ShardAccount)) → AccountId → NodeResult ShardAccount
  provided none acc_id = ok x.default_shard_account
  provided (some get_account) acc_id =
      bind (get_account acc_id)
        λ found. ok (elim found [ some account ↦ account | none ↦ x.default_shard_account ])

  unfoldable pub find_or_provide :
      Option ShardAccount
      → Option (AccountId → NodeResult (Option ShardAccount))
      → AccountId
      → NodeResult ShardAccount
  find_or_provide (some account) provider acc_id = ok account
  find_or_provide none provider acc_id = provided provider acc_id

  abbrev pub keep_trace :
      Option (List EngineTraceInfoData) → ℕ → BlockBuilder e x → BlockBuilder e x
  keep_trace none hash b = b
  keep_trace (some trace) hash b = record b {
    transaction_traces = Assoc.insert b.transaction_traces hash trace;
  }

  -- The account after the transaction. One that is none is removed.
  unfoldable pub stored_account :
      Bool → AccountId → Account → Cell → ℕ → ℕ → ShardAccounts → NodeResult ShardAccounts
  stored_account true acc_id acc root hash lt accounts = x.remove_account acc_id accounts
  stored_account false acc_id acc root hash lt accounts =
      bind (x.with_account_root root hash lt)
        λ shard_acc. x.set_account acc_id shard_acc acc accounts

  -- An error of `add_raw_transaction` is only logged; what it did before stays.
  abbrev pub logged : NodeResult (Unit {0}) → NodeResult (Unit {0})
  logged (ok u) = ok tt
  logged (err error) = ok tt
  logged panic = panic

  unfoldable pub record_transaction : AccountId → ShardAccount → Prepared e x → Act e x (Unit {0})
  record_transaction acc_id shard_acc p b =
      let transaction =
        x.set_prev_trans (x.last_trans_hash shard_acc) (x.last_trans_lt shard_acc) p.transaction in
      (do
        modify (λ b'. record b' { end_lt = max b'.end_lt p.max_lt })
        tr_cell ← lift (x.serialize_transaction transaction)
        modify (keep_trace p.trace (repr_hash tr_cell))
        acc ← lift (x.account_of_cell p.acc_root)
        accounts ← lift (
            stored_account (x.account_is_none acc) acc_id acc p.acc_root (repr_hash tr_cell)
              (x.logical_time transaction) b.accounts)
        modify (λ b'. record b' { accounts = accounts })
        (λ b'. let (r, b'') = add_raw_transaction transaction tr_cell b' in (logged r, b'')))
        b

  unfoldable pub execute : Message → Config → AccountId → Act e x (Unit {0})
  execute message config acc_id = do
    modify (λ b. record b { total_message_processed = (b.total_message_processed + 1) % 2 ^ 64 })
    found ← (λ b. (x.find_account acc_id b.accounts, b))
    shard_acc ← (λ b. (find_or_provide found b.accounts_provider acc_id, b))
    p ← (λ b.
        try_prepare_transaction e x config (x.account_cell shard_acc) message
          (max b.start_lt ((x.last_trans_lt shard_acc + 1) % 2 ^ 64)) b)
    record_transaction acc_id shard_acc p
