-- ===== src/Block/Builder/SampleExec.antt =====
-- A small library in place of ever_executor, for tests, over the cells, states and blocks of another: a message is a number, the number of its
-- account. The transaction of message 7 sends the internal message 8.
use evernode_se.Common.{
  ℕ, ◌+◌, ◌==◌, not, true, false, none, some, List, [], ◌∷◌, map, inl, if◌then◌else◌,
}
use evernode_se.Common.Int.{pos}
use evernode_se.Common.Result.{ok}
use evernode_se.Block.Ever.{EverBlock}
use evernode_se.Block.Sample.{sample}
use evernode_se.Block.Executor.{ExecLib, NewInfo}

abbrev pub exec_over :
    (e : EverBlock)
    → (ℕ → e.Cell)
    → (e.Cell → ℕ)
    → e.ShardIdent
    → (ℕ → e.State → e.State)
    → (NewInfo e.ShardIdent → e.Block)
    → ExecLib e
exec_over e cell number shard set_number make = record {
  Message = ℕ;
  AccountId = ℕ;
  Address = ℕ;
  Fee = ℕ;
  Account = ℕ;
  ShardAccount = ℕ;
  ShardAccounts = List ℕ;
  Transaction = ℕ;
  Reason = Unit {0};
  Config = Unit {0};
  QueueKey = ℕ;
  Envelope = ℕ;
  EnqueuedMsg = ℕ;
  OutMsgQueue = List ℕ;
  InMsg = ℕ;
  OutMsg = ℕ;
  InMsgDescr = List ℕ;
  OutMsgDescr = List ℕ;
  AccountBlocks = List ℕ;
  CopyleftRewards = ℕ;
  Reward = ℕ;
  Currency = ℕ;
  int_dst_account_id = some;
  int_header = λ m. some (m, m, 0);
  message_lt = some;
  workchain_id = λ m. some (pos 0);
  serialize_message = λ m. ok (cell m);
  message_of_cell = λ c. ok (number c);
  default_account_id = 0;
  contains_address = λ s a. ok true;
  account_of_cell = λ c. ok (number c);
  account_is_none = λ a. a == 0;
  last_tr_time = some;
  set_last_tr_time = λ t a. t;
  serialize_account = λ a. ok (cell a);
  default_shard_account = 1;
  account_cell = cell;
  last_trans_hash = λ a. 0;
  last_trans_lt = λ a. a;
  with_account_root = λ c h lt. ok lt;
  find_account = λ a l. ok none;
  set_account = λ a sa acc l. ok (a ∷ l);
  remove_account = λ a l. ok l;
  full_balance = λ l. 100;
  with_account_and_message = λ a m lt. ok m;
  set_now = λ n t. t;
  write_aborted = λ p t. ok t;
  write_state_update = λ a b t. ok t;
  gas_used = λ t. some 10;
  is_aborted = λ t. ok false;
  set_prev_trans = λ h lt t. t;
  serialize_transaction = λ t. ok (cell t);
  logical_time = λ t. t;
  copyleft_reward = λ t. none;
  in_msg_cell = λ t. some (cell t);
  out_msgs = λ t. ok (if t == 7 then some 8 ∷ [] else []);
  queue_items = λ q. ok (map (λ m. (m, m, m)) q);
  read_enqueued = ok;
  remove_enqueued = λ k q. ok q;
  set_enqueued = λ k m q. ok (m ∷ q);
  with_message_and_fee = λ m f. ok m;
  with_param = λ lt env. ok env;
  out_msg_key = λ s p h. h;
  account_prefix = ok;
  in_immediate = λ env c f. ok (number c);
  in_external = λ c d. number c;
  out_new = λ m c. number c;
  out_external = λ c d. number c;
  empty_in = [];
  empty_out = [];
  empty_blocks = [];
  empty_rewards = 0;
  set_in_msg = λ h m d. ok (m ∷ d);
  set_out_msg = λ h m d. ok (m ∷ d);
  add_transaction = λ t c bs. ok (t ∷ bs);
  add_reward = λ r rs. ok (r + rs);
  state_shard = λ s. shard;
  state_global_id = λ s. pos 0;
  shard_workchain = λ s. pos 0;
  read_accounts = λ s. ok [];
  read_out_msg_queue = λ s. ok [];
  set_seq_no = set_number;
  write_accounts = λ l s. ok s;
  write_out_msg_queue = λ q s. ok s;
  fees_of_blocks = λ bs. 0;
  add_in_fees = λ d c. ok c;
  value_imported = λ d. 0;
  value_exported = λ d. 0;
  takes_seq_no = λ n. not (n == 0);
  takes_prev_ref = λ p. true;
  block_with_params = λ s i f a b c d. ok (make i);
  execute_with = λ c at lt last_lt seed global_id m root. record {
    result = inl m;
    acc_root = root;
    last_tr_lt = last_lt;
    trace = [];
  };
}

abbrev pub sample_exec : ExecLib sample
sample_exec = exec_over sample (λ n. n) (λ c. c) (pos 0) (λ n s. n) (λ i. i.seq_no)
