-- ===== src/Block/Builder.antt =====
-- node/src/block/builder.rs: the execution of one message and the record of its transaction.
-- Additions of u64 wrap. The seed is given, since the source draws it at random.
pub mod Execute
pub mod Build
pub mod Counts
pub mod Limits
pub mod OneMessage
pub mod Rounds
pub mod Header
mod Examples
pub mod SampleExec
use evernode_se.Common.{
  ℕ, zero, suc, ◌+◌, ◌%◌, ◌^◌, max, Bool, true, false, ◌&&◌, ◌||◌, Option, none, some, List, [],
  ◌∷◌, ◌++◌, ltb, if◌then◌else◌, ◌⊎◌, inl, inr,
}
use evernode_se.Common.Int.{ℤ, pos, negsuc, ◌==ℤ◌}
use evernode_se.Common.Assoc
use evernode_se.Common.Assoc.{ℕ_key}
use evernode_se.Common.Result.{NodeResult, ok, err, panic, ◌>>=◌ as bind, invalid_data}
use evernode_se.Common.Exec.{Exec, lift, gets, modify, continue, ◌>>=◌, ◌>>◌}
use evernode_se.Engine.Time.{BlockTimeMode, is_seq}
use evernode_se.Block.Ever.{EverBlock}
use evernode_se.Block.ShardBlock.{EngineTraceInfoData, Traces}
use evernode_se.Block.Finality.{BlkPrevInfo}
use evernode_se.Block.Executor.{
  ExecLib, ExecutorError, no_accept_error, no_funds_to_import_msg, ext_msg_compute_skipped,
  other_error, ComputePhase, vm_failed, skipped_no_state, skipped_no_gas, skipped_for, NewInfo,
}

pub record BlockBuilder (e : EverBlock) (x : ExecLib e) : Type 0 where
  pub shard_state : e.State
  pub accounts : x.ShardAccounts
  pub block_info : NewInfo e.ShardIdent
  pub rand_seed : ℕ
  pub new_messages : List (x.Message × e.Cell)
  pub from_prev_blk : x.Currency
  pub in_msg_descr : x.InMsgDescr
  pub out_msg_descr : x.OutMsgDescr
  pub out_queue : x.OutMsgQueue
  pub block_gas_limit : ℕ
  pub account_blocks : x.AccountBlocks
  pub total_gas_used : ℕ
  pub total_message_processed : ℕ
  pub start_lt : ℕ
  pub end_lt : ℕ
  pub copyleft_rewards : x.CopyleftRewards
  pub transaction_traces : Traces
  pub time_mode : BlockTimeMode
  -- the account of an address in the shard's workchain
  pub accounts_provider : Option (x.AccountId → NodeResult (Option x.ShardAccount))

abbrev pub or_zero : Option ℕ → ℕ
or_zero none = 0
or_zero (some n) = n

abbrev pub non_empty : List EngineTraceInfoData → Option (List EngineTraceInfoData)
non_empty [] = none
non_empty (t ∷ ts) = some (t ∷ ts)

-- The exit argument that is kept: an i32 other than 0.
unfoldable pub exit_arg : Option (Option ℤ) → Option ℤ
exit_arg none = none
exit_arg (some none) = none
exit_arg (some (some v)) = if v ==ℤ pos 0 then none else some v

module _ (e : EverBlock) (x : ExecLib e) where
  open e use {State, Cell, repr_hash, state_seq_no}
  open x use {Message, AccountId, Account, ShardAccount, Transaction, Config, Reason}

  abbrev pub Act {ℓ} : Type ℓ → Type ℓ
  Act A = BlockBuilder e x → NodeResult A × BlockBuilder e x

  -- An `unwrap` of a call that may fail.
  abbrev pub or_panics : Bool → NodeResult (Unit {0})
  or_panics true = ok tt
  or_panics false = panic

  unfoldable pub with_params :
      State
      → BlkPrevInfo
      → ℕ
      → BlockTimeMode
      → ℕ
      → Option (AccountId → NodeResult (Option ShardAccount))
      → ℕ
      → NodeResult (BlockBuilder e x)
  with_params shard_state prev_ref time time_mode block_gas_limit accounts_provider seed =
      bind (x.read_accounts shard_state) λ accounts.
        bind (x.read_out_msg_queue shard_state) λ out_queue.
          let start_lt : ℕ = (prev_ref.end_lt + 1) % 2 ^ 64 in
          let seq_no : ℕ = (state_seq_no shard_state + 1) % 2 ^ 32 in
          bind (or_panics (x.takes_seq_no seq_no && x.takes_prev_ref prev_ref)) λ _. ok (record {
            shard_state = shard_state;
            accounts = accounts;
            block_info = record {
              shard = x.state_shard shard_state;
              seq_no = seq_no;
              prev_ref = prev_ref;
              gen_utime = time;
              start_lt = start_lt;
              end_lt = 0;
            };
            rand_seed = seed;
            new_messages = [];
            from_prev_blk = x.full_balance accounts;
            in_msg_descr = x.empty_in;
            out_msg_descr = x.empty_out;
            out_queue = out_queue;
            block_gas_limit = block_gas_limit;
            account_blocks = x.empty_blocks;
            total_gas_used = 0;
            total_message_processed = 0;
            start_lt = start_lt;
            end_lt = (start_lt + 1) % 2 ^ 64;
            copyleft_rewards = x.empty_rewards;
            transaction_traces = [];
            time_mode = time_mode;
            accounts_provider = accounts_provider;
          })

  unfoldable pub is_limits_reached : BlockBuilder e x → Bool
  is_limits_reached b =
      ltb b.block_gas_limit b.total_gas_used
      || (is_seq b.time_mode && ltb 0 b.total_message_processed)

  unfoldable pub at_and_lt : BlockBuilder e x → ℕ × ℕ
  at_and_lt b = (b.block_info.gen_utime, b.start_lt)

  -- A transaction, the logical time and the account that it leaves, and a trace.
  pub record Prepared : Type 0 where
    pub transaction : Transaction
    pub max_lt : ℕ
    pub acc_root : Cell
    pub trace : Option (List EngineTraceInfoData)

  abbrev pub add_gas : Option ℕ → BlockBuilder e x → BlockBuilder e x
  add_gas none b = b
  add_gas (some gas) b = record b { total_gas_used = (b.total_gas_used + gas) % 2 ^ 64 }

  abbrev pub phase_of : ExecutorError Reason → Account → NodeResult (ComputePhase Reason)
  phase_of (no_accept_error code arg) account = ok (vm_failed code (exit_arg arg))
  phase_of no_funds_to_import_msg account =
      ok (if x.account_is_none account then skipped_no_state else skipped_no_gas)
  phase_of (ext_msg_compute_skipped reason) account = ok (skipped_for reason)
  phase_of (other_error error) account = err error

  -- The branch on the executor's result. `root` and `lt` are what the executor left.
  unfoldable pub prepared :
      Transaction ⊎ ExecutorError Reason
      → Cell
      → ℕ
      → List EngineTraceInfoData
      → Message
      → ℕ
      → Act Prepared
  prepared (inl transaction) root lt trace msg last_lt = (do
    modify (add_gas (x.gas_used transaction))
    aborted ← lift (x.is_aborted transaction)
    (λ b'. (
      ok (record {
        transaction = transaction;
        max_lt = lt;
        acc_root = root;
        trace = if aborted then non_empty trace else none;
      }),
      b',
    )))
  prepared (inr error) root lt' trace msg last_lt = (do
    found ← lift (x.account_of_cell root)
    (λ b.
        let lt : ℕ =
          max (or_zero (x.last_tr_time found))
            (max last_lt ((or_zero (x.message_lt msg) + 1) % 2 ^ 64)) in
        let account : Account = x.set_last_tr_time lt found in
        (do
          new_root ← lift (x.serialize_account account)
          blank ← lift (x.with_account_and_message account msg lt)
          phase ← lift (phase_of error account)
          described ← lift (x.write_aborted phase (x.set_now (at_and_lt b).0 blank))
          transaction ← lift (x.write_state_update (repr_hash root) (repr_hash new_root) described)
          (λ b'. (
            ok (record {
              transaction = transaction;
              max_lt = lt;
              acc_root = new_root;
              trace = non_empty trace;
            }),
            b',
          )))
          b))

  unfoldable pub try_prepare_transaction : Config → Cell → Message → ℕ → Act Prepared
  try_prepare_transaction config acc_root msg last_lt b =
      let out =
        x.execute_with config (at_and_lt b).0 (at_and_lt b).1 last_lt b.rand_seed
          (x.state_global_id b.shard_state) msg acc_root in
      prepared out.result out.acc_root out.last_tr_lt out.trace msg last_lt b
