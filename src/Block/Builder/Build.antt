-- ===== src/Block/Builder/Build.antt =====
-- node/src/block/builder.rs: `build_block` and `finalize_block`. The queue of inbound messages is
-- the engine's; what other threads put into it during a build is not modelled.
use evernode_se.Common.{
  ℕ, zero, suc, ◌+◌, ◌%◌, ◌^◌, max, Bool, true, false, not, ◌||◌, Option, none, some, List, [], ◌∷◌,
  length, leb, if◌then◌else◌,
}
use evernode_se.Common.Int.{ℤ}
use evernode_se.Common.Result.{NodeResult, ok, err, panic, ◌>>=◌ as bind, or_err, failure_error}
use evernode_se.Common.Exec.{lift, modify, continue, ◌>>=◌, ◌>>◌}
use evernode_se.Engine.Messages.{InMessagesQueue, dequeue}
use evernode_se.Block.Ever.{EverBlock}
use evernode_se.Block.ShardBlock.{Traces}
use evernode_se.Block.Executor.{ExecLib}
use evernode_se.Block.Builder.{BlockBuilder, Act, is_limits_reached}
use evernode_se.Block.Builder.Execute.{execute}

-- `sort_by` on the logical time: a stable sort.
module _ {A B : Type 0} where
  unfoldable pub insert_by_lt : A × B × ℕ → List (A × B × ℕ) → List (A × B × ℕ)
  insert_by_lt i [] = i ∷ []
  insert_by_lt i (j ∷ js) = if leb i.2 j.2 then i ∷ j ∷ js else j ∷ insert_by_lt i js

  unfoldable pub sort_by_lt : List (A × B × ℕ) → List (A × B × ℕ)
  sort_by_lt [] = []
  sort_by_lt (i ∷ is) = insert_by_lt i (sort_by_lt is)

-- `is_empty` and `block_full`
pub record Flags : Type 0 where
  pub is_empty : Bool
  pub block_full : Bool

pub record PreparedBlock (e : EverBlock) : Type 0 where
  pub block : e.Block
  pub state : e.State
  pub is_empty : Bool
  pub transaction_traces : Traces

module _ (e : EverBlock) (x : ExecLib e) (config : x.Config) where
  open x use {Message, AccountId, EnqueuedMsg, QueueKey, Address, Fee}

  abbrev pub execute_for : Message → Option AccountId → Act e x (Unit {0})
  execute_for message none b = (ok tt, b)
  execute_for message (some acc_id) b = execute e x message config acc_id b

  -- An internal message: it is executed if it names an account, and leaves the queue.
  unfoldable pub import_one : QueueKey → EnqueuedMsg → Act e x (Unit {0})
  import_one key enq = do
    message ← lift (x.read_enqueued enq)
    execute_for message (x.int_dst_account_id message)
    queue ← (λ b. (x.remove_enqueued key b.out_queue, b))
    modify (λ b. record b { out_queue = queue })

  unfoldable pub import_internal : List (QueueKey × EnqueuedMsg × ℕ) → Bool → Act e x Flags
  import_internal [] empty b = (ok (record { is_empty = empty; block_full = false }), b)
  import_internal ((key, enq, lt) ∷ rest) empty b =
      continue (import_one key enq b).0
        (λ _ b'.
          if is_limits_reached e x b'
          then (ok (record { is_empty = false; block_full = true }), b')
          else import_internal rest false b')
        (import_one key enq b).1

  -- The builder and the queue of inbound messages.
  abbrev pub External : Type 0
  External = NodeResult Flags × (BlockBuilder e x × InMessagesQueue Message)

  -- After an external message. An error of `execute` is only logged.
  unfoldable pub after_external :
      NodeResult (Unit {0})
      → BlockBuilder e x
      → InMessagesQueue Message
      → (BlockBuilder e x → External)
      → External
  after_external panic b q rest = (panic, (b, q))
  after_external (ok u) b q rest =
      if is_limits_reached e x b
      then (ok (record { is_empty = false; block_full = true }), (b, q))
      else rest b
  after_external (err error) b q rest =
      if is_limits_reached e x b
      then (ok (record { is_empty = false; block_full = true }), (b, q))
      else rest b

  -- `msg.int_dst_account_id().unwrap()` and the execution.
  unfoldable pub execute_external :
      Option AccountId
      → Message
      → BlockBuilder e x
      → InMessagesQueue Message
      → (BlockBuilder e x → External)
      → External
  execute_external none msg b q rest = (panic, (b, q))
  execute_external (some acc_id) msg b q rest =
      after_external (execute e x msg config acc_id b).0 (execute e x msg config acc_id b).1 q rest

  unfoldable pub external_step :
      Option Message
      → Bool
      → BlockBuilder e x
      → InMessagesQueue Message
      → (BlockBuilder e x → External)
      → External
  external_step none empty b q rest = (ok (record { is_empty = empty; block_full = false }), (b, q))
  external_step (some msg) empty b q rest = execute_external (x.int_dst_account_id msg) msg b q rest

  -- The loop `while let Some(msg) = queue.dequeue(..)`, with fuel for the rounds.
  unfoldable pub import_external :
      ℕ → ℤ → Bool → BlockBuilder e x → InMessagesQueue Message → External
  import_external zero w empty b q = (panic, (b, q))
  import_external (suc fuel) w empty b q =
      external_step (dequeue x.workchain_id w q).0 empty b (dequeue x.workchain_id w q).1
        (λ b'. import_external fuel w false b' (dequeue x.workchain_id w q).1)

  -- A new message that leaves the shard, or comes when the block is full, is put into the queue.
  unfoldable pub enqueue_new : ℕ → x.Envelope → AccountId → e.Cell → e.Cell → Act e x (Unit {0})
  enqueue_new created_lt env acc_id msg_cell tr_cell b =
      (do
        enq ← lift (x.with_param created_lt env)
        prefix ← lift (x.account_prefix acc_id)
        queue ← lift (
            x.set_enqueued
              (x.out_msg_key (x.state_shard b.shard_state) prefix (e.repr_hash msg_cell)) enq
              b.out_queue)
        modify (λ b'. record b' { out_queue = queue })
        descr ← lift (x.set_out_msg (e.repr_hash msg_cell) (x.out_new enq tr_cell) b.out_msg_descr)
        modify (λ b'. record b' { out_msg_descr = descr }))
        b

  abbrev pub or_default_account : Option AccountId → AccountId
  or_default_account none = x.default_account_id
  or_default_account (some acc_id) = acc_id

  -- What the tests on a new message decide, with the flag `block_full` after it.
  unfoldable pub deliver_new :
      Bool → Bool → Message → ℕ → x.Envelope → AccountId → e.Cell → e.Cell → Act e x Bool
  deliver_new inside full message created_lt env acc_id msg_cell tr_cell b =
      if not inside || full
      then continue (enqueue_new created_lt env acc_id msg_cell tr_cell b).0 (λ _ b'. (ok full, b'))
          (enqueue_new created_lt env acc_id msg_cell tr_cell b).1
      else continue (execute e x message config acc_id b).0
          (λ _ b'. (ok (full || is_limits_reached e x b'), b'))
          (execute e x message config acc_id b).1

  unfoldable pub process_new : Message → e.Cell → Bool → Act e x Bool
  process_new message tr_cell full b =
      (do
        header ← lift (or_err (x.int_header message) (failure_error "message is not internal"))
        msg_cell ← lift (x.serialize_message message)
        env ← lift (x.with_message_and_fee message header.2)
        inside ← lift (x.contains_address (x.state_shard b.shard_state) header.0)
        deliver_new inside full message header.1 env
            (or_default_account (x.int_dst_account_id message)) msg_cell tr_cell)
        b

  unfoldable pub process_round : List (Message × e.Cell) → Bool → Act e x Bool
  process_round [] full b = (ok full, b)
  process_round ((message, tr_cell) ∷ rest) full b =
      continue (process_new message tr_cell full b).0 (λ full'. process_round rest full')
        (process_new message tr_cell full b).1

  -- The loop `while !self.new_messages.is_empty()`, with fuel for the rounds.
  unfoldable pub process_rounds : ℕ → List (Message × e.Cell) → Flags → Act e x Flags
  process_rounds fuel [] flags b = (ok flags, b)
  process_rounds zero (m ∷ ms) flags b = (panic, b)
  process_rounds (suc fuel) (m ∷ ms) flags b =
      let taken = process_round (m ∷ ms) flags.block_full (record b { new_messages = [] }) in
      continue taken.0
        (λ full b'.
          process_rounds fuel b'.new_messages (record { is_empty = false; block_full = full }) b')
        taken.1

  abbrev pub largest_end : ℕ → ℕ → ℕ
  largest_end end_lt start_lt = max end_lt ((start_lt + 1) % 2 ^ 64)

  unfoldable pub finalize_block : BlockBuilder e x → NodeResult (e.Block × e.State)
  finalize_block b =
      bind (x.write_accounts b.accounts (x.set_seq_no b.block_info.seq_no b.shard_state)) λ written.
        bind (x.write_out_msg_queue b.out_queue written) λ new_shard_state.
          bind (x.add_in_fees b.in_msg_descr (x.fees_of_blocks b.account_blocks)) λ fees.
            bind
              (x.block_with_params b.shard_state
                (record b.block_info { end_lt = largest_end b.end_lt b.start_lt })
                (record {
                  fees_collected = fees;
                  imported = x.value_imported b.in_msg_descr;
                  exported = x.value_exported b.out_msg_descr;
                  from_prev_blk = b.from_prev_blk;
                  to_next_blk = x.full_balance b.accounts;
                  copyleft_rewards = b.copyleft_rewards;
                })
                b.in_msg_descr b.out_msg_descr b.account_blocks b.rand_seed)
              λ block. ok (block, new_shard_state)

  abbrev pub prepared_block :
      Bool → Traces → NodeResult (e.Block × e.State) → NodeResult (PreparedBlock e)
  prepared_block empty traces made = bind made λ bs.
      ok (record { block = bs.0; state = bs.1; is_empty = empty; transaction_traces = traces })

  -- The second part, on the builder after the first part.
  unfoldable pub import_messages :
      ℤ → NodeResult Flags × BlockBuilder e x → InMessagesQueue Message → External
  import_messages w (ok flags, b) q =
      if flags.block_full
      then (ok flags, (b, q))
      else import_external (suc (length q.storage)) w flags.is_empty b q
  import_messages w (err error, b) q = (err error, (b, q))
  import_messages w (panic, b) q = (panic, (b, q))

  -- The third part, on the builder and the queue after the first two.
  unfoldable pub process_new_messages : ℕ → External → External
  process_new_messages fuel (made, (b, q)) =
      let (r, b') = continue made (λ flags b'. process_rounds fuel b'.new_messages flags b') b in
      (r, (b', q))

  -- `build_block` up to the call of `finalize_block`. `fuel` is for the rounds of new messages, which
  -- the source does not bound.
  unfoldable pub fill_block : ℕ → BlockBuilder e x → InMessagesQueue Message → External
  fill_block fuel b q = process_new_messages fuel (
      import_messages (x.shard_workchain (x.state_shard b.shard_state))
        (continue (x.queue_items b.out_queue) (λ items. import_internal (sort_by_lt items) true) b)
        q)

  unfoldable pub build_block :
      ℕ
      → BlockBuilder e x
      → InMessagesQueue Message
      → NodeResult (PreparedBlock e) × InMessagesQueue Message
  build_block fuel b q =
      let filled = fill_block fuel b q in
      (
        bind filled.0 λ flags.
            prepared_block flags.is_empty filled.1.0.transaction_traces
              (finalize_block (record filled.1.0 { transaction_traces = [] })),
        filled.1.1,
      )
