-- ===== src/Engine/Shardchain.antt =====
-- node/src/engine/shardchain.rs: a chain of blocks of one shard. The queue of inbound messages is
-- shared with the engine, so it is an argument of the calls that read it.
pub mod Restart
pub mod Linked
mod Examples
use evernode_se.Common.{ℕ, ◌+◌, ◌%◌, ◌^◌, ◌≡◌, Bool, true, false, Option, none, some, if◌then◌else◌}
use evernode_se.Common.Int.{ℤ}
use evernode_se.Common.Result.{NodeResult, ok, err, panic, ◌>>=◌ as bind}
use evernode_se.Common.Exec.{continue}
use evernode_se.Engine.Time.{BlockTimeMode}
use evernode_se.Engine.Messages.{InMessagesQueue}
use evernode_se.Block.Ever.{EverBlock}
use evernode_se.Block.ShardBlock.{Traces}
use evernode_se.Block.Executor.{ExecLib}
use evernode_se.Block.Finality.{
  BlockFinality, Services, with_params as new_finality, get_last_info,
  out_message_queue_is_empty as finality_queue_is_empty,
}
use evernode_se.Block.Finality.Disk.{load, put_block_with_info}
use evernode_se.Block.Builder.{BlockBuilder, with_params as new_builder}
use evernode_se.Block.Builder.Build.{PreparedBlock, build_block as fill_and_finalize}

pub record Shardchain (e : EverBlock) (x : ExecLib e) (S D : Type 0) : Type 0 where
  pub finality_was_loaded : Bool
  pub blockchain_config : x.Config
  pub block_finality : BlockFinality e S D
  pub block_gas_limit : ℕ
  pub accounts_provider : Option (x.AccountId → NodeResult (Option x.ShardAccount))

module _ (e : EverBlock) (x : ExecLib e) {S D : Type 0} (sv : Services e S D) where
  open x use {Message, Config, AccountId, ShardAccount}

  -- `gas_limit` is `get_gas_config(..).block_gas_limit` of the configuration.
  unfoldable pub with_params :
      e.ShardIdent
      → ℤ
      → Config
      → ℕ
      → Option D
      → S
      → Option (AccountId → NodeResult (Option ShardAccount))
      → NodeResult (Shardchain e x S D)
  with_params shard global_id config gas_limit documents_db storage provider =
      let (r, bf) = load e sv (new_finality e sv global_id shard storage documents_db) in
      bind r λ loaded. ok (record {
        finality_was_loaded = loaded;
        blockchain_config = config;
        block_finality = bf;
        block_gas_limit = gas_limit;
        accounts_provider = provider;
      })

  unfoldable pub out_message_queue_is_empty : Shardchain e x S D → Bool
  out_message_queue_is_empty c = finality_queue_is_empty e sv c.block_finality

  unfoldable pub get_last_finalized_block : Shardchain e x S D → NodeResult e.Block
  get_last_finalized_block c = ok c.block_finality.last_finalized_block.block

  unfoldable pub nex_seq_no : Shardchain e x S D → NodeResult ℕ
  nex_seq_no c =
      bind (get_last_info e sv c.block_finality) λ info. ok ((e.state_seq_no info.0 + 1) % 2 ^ 32)

  unfoldable pub build_with :
      ℕ
      → Config
      → InMessagesQueue Message
      → NodeResult (BlockBuilder e x)
      → NodeResult (PreparedBlock e) × InMessagesQueue Message
  build_with fuel config q (ok collator) = fill_and_finalize e x config fuel collator q
  build_with fuel config q (err error) = (err error, q)
  build_with fuel config q panic = (panic, q)

  unfoldable pub new_collator :
      ℕ → ℕ → BlockTimeMode → Shardchain e x S D → NodeResult (BlockBuilder e x)
  new_collator seed time time_mode c = bind (get_last_info e sv c.block_finality) λ info.
      new_builder e x info.0 info.1 time time_mode c.block_gas_limit c.accounts_provider seed

  -- The fuel is for the rounds of new messages, and the seed is drawn by the builder.
  unfoldable pub build_block :
      ℕ
      → ℕ
      → ℕ
      → BlockTimeMode
      → Shardchain e x S D
      → InMessagesQueue Message
      → NodeResult (PreparedBlock e) × InMessagesQueue Message
  build_block fuel seed time time_mode c q =
      build_with fuel c.blockchain_config q (new_collator seed time time_mode c)

  unfoldable pub finality_and_apply_block :
      ℕ → e.Block → e.State → Traces → Shardchain e x S D → NodeResult e.State × Shardchain e x S D
  finality_and_apply_block mc_seq_no block applied_shard traces c =
      let (r, bf) =
        put_block_with_info e sv mc_seq_no block applied_shard traces c.block_finality in
      (bind r λ _. ok applied_shard, record c { block_finality = bf })

  unfoldable pub apply_built :
      ℕ
      → NodeResult (PreparedBlock e)
      → Shardchain e x S D
      → NodeResult (Option e.Block) × Shardchain e x S D
  apply_built mc_seq_no (ok built) c =
      if built.is_empty
      then (ok none, c)
      else continue
          (finality_and_apply_block mc_seq_no built.block built.state built.transaction_traces c).0
          (λ _ c'. (ok (some built.block), c'))
          (finality_and_apply_block mc_seq_no built.block built.state built.transaction_traces c).1
  apply_built mc_seq_no (err error) c = (err error, c)
  apply_built mc_seq_no panic c = (panic, c)

  unfoldable pub generate_block :
      ℕ
      → ℕ
      → ℕ
      → ℕ
      → BlockTimeMode
      → Shardchain e x S D
      → InMessagesQueue Message
      → NodeResult (Option e.Block) × (Shardchain e x S D × InMessagesQueue Message)
  generate_block fuel seed mc_seq_no time time_mode c q =
      let (built, q') = build_block fuel seed time time_mode c q in
      let (made, c') = apply_built mc_seq_no built c in (made, (c', q'))
