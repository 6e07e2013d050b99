-- ===== src/Engine/Shardchain/Linked.antt =====
-- The blocks that a chain generates over its life: a block and its next, and the life of a chain.
pub mod Header
pub mod Tip
pub mod Growth
mod Sample
mod Examples
use evernode_se.Common.{
  ℕ, ◌+◌, ◌%◌, ◌^◌, ◌≡◌, refl, sym, ap, subst, ◌∙◌, Option, none, some, List, [], ◌∷◌, arith,
}
use evernode_se.Common.Int.{ℤ}
use evernode_se.Common.Result.{NodeResult, ok, err, panic, >>=-eq-ok, ok-injective}
use evernode_se.Data.Kv.{IsKv}
use evernode_se.Engine.Time.{BlockTimeMode}
use evernode_se.Engine.Messages.{InMessagesQueue}
use evernode_se.Engine.Shardchain.{
  Shardchain, build_with, new_collator, build_block, apply_built, generate_block, with_params,
}
use evernode_se.Engine.Shardchain.Restart.{Put, apply_built-Put}
use evernode_se.Block.Ever.{EverBlock, IsEverBlock, BlockInfo}
use evernode_se.Block.ShardBlock.{ShardBlock, with_block_and_state, unwrap}
use evernode_se.Block.ShardBlock.RoundTrip.{without_traces}
use evernode_se.Block.Executor.{ExecLib, NewInfo}
use evernode_se.Block.Finality.{
  BlockFinality, Services, BlkPrevInfo, get_last_info, get_last_block_info,
  with_params as new_finality,
}
use evernode_se.Block.Finality.Disk.{load, put_block_with_info}
use evernode_se.Block.Finality.Restart.{IsNew}
use evernode_se.Block.Finality.Life.{IsSynced, put-IsSynced, Step-IsSynced, restart}
use evernode_se.Block.Builder.{BlockBuilder, with_params as new_builder}
use evernode_se.Block.Builder.Build.{PreparedBlock, build_block as fill_and_finalize}
use evernode_se.Block.Builder.Header.{
  IsHeaderLib, IsHeaded, build_block-IsHeaded as builder-IsHeaded,
}

module _ (e : EverBlock) (x : ExecLib e) {S D : Type 0} (sv : Services e S D)
    (prev_of : e.Block → BlkPrevInfo) where
  open x use {Message}

  -- The next block after a block: its number and its first logical time come next, and it refers to the
  -- block by its number, its last logical time and its two hashes.
  pub record Follows (block next : e.Block) : Type 0 where
    pub state : e.State
    pub sb : ShardBlock e
    pub info : BlockInfo
    pub next_info : BlockInfo
    pub written : with_block_and_state e block state ≡ ok sb
    pub has_info : e.read_info block ≡ ok info
    pub has_next : e.read_info next ≡ ok next_info
    pub seq_no : next_info.seq_no ≡ (info.seq_no + 1) % 2 ^ 32
    pub start_lt : next_info.start_lt ≡ (info.end_lt + 1) % 2 ^ 64
    pub prev : prev_of next ≡ record {
      end_lt = info.end_lt;
      seq_no = info.seq_no;
      root_hash = sb.root_hash;
      file_hash = sb.file_hash;
    }

  -- The last block comes first.
  pub data IsLinked : List e.Block → Type 0 where
    first : (block : e.Block) → IsLinked (block ∷ [])
    later :
        {block next : e.Block} {blocks : List e.Block}
        → Follows block next
        → IsLinked (block ∷ blocks)
        → IsLinked (next ∷ block ∷ blocks)

  -- The life of a chain after its first block, with the blocks that it has generated: generations that
  -- give a block or none, and starts of another chain on the storage that is there.
  pub data Grows (c : Shardchain e x S D) (block : e.Block)
      : Shardchain e x S D → e.Block → List e.Block → Type 0 where
    born : Grows c block c block (block ∷ [])
    generated :
        {c1 c2 : Shardchain e x S D} {b1 b2 : e.Block} {blocks : List e.Block}
        (fuel seed mc time : ℕ) (mode : BlockTimeMode) (q q' : InMessagesQueue Message)
        → Grows c block c1 b1 blocks
        → ((state : e.State) (sb : ShardBlock e)
            → with_block_and_state e b2 state ≡ ok sb
            → IsNew e sv c1.block_finality sb)
        → generate_block e x sv fuel seed mc time mode c1 q ≡ (ok (some b2), (c2, q'))
        → Grows c block c2 b2 (b2 ∷ blocks)
    idle :
        {c1 c2 : Shardchain e x S D} {b1 : e.Block} {blocks : List e.Block} (fuel seed mc time : ℕ)
        (mode : BlockTimeMode) (q q' : InMessagesQueue Message)
        → Grows c block c1 b1 blocks
        → generate_block e x sv fuel seed mc time mode c1 q ≡ (ok none, (c2, q'))
        → Grows c block c2 b1 blocks
    restarted :
        {c1 c2 : Shardchain e x S D} {b1 : e.Block} {blocks : List e.Block} (shard : e.ShardIdent)
        (global_id : ℤ) (config : x.Config) (gas_limit : ℕ) (documents_db : Option D)
        (provider : Option (x.AccountId → NodeResult (Option x.ShardAccount)))
        → Grows c block c1 b1 blocks
        → with_params e x sv shard global_id config gas_limit documents_db c1.block_finality.storage
            provider
          ≡ ok c2
        → Grows c block c2 b1 blocks
