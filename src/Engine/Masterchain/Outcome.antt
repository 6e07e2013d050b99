-- ===== src/Engine/Masterchain/Outcome.antt =====
-- What the generation of a master block leaves behind on each branch.
use evernode_se.Common.{
  ℕ, ◌≡◌, refl, Bool, true, false, not, ◌&&◌, Option, none, some, if◌then◌else◌,
}
use evernode_se.Common.Result.{NodeResult, ok, err, panic, ◌>>=◌ as bind}
use evernode_se.Common.Exec.{continue}
use evernode_se.Engine.Time.{BlockTimeMode}
use evernode_se.Engine.Messages.{InMessagesQueue}
use evernode_se.Engine.Shardchain.{build_block, finality_and_apply_block}
use evernode_se.Engine.Masterchain.{
  Masterchain, McLib, master_block, apply_master, put_master, generate_block,
}
use evernode_se.Block.Ever.{EverBlock}
use evernode_se.Block.Executor.{ExecLib}
use evernode_se.Block.ShardBlock.{Traces}
use evernode_se.Block.Finality.{Services}
use evernode_se.Block.Finality.Disk.{put_block_with_info}
use evernode_se.Block.Builder.Build.{PreparedBlock}

module _ (e : EverBlock) (x : ExecLib e) (lib : McLib e x) {S D : Type 0}
    (sv : Services e S D) where
  open x use {Message}

  -- A master block that was made of a built block and put into the finality.
  pub record Made (mc : ℕ) (m : Masterchain e x S D) (block : e.Block) (m' : Masterchain e x S D)
      : Type 0 where
    pub built : e.Block
    pub state : e.State
    pub traces : Traces
    pub carries : master_block e x lib sv m built ≡ ok block
    pub done :
        (put_block_with_info e sv mc block state traces m.shardchain.block_finality).0 ≡ ok tt
    pub left : m' ≡ record m {
      shardchain = record m.shardchain {
        block_finality =
            (put_block_with_info e sv mc block state traces m.shardchain.block_finality).1;
      };
      shards_has_been_changed = false;
    }

  -- With no block nothing has changed and nothing waits; a block is made as above; after a failure
  -- the register is as before, and what waits still waits.
  abbrev pub Outcome :
      ℕ → Masterchain e x S D → NodeResult (Option e.Block) × Masterchain e x S D → Type 0
  Outcome mc m (ok none, m') = (m' ≡ m) × (m.shards_has_been_changed ≡ false)
  Outcome mc m (ok (some block), m') = Made mc m block m'
  Outcome mc m (err error, m') =
      (m'.shards ≡ m.shards) × (m'.shards_has_been_changed ≡ m.shards_has_been_changed)
  Outcome mc m (panic, m') =
      (m'.shards ≡ m.shards) × (m'.shards_has_been_changed ≡ m.shards_has_been_changed)

  apply_master-Outcome :
      (mc : ℕ) (built : PreparedBlock e) (block : e.Block) (m : Masterchain e x S D)
      → master_block e x lib sv m built.block ≡ ok block
      → Outcome mc m (apply_master e x lib sv mc built block m)
  unfolding apply_master finality_and_apply_block
  apply_master-Outcome mc built block m carries =
      go
        (put_block_with_info e sv mc block built.state built.transaction_traces
          m.shardchain.block_finality).0
        refl
    where
      go :
          (r : NodeResult (Unit {0}))
          → (put_block_with_info e sv mc block built.state built.transaction_traces
              m.shardchain.block_finality).0
            ≡ r
          → Outcome mc m (
              continue {S = Masterchain e x S D}
                (bind r λ _. ok built.state)
                (λ _ m'. (ok (some block), record m' { shards_has_been_changed = false }))
                (record m {
                  shardchain = record m.shardchain {
                    block_finality =
                        (put_block_with_info e sv mc block built.state built.transaction_traces
                          m.shardchain.block_finality).1;
                  };
                }))
      go (ok tt) same = record {
        built = built.block;
        state = built.state;
        traces = built.transaction_traces;
        carries = carries;
        done = same;
        left = refl;
      }
      go (err error) same = (refl, refl)
      go panic same = (refl, refl)

  continue-Outcome :
      (mc : ℕ) (built : PreparedBlock e) (m : Masterchain e x S D) (r : NodeResult e.Block)
      → master_block e x lib sv m built.block ≡ r
      → Outcome mc m (continue r (apply_master e x lib sv mc built) m)
  continue-Outcome mc built m (ok block) carries = apply_master-Outcome mc built block m carries
  continue-Outcome mc built m (err error) carries = (refl, refl)
  continue-Outcome mc built m panic carries = (refl, refl)

  if-Outcome :
      (empty changed : Bool) (mc : ℕ) (m : Masterchain e x S D)
      (rest : NodeResult (Option e.Block) × Masterchain e x S D)
      → m.shards_has_been_changed ≡ changed
      → Outcome mc m rest
      → Outcome mc m (if empty && not changed then (ok none, m) else rest)
  if-Outcome true true mc m rest same h = h
  if-Outcome true false mc m rest same h = (refl, same)
  if-Outcome false changed mc m rest same h = h

  put_master-Outcome :
      (mc : ℕ) (r : NodeResult (PreparedBlock e)) (m : Masterchain e x S D)
      → Outcome mc m (put_master e x lib sv mc r m)
  unfolding put_master
  put_master-Outcome mc (ok built) m =
      if-Outcome built.is_empty m.shards_has_been_changed mc m _ refl
        (continue-Outcome mc built m (master_block e x lib sv m built.block) refl)
  put_master-Outcome mc (err error) m = (refl, refl)
  put_master-Outcome mc panic m = (refl, refl)

  -- If the generation gives no block, the masterchain is as before, and no shard's block waits for a
  -- master block. If it gives a block, this carries the register, has been put into the finality, and
  -- no shard's block waits any longer. If it fails, the register is as before, and a shard's block that
  -- has waited for a master block still waits.
  pub generate_block-Outcome :
      (fuel seed mc_seq_no time : ℕ) (time_mode : BlockTimeMode) (m : Masterchain e x S D)
      (q : InMessagesQueue Message)
      → Outcome mc_seq_no m (
        (generate_block e x lib sv fuel seed mc_seq_no time time_mode m q).0,
        (generate_block e x lib sv fuel seed mc_seq_no time time_mode m q).1.0,
      )
  unfolding generate_block
  generate_block-Outcome fuel seed mc_seq_no time time_mode m q =
      put_master-Outcome mc_seq_no (build_block e x sv fuel seed time time_mode m.shardchain q).0 m
