-- ===== src/Engine/Shardchain/Linked/Tip.antt =====
-- A chain with one block in memory and on disk.
use evernode_se.Common.{ℕ, ◌≡◌, refl, sym, ap, ◌∙◌, Option, []}
use evernode_se.Common.Int.{ℤ}
use evernode_se.Common.Result.{NodeResult, ok, >>=-eq-ok, ok-injective}
use evernode_se.Data.Kv.{IsKv}
use evernode_se.Engine.Shardchain.{Shardchain, with_params}
use evernode_se.Engine.Shardchain.Restart.{Put}
use evernode_se.Block.Ever.{EverBlock, IsEverBlock, BlockInfo}
use evernode_se.Block.ShardBlock.{ShardBlock, with_block_and_state, unwrap}
use evernode_se.Block.ShardBlock.RoundTrip.{without_traces}
use evernode_se.Block.Executor.{ExecLib}
use evernode_se.Block.Finality.{
  Services, BlkPrevInfo, get_last_info, get_last_block_info, with_params as new_finality,
}
use evernode_se.Block.Finality.Disk.{load, put_block_with_info}
use evernode_se.Block.Finality.Restart.{IsNew}
use evernode_se.Block.Finality.Life.{IsSynced, put-IsSynced, Step-IsSynced, restart}
use evernode_se.Block.Builder.Build.{PreparedBlock}
use evernode_se.Block.Builder.Header.{IsHeaderLib}

module _ (e : EverBlock) (x : ExecLib e) {S D : Type 0} (sv : Services e S D)
    (prev_of : e.Block → BlkPrevInfo) where
  open x use {Message}

  -- The chain's one block, in memory and on disk, has the number of its state.
  pub record IsTip (c : Shardchain e x S D) (block : e.Block) : Type 0 where
    pub state : e.State
    pub sb : ShardBlock e
    pub info : BlockInfo
    pub written : with_block_and_state e block state ≡ ok sb
    pub synced : IsSynced e sv c.block_finality sb
    pub has_info : e.read_info block ≡ ok info
    pub number : e.state_seq_no state ≡ info.seq_no

  written-parts :
      (block : e.Block) (state : e.State) (sb : ShardBlock e)
      → with_block_and_state e block state ≡ ok sb
      → (sb.block ≡ block) × (sb.shard_state ≡ state)
  unfolding with_block_and_state
  written-parts block state sb h =
      let (cell, _, h1) = >>=-eq-ok (unwrap (e.serialize_block block)) _ h in
      let (bytes, _, h2) = >>=-eq-ok (unwrap (e.write_boc cell)) _ h1 in
      let (info, _, h3) = >>=-eq-ok (unwrap (e.read_info block)) _ h2 in (cc, cc)

  -- What the builder of the next block starts from.
  abbrev pub reference : BlockInfo → ShardBlock e → BlkPrevInfo
  reference info sb = record {
    end_lt = info.end_lt;
    seq_no = info.seq_no;
    root_hash = sb.root_hash;
    file_hash = sb.file_hash;
  }

  pub IsTip-info :
      (c : Shardchain e x S D) (block : e.Block) (t : IsTip c block)
      → (s : e.State) × (get_last_info e sv c.block_finality ≡ ok (s, reference t.info t.sb))
        × (e.state_seq_no s ≡ t.info.seq_no)
  unfolding get_last_info get_last_block_info
  IsTip-info c block t =
      let current : without_traces c.block_finality.current_block ≡ without_traces t.sb =
        t.synced.current in
      let (is_block, is_state) = written-parts block t.state t.sb t.written in
      let found : e.read_info c.block_finality.current_block.block ≡ ok t.info =
        ap e.read_info (ap (λ (s : ShardBlock e). s.block) current ∙ is_block) ∙ t.has_info in
      (
        c.block_finality.current_block.shard_state,
        rw
            (
              found,
              ap (λ (s : ShardBlock e). s.root_hash) current,
              ap (λ (s : ShardBlock e). s.file_hash) current,
            )
            refl,
        ap e.state_seq_no (ap (λ (s : ShardBlock e). s.shard_state) current ∙ is_state) ∙ t.number,
      )

  module _ (kvl : IsKv sv.kv) (laws : IsEverBlock e) (headers : IsHeaderLib e x prev_of) where
    -- What a chain with nothing pending has put.
    pub put-IsTip :
        (mc : ℕ) (r : NodeResult (PreparedBlock e)) (block : e.Block) (c c' : Shardchain e x S D)
        → c.block_finality.blocks_by_hash ≡ []
        → c.block_finality.blocks_by_no ≡ []
        → ((state : e.State) (sb : ShardBlock e)
            → with_block_and_state e block state ≡ ok sb
            → IsNew e sv c.block_finality sb)
        → (put : Put e x sv mc r block c c') → (info : BlockInfo) → e.read_info block ≡ ok info
        → e.state_seq_no put.state ≡ info.seq_no
        → IsTip c' block
    put-IsTip mc r block c c' no_hash no_number new put info has_info number =
        let bf = c.block_finality in
        let done : put_block_with_info e sv mc block put.state put.traces bf
            ≡ (ok tt, c'.block_finality) =
          λ i. (put.done i, sym put.left i) in
        let (sb, written, synced) =
          put-IsSynced e sv kvl laws mc block put.state put.traces bf c'.block_finality no_hash
            no_number (new put.state) done in
        record {
          state = put.state;
          sb = sb;
          info = info;
          written = written;
          synced = synced;
          has_info = has_info;
          number = number;
        }

    pub restart-IsTip :
        (shard : e.ShardIdent) (global_id : ℤ) (config : x.Config) (gas_limit : ℕ) (db : Option D)
        (provider : Option (x.AccountId → NodeResult (Option x.ShardAccount)))
        (c c' : Shardchain e x S D) (block : e.Block)
        → IsTip c block
        → with_params e x sv shard global_id config gas_limit db c.block_finality.storage provider
          ≡ ok c'
        → IsTip c' block
    unfolding with_params new_finality
    restart-IsTip shard global_id config gas_limit db provider c c' block t made =
        let start = new_finality e sv global_id shard c.block_finality.storage db in
        let (loaded, _, fine) = >>=-eq-ok (load e sv start).0 _ made in
        let same : (load e sv start).1 ≡ c'.block_finality =
          ap (λ (c : Shardchain e x S D). c.block_finality) (ok-injective fine) in
        record {
          state = t.state;
          sb = t.sb;
          info = t.info;
          written = t.written;
          synced = Step-IsSynced e sv kvl laws (restart start refl refl refl same) t.synced;
          has_info = t.has_info;
          number = t.number;
        }
