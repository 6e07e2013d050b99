-- ===== src/Engine/Shardchain/Restart.antt =====
-- A chain that is started again after it has generated a block.
use evernode_se.Common.{
  ℕ, ◌≡◌, refl, ap, subst, ◌∙◌, Bool, true, false, Option, none, some, [], if◌then◌else◌,
}
use evernode_se.Common.Result.{NodeResult, ok, err, panic, ◌>>=◌ as bind}
use evernode_se.Common.Exec.{continue}
use evernode_se.Data.Kv.{IsKv}
use evernode_se.Engine.Time.{BlockTimeMode}
use evernode_se.Engine.Messages.{InMessagesQueue}
use evernode_se.Engine.Shardchain.{
  Shardchain, finality_and_apply_block, apply_built, build_block, generate_block,
}
use evernode_se.Block.Ever.{EverBlock, IsEverBlock}
use evernode_se.Block.ShardBlock.{ShardBlock, Traces, with_block_and_state}
use evernode_se.Block.ShardBlock.RoundTrip.{without_traces}
use evernode_se.Block.Executor.{ExecLib}
use evernode_se.Block.Finality.{BlockFinality, Services}
use evernode_se.Block.Finality.Disk.{load, put_block_with_info}
use evernode_se.Block.Finality.Restart.{IsNew, put-load}
use evernode_se.Block.Builder.Build.{PreparedBlock}

module _ (e : EverBlock) (x : ExecLib e) {S D : Type 0} (sv : Services e S D) where
  open x use {Message}

  -- What a put did, where a block came of it.
  pub record Put (mc : ℕ) (r : NodeResult (PreparedBlock e)) (block : e.Block)
      (c c' : Shardchain e x S D) : Type 0 where
    pub built : PreparedBlock e
    pub is_built : r ≡ ok built
    pub same_block : built.block ≡ block
    pub state : e.State
    pub same_state : built.state ≡ state
    pub traces : Traces
    pub done : (put_block_with_info e sv mc block state traces c.block_finality).0 ≡ ok tt
    pub left :
        c'.block_finality ≡ (put_block_with_info e sv mc block state traces c.block_finality).1

  done_put :
      {A : Type 0} (r : NodeResult (Unit {0})) (s : e.State) (c : Shardchain e x S D) (a : A)
      {b : A}
      → (continue (bind r λ _. ok s) (λ _ c'. (ok (some a), c')) c).0 ≡ ok (some b)
      → (r ≡ ok tt) × (a ≡ b)
  done_put (ok tt) s c a h = (refl, cc)
  done_put (err error) s c a h = cc
  done_put panic s c a h = cc

  kept_finality :
      {A : Type 0} (r : NodeResult A) (c : Shardchain e x S D) (b : e.Block)
      → (continue r (λ _ c'. (ok (some b), c')) c).1.block_finality ≡ c.block_finality
  kept_finality (ok a) c b = refl
  kept_finality (err error) c b = refl
  kept_finality panic c b = refl

  apply_some :
      (mc : ℕ) (p : PreparedBlock e) (c : Shardchain e x S D) (block : e.Block)
      → (continue
          (finality_and_apply_block e x sv mc p.block p.state p.transaction_traces c).0
          (λ _ c'. (ok (some p.block), c'))
          (finality_and_apply_block e x sv mc p.block p.state p.transaction_traces c).1).0
        ≡ ok (some block)
      → Put mc
          (ok p)
          block
          c
          (continue
            (finality_and_apply_block e x sv mc p.block p.state p.transaction_traces c).0
            (λ _ c'. (ok (some p.block), c'))
            (finality_and_apply_block e x sv mc p.block p.state p.transaction_traces c).1).1
  unfolding finality_and_apply_block
  apply_some mc p c block h =
      let put = put_block_with_info e sv mc p.block p.state p.transaction_traces c.block_finality in
      let (fine, same) = done_put put.0 p.state (record c { block_finality = put.1 }) p.block h in
      subst
        (λ b.
          Put mc (ok p) b c
            (continue (bind put.0 λ _. ok p.state) (λ _ c'. (ok (some p.block), c'))
              (record c { block_finality = put.1 })).1)
        same
        (record {
          built = p;
          is_built = refl;
          same_block = refl;
          state = p.state;
          same_state = refl;
          traces = p.transaction_traces;
          done = fine;
          left =
              kept_finality (bind put.0 λ _. ok p.state) (record c { block_finality = put.1 })
                p.block;
        })

  not_empty :
      (flag : Bool) (mc : ℕ) (r : NodeResult (PreparedBlock e)) (c : Shardchain e x S D)
      (block : e.Block) (rest : NodeResult (Option e.Block) × Shardchain e x S D)
      → (rest.0 ≡ ok (some block) → Put mc r block c rest.1)
      → (if flag then (ok none, c) else rest).0 ≡ ok (some block)
      → Put mc r block c (if flag then (ok none, c) else rest).1
  not_empty true mc r c block rest k h = cc
  not_empty false mc r c block rest k h = k h

  pub apply_built-Put :
      (mc : ℕ) (r : NodeResult (PreparedBlock e)) (c : Shardchain e x S D) (block : e.Block)
      → (apply_built e x sv mc r c).0 ≡ ok (some block)
      → Put mc r block c (apply_built e x sv mc r c).1
  unfolding apply_built
  apply_built-Put mc (ok p) c block h =
      not_empty p.is_empty mc (ok p) c block _ (apply_some mc p c block) h
  apply_built-Put mc (err error) c block h = cc
  apply_built-Put mc panic c block h = cc

  -- If a chain with nothing pending generates a block that is new to its storage, a chain that is
  -- started on the storage that it left loads this block, without its traces, as its current and as its
  -- last finalized block. The storage and the library keep their laws.
  pub generate_block-load :
      (kvl : IsKv sv.kv) (laws : IsEverBlock e) (fuel seed mc_seq_no time : ℕ)
      (time_mode : BlockTimeMode) (c : Shardchain e x S D) (q : InMessagesQueue Message)
      (block : e.Block) (start : BlockFinality e S D)
      → c.block_finality.blocks_by_hash ≡ []
      → c.block_finality.blocks_by_no ≡ []
      → ((state : e.State) (sb : ShardBlock e)
          → with_block_and_state e block state ≡ ok sb
          → IsNew e sv c.block_finality sb)
      → (generate_block e x sv fuel seed mc_seq_no time time_mode c q).0 ≡ ok (some block)
      → start.storage
        ≡ (generate_block e x sv fuel seed mc_seq_no time time_mode c q).1.0.block_finality.storage
      → (state : e.State) × (sb : ShardBlock e) × (with_block_and_state e block state ≡ ok sb)
        × (load e sv start ≡ (
          ok true,
          record start {
            current_block = without_traces sb;
            last_finalized_block = without_traces sb;
          },
        ))
  unfolding generate_block
  generate_block-load kvl laws fuel seed mc_seq_no time time_mode c q block start no_hash no_number
        new made kept =
      let put =
        apply_built-Put mc_seq_no (build_block e x sv fuel seed time time_mode c q).0 c block
          made in
      let (sb, built, loads) =
        put-load e sv kvl mc_seq_no put.traces c.block_finality laws block put.state start no_hash
          no_number (new put.state) put.done (kept ∙ ap (λ bf. bf.storage) put.left) in
      (put.state, sb, built, loads)
