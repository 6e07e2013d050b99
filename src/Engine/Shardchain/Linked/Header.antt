-- ===== src/Engine/Shardchain/Linked/Header.antt =====
-- The header of the block that is built on a chain.
use evernode_se.Common.{◌&&◌, ℕ, ◌+◌, ◌%◌, ◌^◌, ◌≡◌, refl, sym, ap, subst, ◌∙◌, Option}
use evernode_se.Common.Result.{NodeResult, ok, err, panic, >>=-eq-ok, ok-injective}
use evernode_se.Engine.Time.{BlockTimeMode}
use evernode_se.Engine.Messages.{InMessagesQueue}
use evernode_se.Engine.Shardchain.{Shardchain, build_with, new_collator, build_block}
use evernode_se.Block.Ever.{EverBlock}
use evernode_se.Block.Executor.{ExecLib, NewInfo}
use evernode_se.Block.Finality.{Services, BlkPrevInfo, get_last_info}
use evernode_se.Block.Builder.{BlockBuilder, or_panics, with_params as new_builder}
use evernode_se.Block.Builder.Build.{PreparedBlock, build_block as fill_and_finalize}
use evernode_se.Block.Builder.Header.{
  IsHeaderLib, IsHeaded, build_block-IsHeaded as builder-IsHeaded,
}

module _ (e : EverBlock) (x : ExecLib e) {S D : Type 0} (sv : Services e S D)
    (prev_of : e.Block → BlkPrevInfo) where
  open x use {Message}

  -- The header of the block that is built on a state and a reference.
  abbrev pub next_header : e.State → BlkPrevInfo → ℕ → NewInfo e.ShardIdent
  next_header s prev time = record {
    shard = x.state_shard s;
    seq_no = (e.state_seq_no s + 1) % 2 ^ 32;
    prev_ref = prev;
    gen_utime = time;
    start_lt = (prev.end_lt + 1) % 2 ^ 64;
    end_lt = 0;
  }

  new_builder-header :
      (s : e.State) (prev : BlkPrevInfo) (time : ℕ) (mode : BlockTimeMode) (limit : ℕ)
      (provider : Option (x.AccountId → NodeResult (Option x.ShardAccount))) (seed : ℕ)
      (b : BlockBuilder e x)
      → new_builder e x s prev time mode limit provider seed ≡ ok b
      → b.block_info ≡ next_header s prev time
  unfolding new_builder
  new_builder-header s prev time mode limit provider seed b h =
      let (accounts, _, h1) = >>=-eq-ok (x.read_accounts s) _ h in
      let (queue, _, h2) = >>=-eq-ok (x.read_out_msg_queue s) _ h1 in
      let (_, _, h3) =
        >>=-eq-ok
          (or_panics e x
            (x.takes_seq_no ((e.state_seq_no s + 1) % 2 ^ 32) && x.takes_prev_ref prev))
          _ h2 in
      sym (ap (λ (b : BlockBuilder e x). b.block_info) (ok-injective h3))

  build_with-built :
      (fuel : ℕ) (config : x.Config) (q : InMessagesQueue Message)
      (r : NodeResult (BlockBuilder e x)) (p : PreparedBlock e)
      → (build_with e x sv fuel config q r).0 ≡ ok p
      → (b : BlockBuilder e x) × (r ≡ ok b) × ((fill_and_finalize e x config fuel b q).0 ≡ ok p)
  unfolding build_with
  build_with-built fuel config q (ok b) p h = (b, refl, h)
  build_with-built fuel config q (err error) p h = cc
  build_with-built fuel config q panic p h = cc

  pub build_block-IsHeaded :
      (headers : IsHeaderLib e x prev_of) (fuel seed time : ℕ) (mode : BlockTimeMode)
      (c : Shardchain e x S D) (q : InMessagesQueue Message) (s : e.State) (prev : BlkPrevInfo)
      (p : PreparedBlock e)
      → get_last_info e sv c.block_finality ≡ ok (s, prev)
      → (build_block e x sv fuel seed time mode c q).0 ≡ ok p
      → IsHeaded e x prev_of (next_header s prev time) p.block p.state
  unfolding build_block new_collator
  build_block-IsHeaded headers fuel seed time mode c q s prev p found h =
      let (b, collated, built) =
        build_with-built fuel c.blockchain_config q (new_collator e x sv seed time mode c) p h in
      let (info, found', made) = >>=-eq-ok (get_last_info e sv c.block_finality) _ collated in
      let same : info ≡ (s, prev) = ok-injective (sym found' ∙ found) in
      let header : b.block_info ≡ next_header s prev time =
        new_builder-header info.0 info.1 time mode c.block_gas_limit c.accounts_provider seed b made
        ∙ ap (λ (i : e.State × BlkPrevInfo). next_header i.0 i.1 time) same in
      subst (λ i. IsHeaded e x prev_of i p.block p.state) header
        (builder-IsHeaded e x c.blockchain_config prev_of headers fuel b q p built)

  pub build_block-found :
      (fuel seed time : ℕ) (mode : BlockTimeMode) (c : Shardchain e x S D)
      (q : InMessagesQueue Message) (p : PreparedBlock e)
      → (build_block e x sv fuel seed time mode c q).0 ≡ ok p
      → (s : e.State) × (prev : BlkPrevInfo) × (get_last_info e sv c.block_finality ≡ ok (s, prev))
  unfolding build_block new_collator
  build_block-found fuel seed time mode c q p h =
      let (b, collated, built) =
        build_with-built fuel c.blockchain_config q (new_collator e x sv seed time mode c) p h in
      let (info, found, made) = >>=-eq-ok (get_last_info e sv c.block_finality) _ collated in
      (info.0, info.1, found)
