-- ===== src/Engine/Shardchain/Linked/Growth.antt =====
-- The blocks of a chain follow one another.
use evernode_se.Common.{
  ℕ, ◌+◌, ◌%◌, ◌^◌, ◌≡◌, refl, sym, ap, subst, ◌∙◌, none, some, List, [], ◌∷◌, arith,
}
use evernode_se.Common.Result.{NodeResult, ok, err, panic}
use evernode_se.Data.Kv.{IsKv}
use evernode_se.Engine.Time.{BlockTimeMode}
use evernode_se.Engine.Messages.{InMessagesQueue}
use evernode_se.Engine.Shardchain.{Shardchain, build_block, apply_built, generate_block}
use evernode_se.Engine.Shardchain.Restart.{Put, apply_built-Put}
use evernode_se.Block.Ever.{EverBlock, IsEverBlock, BlockInfo}
use evernode_se.Block.ShardBlock.{ShardBlock, with_block_and_state}
use evernode_se.Block.Executor.{ExecLib}
use evernode_se.Block.Finality.{Services, BlkPrevInfo}
use evernode_se.Block.Finality.Restart.{IsNew}
use evernode_se.Block.Builder.Build.{PreparedBlock}
use evernode_se.Block.Builder.Header.{IsHeaderLib}
use evernode_se.Engine.Shardchain.Linked.{
  Follows, IsLinked, first, later, Grows, born, generated, idle, restarted,
}
use evernode_se.Engine.Shardchain.Linked.Tip.{
  IsTip, IsTip-info, put-IsTip, restart-IsTip, reference,
}
use evernode_se.Engine.Shardchain.Linked.Header.{build_block-IsHeaded, build_block-found}

module _ (e : EverBlock) (x : ExecLib e) {S D : Type 0} (sv : Services e S D)
    (prev_of : e.Block → BlkPrevInfo) where
  open x use {Message}

  module _ (kvl : IsKv sv.kv) (laws : IsEverBlock e) (headers : IsHeaderLib e x prev_of) where
    -- The block that a chain with a tip generates.
    generate-Follows :
        (fuel seed mc time : ℕ) (mode : BlockTimeMode) (q q' : InMessagesQueue Message)
        (c c' : Shardchain e x S D) (block next : e.Block)
        → IsTip e x sv prev_of c block
        → ((state : e.State) (sb : ShardBlock e)
            → with_block_and_state e next state ≡ ok sb
            → IsNew e sv c.block_finality sb)
        → generate_block e x sv fuel seed mc time mode c q ≡ (ok (some next), (c', q'))
        → IsTip e x sv prev_of c' next × Follows e x sv prev_of block next
    unfolding generate_block
    generate-Follows fuel seed mc time mode q q' c c' block next t new made =
        let r = (build_block e x sv fuel seed time mode c q).0 in
        let put : Put e x sv mc r next c c' =
          subst (Put e x sv mc r next c) (ap (λ m. m.1.0) made)
            (apply_built-Put e x sv mc r c next (ap (λ m. m.0) made)) in
        let (s, found, number) = IsTip-info e x sv prev_of c block t in
        let headed =
          build_block-IsHeaded e x sv prev_of headers fuel seed time mode c q s
            (reference e x sv prev_of t.info t.sb) put.built found put.is_built in
        let next_info : BlockInfo = record {
          seq_no = (e.state_seq_no s + 1) % 2 ^ 32;
          vert_seq_no = 0;
          start_lt = (t.info.end_lt + 1) % 2 ^ 64;
          end_lt = headed.last_lt;
          gen_utime = time;
        } in
        let has_next : e.read_info next ≡ ok next_info =
          ap e.read_info (sym put.same_block) ∙ headed.headed in
        (
          put-IsTip e x sv prev_of kvl laws headers mc r next c c' t.synced.no_hash
              t.synced.no_number new put next_info has_next
              (ap e.state_seq_no (sym put.same_state) ∙ headed.seq_no),
          record {
            state = t.state;
            sb = t.sb;
            info = t.info;
            next_info = next_info;
            written = t.written;
            has_info = t.has_info;
            has_next = has_next;
            seq_no = ap (λ n. (n + 1) % 2 ^ 32) number;
            start_lt = refl;
            prev = ap prev_of (sym put.same_block) ∙ headed.prev;
          },
        )

    apply_built-none :
        (mc : ℕ) (r : NodeResult (PreparedBlock e)) (c : Shardchain e x S D)
        → (apply_built e x sv mc r c).0 ≡ ok none
        → c ≡ (apply_built e x sv mc r c).1
    unfolding apply_built
    apply_built-none mc (ok p) c h = ground arith
    apply_built-none mc (err error) c h = cc
    apply_built-none mc panic c h = cc

    generate_block-none :
        (fuel seed mc time : ℕ) (mode : BlockTimeMode) (q q' : InMessagesQueue Message)
        (c c' : Shardchain e x S D)
        → generate_block e x sv fuel seed mc time mode c q ≡ (ok none, (c', q'))
        → c ≡ c'
    unfolding generate_block
    generate_block-none fuel seed mc time mode q q' c c' made =
        apply_built-none mc (build_block e x sv fuel seed time mode c q).0 c (ap (λ m. m.0) made)
        ∙ ap (λ m. m.1.0) made

    Grows-IsLinked :
        {c : Shardchain e x S D} {block : e.Block} {c' : Shardchain e x S D} {block' : e.Block}
        {blocks : List e.Block}
        → IsTip e x sv prev_of c block
        → Grows e x sv prev_of c block c' block' blocks
        → IsTip e x sv prev_of c' block'
          × ((rest : List e.Block) × (blocks ≡ block' ∷ rest) × IsLinked e x sv prev_of blocks)
    Grows-IsLinked t born = (t, ([], refl, first _))
    Grows-IsLinked t (generated {b2 = next} fuel seed mc time mode q q' grows new made) =
        let (t1, (rest, shape, linked)) = Grows-IsLinked t grows in
        let (t2, follows) = generate-Follows fuel seed mc time mode q q' _ _ _ _ t1 new made in
        (
          t2,
          (
            _,
            refl,
            subst (λ bs. IsLinked e x sv prev_of (next ∷ bs)) (sym shape)
                (later follows (subst (IsLinked e x sv prev_of) shape linked)),
          ),
        )
    Grows-IsLinked t (idle {b1 = tip} fuel seed mc time mode q q' grows made) =
        let (t1, linked) = Grows-IsLinked t grows in
        (
          subst (λ c. IsTip e x sv prev_of c tip)
              (generate_block-none fuel seed mc time mode q q' _ _ made) t1,
          linked,
        )
    Grows-IsLinked t (restarted shard global_id config gas_limit db provider grows made) =
        let (t1, linked) = Grows-IsLinked t grows in
        (
          restart-IsTip e x sv prev_of kvl laws headers shard global_id config gas_limit db provider
              _ _ _ t1 made,
          linked,
        )

    -- A chain with nothing pending generates its first block, and then lives through generations that
    -- succeed, with a block or with none, and through restarts. All its blocks follow one another: each
    -- has the number after that of the block before, as a u32, starts with the logical time after its
    -- last, as a u64, and refers to it by number, time and hashes. The storage and the libraries keep
    -- their laws, and each block is new to the storage.
    pub generate_block-IsLinked :
        (fuel seed mc time : ℕ) (mode : BlockTimeMode) (q q' : InMessagesQueue Message)
        (c c1 c2 : Shardchain e x S D) (block last : e.Block) (blocks : List e.Block)
        → c.block_finality.blocks_by_hash ≡ []
        → c.block_finality.blocks_by_no ≡ []
        → ((state : e.State) (sb : ShardBlock e)
            → with_block_and_state e block state ≡ ok sb
            → IsNew e sv c.block_finality sb)
        → generate_block e x sv fuel seed mc time mode c q ≡ (ok (some block), (c1, q'))
        → Grows e x sv prev_of c1 block c2 last blocks
        → IsLinked e x sv prev_of blocks
    unfolding generate_block
    generate_block-IsLinked fuel seed mc time mode q q' c c1 c2 block last blocks no_hash no_number
          new made grows =
        let r = (build_block e x sv fuel seed time mode c q).0 in
        let put : Put e x sv mc r block c c1 =
          subst (Put e x sv mc r block c) (ap (λ m. m.1.0) made)
            (apply_built-Put e x sv mc r c block (ap (λ m. m.0) made)) in
        let (s, prev, found) =
          build_block-found e x sv prev_of fuel seed time mode c q put.built put.is_built in
        let headed =
          build_block-IsHeaded e x sv prev_of headers fuel seed time mode c q s prev put.built found
            put.is_built in
        let tip =
          put-IsTip e x sv prev_of kvl laws headers mc r block c c1 no_hash no_number new put _
            (ap e.read_info (sym put.same_block) ∙ headed.headed)
            (ap e.state_seq_no (sym put.same_state) ∙ headed.seq_no) in
        (Grows-IsLinked tip grows).1.2
