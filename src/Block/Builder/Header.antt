-- ===== src/Block/Builder/Header.antt =====
-- What the builder writes into the header of its block.
use evernode_se.Common.{
  ℕ, zero, suc, ◌≡◌, refl, sym, ap, subst, ◌∙◌, Bool, true, false, Option, List, [], ◌∷◌, arith,
  length,
}
use evernode_se.Common.Int.{ℤ}
use evernode_se.Common.Result.{NodeResult, ok, err, panic, >>=-eq-ok}
use evernode_se.Common.Exec.{continue}
use evernode_se.Common.Post.{continue-keeps}
use evernode_se.Engine.Messages.{InMessagesQueue, dequeue}
use evernode_se.Block.Ever.{EverBlock}
use evernode_se.Block.Finality.{BlkPrevInfo}
use evernode_se.Block.Executor.{ExecLib, NewInfo, ValueFlow}
use evernode_se.Block.Builder.{BlockBuilder}
use evernode_se.Block.Builder.Execute.{execute}
use evernode_se.Block.Builder.Build.{
  Flags, External, PreparedBlock, import_one, import_internal, after_external, execute_external,
  external_step, import_external, deliver_new, process_new, process_round, process_rounds,
  import_messages, process_new_messages, fill_block, build_block, sort_by_lt, finalize_block,
  largest_end,
}
use evernode_se.Block.Builder.Counts.{header, execute-counted}
use evernode_se.Block.Builder.Limits.{enqueue_new-counted}

module _ (e : EverBlock) (x : ExecLib e) where
  -- Documented behaviour of the library: what writes into a state keeps its number, and a block that is
  -- made with a header has this header. `prev_of` is the reference to the block before.
  pub record IsHeaderLib (prev_of : e.Block → BlkPrevInfo) : Type 0 where
    pub seq_no-set_seq_no : (n : ℕ) (s : e.State) → e.state_seq_no (x.set_seq_no n s) ≡ n
    pub seq_no-write_accounts :
        (a : x.ShardAccounts) (s s' : e.State)
        → x.write_accounts a s ≡ ok s'
        → e.state_seq_no s' ≡ e.state_seq_no s
    pub seq_no-write_out_msg_queue :
        (q : x.OutMsgQueue) (s s' : e.State)
        → x.write_out_msg_queue q s ≡ ok s'
        → e.state_seq_no s' ≡ e.state_seq_no s
    pub header-block_with_params :
        (s : e.State) (info : NewInfo e.ShardIdent) (flow : ValueFlow x.Currency x.CopyleftRewards)
        (ins : x.InMsgDescr) (outs : x.OutMsgDescr) (accounts : x.AccountBlocks) (seed : ℕ)
        (block : e.Block)
        → x.block_with_params s info flow ins outs accounts seed ≡ ok block
        → (e.read_info block
            ≡ ok (record {
              seq_no = info.seq_no;
              vert_seq_no = 0;
              start_lt = info.start_lt;
              end_lt = info.end_lt;
              gen_utime = info.gen_utime;
            }))
          × (prev_of block ≡ info.prev_ref)

  -- The block has the header of the builder, with a time at its end, and the state has its number.
  pub record IsHeaded (prev_of : e.Block → BlkPrevInfo) (info : NewInfo e.ShardIdent)
      (block : e.Block) (state : e.State) : Type 0 where
    pub last_lt : ℕ
    pub headed :
        e.read_info block
        ≡ ok (record {
          seq_no = info.seq_no;
          vert_seq_no = 0;
          start_lt = info.start_lt;
          end_lt = last_lt;
          gen_utime = info.gen_utime;
        })
    pub prev : prev_of block ≡ info.prev_ref
    pub seq_no : e.state_seq_no state ≡ info.seq_no

module _ (e : EverBlock) (x : ExecLib e) (config : x.Config) where
  open x use {Message, AccountId, EnqueuedMsg, QueueKey}

  -- The builder has this header.
  abbrev Has : e.State × NewInfo e.ShardIdent × ℕ → BlockBuilder e x → Type 0
  Has h b = header e x b ≡ h

  execute-header :
      (msg : Message) (acc_id : AccountId) (b : BlockBuilder e x)
      → header e x (execute e x msg config acc_id b).1 ≡ header e x b
  execute-header msg acc_id b = ap (λ c. c.2) (execute-counted e x msg config acc_id b)

  import_one-header :
      (key : QueueKey) (enq : EnqueuedMsg) (b : BlockBuilder e x)
      → header e x (import_one e x config key enq b).1 ≡ header e x b
  unfolding import_one
  import_one-header key enq b = grind (arith, execute-header)

  import_internal-header :
      (items : List (QueueKey × EnqueuedMsg × ℕ)) (empty : Bool) (b : BlockBuilder e x)
      → header e x (import_internal e x config items empty b).1 ≡ header e x b
  unfolding import_internal
  import_internal-header [] empty b = refl
  import_internal-header ((key, enq, lt) ∷ rest) empty b =
      continue-keeps (header e x) (header e x b) (import_one e x config key enq b) _
        (import_one-header key enq b)
        λ _ b' h. ground (arith, h, import_internal-header rest false b')

  -- The three parts that may stop before the next external message, where the rest keeps the header.
  external_step-header :
      (o : Option Message) (empty : Bool) (b : BlockBuilder e x) (q : InMessagesQueue Message)
      (rest : BlockBuilder e x → External e x config)
      → ((b' : BlockBuilder e x) → header e x (rest b').1.0 ≡ header e x b')
      → header e x (external_step e x config o empty b q rest).1.0 ≡ header e x b
  unfolding external_step execute_external after_external
  external_step-header o empty b q rest keeps = grind (arith, execute-header, keeps)

  import_external-header :
      (fuel : ℕ) (w : ℤ) (empty : Bool) (b : BlockBuilder e x) (q : InMessagesQueue Message)
      → header e x (import_external e x config fuel w empty b q).1.0 ≡ header e x b
  unfolding import_external
  import_external-header zero w empty b q = refl
  import_external-header (suc fuel) w empty b q =
      external_step-header (dequeue x.workchain_id w q).0 empty b (dequeue x.workchain_id w q).1 _
        λ b'. import_external-header fuel w false b' (dequeue x.workchain_id w q).1

  deliver_new-header :
      (inside full : Bool) (msg : Message) (lt : ℕ) (env : x.Envelope) (acc_id : AccountId)
      (c d : e.Cell) (b : BlockBuilder e x)
      → header e x (deliver_new e x config inside full msg lt env acc_id c d b).1 ≡ header e x b
  unfolding deliver_new
  deliver_new-header inside full msg lt env acc_id c d b = ground (
    arith,
    execute-header msg acc_id b,
    ap (λ c. c.2) (enqueue_new-counted e x config lt env acc_id c d b),
  )

  process_new-header :
      (msg : Message) (cell : e.Cell) (full : Bool) (b : BlockBuilder e x)
      → header e x (process_new e x config msg cell full b).1 ≡ header e x b
  unfolding process_new
  process_new-header msg cell full b = grind (arith, deliver_new-header)

  process_round-header :
      (ms : List (Message × e.Cell)) (full : Bool) (b : BlockBuilder e x)
      → header e x (process_round e x config ms full b).1 ≡ header e x b
  unfolding process_round
  process_round-header [] full b = refl
  process_round-header ((msg, cell) ∷ ms) full b =
      continue-keeps (header e x) (header e x b) (process_new e x config msg cell full b) _
        (process_new-header msg cell full b) λ full' b' h. process_round-header ms full' b' ∙ h

  process_rounds-header :
      (fuel : ℕ) (ms : List (Message × e.Cell)) (flags : Flags) (b : BlockBuilder e x)
      → header e x (process_rounds e x config fuel ms flags b).1 ≡ header e x b
  unfolding process_rounds
  process_rounds-header fuel [] flags b = refl
  process_rounds-header zero (m ∷ ms) flags b = refl
  process_rounds-header (suc fuel) (m ∷ ms) flags b =
      continue-keeps (header e x) (header e x b)
        (process_round e x config (m ∷ ms) flags.block_full (record b { new_messages = [] })) _
        (process_round-header (m ∷ ms) flags.block_full (record b { new_messages = [] }))
        λ full b' h. process_rounds-header fuel b'.new_messages _ b' ∙ h

  import_messages-header :
      (w : ℤ) (r : NodeResult Flags × BlockBuilder e x) (q : InMessagesQueue Message)
      → header e x (import_messages e x config w r q).1.0 ≡ header e x r.1
  unfolding import_messages
  import_messages-header w (ok flags, b) q =
      ground (arith, import_external-header (suc (length q.storage)) w flags.is_empty b q)
  import_messages-header w (err error, b) q = refl
  import_messages-header w (panic, b) q = refl

  fill_block-header :
      (fuel : ℕ) (b : BlockBuilder e x) (q : InMessagesQueue Message)
      → header e x (fill_block e x config fuel b q).1.0 ≡ header e x b
  unfolding fill_block process_new_messages
  fill_block-header fuel b q =
      let internal =
        continue (x.queue_items b.out_queue)
          (λ items. import_internal e x config (sort_by_lt items) true) b in
      let imported =
        import_messages e x config (x.shard_workchain (x.state_shard b.shard_state)) internal q in
      continue-keeps (header e x) (header e x b) (imported.0, imported.1.0) _
        (import_messages-header _ internal q
          ∙ continue-keeps (header e x) (header e x b) (x.queue_items b.out_queue, b) _ refl
              λ items b' h. import_internal-header (sort_by_lt items) true b' ∙ h)
        λ flags b' h. process_rounds-header fuel b'.new_messages flags b' ∙ h

  module _ (prev_of : e.Block → BlkPrevInfo) (laws : IsHeaderLib e x prev_of) where
    finalize_block-IsHeaded :
        (b : BlockBuilder e x) (block : e.Block) (state : e.State)
        → finalize_block e x config b ≡ ok (block, state)
        → IsHeaded e x prev_of b.block_info block state
    unfolding finalize_block
    finalize_block-IsHeaded b block state h =
        let (written, with_accounts, h1) =
          >>=-eq-ok (x.write_accounts b.accounts (x.set_seq_no b.block_info.seq_no b.shard_state)) _
            h in
        let (queued, with_queue, h2) = >>=-eq-ok (x.write_out_msg_queue b.out_queue written) _ h1 in
        let (fees, with_fees, h3) =
          >>=-eq-ok (x.add_in_fees b.in_msg_descr (x.fees_of_blocks b.account_blocks)) _ h2 in
        let (made, with_header, h4) =
          >>=-eq-ok
            (x.block_with_params b.shard_state
              (record b.block_info { end_lt = largest_end e x config b.end_lt b.start_lt })
              (record {
                fees_collected = fees;
                imported = x.value_imported b.in_msg_descr;
                exported = x.value_exported b.out_msg_descr;
                from_prev_blk = b.from_prev_blk;
                to_next_blk = x.full_balance b.accounts;
                copyleft_rewards = b.copyleft_rewards;
              })
              b.in_msg_descr b.out_msg_descr b.account_blocks b.rand_seed)
            _ h3 in
        let (headed, prev) = laws.header-block_with_params _ _ _ _ _ _ _ _ with_header in
        let same : made ≡ block = cc in
        let state_same : queued ≡ state = cc in
        record {
          last_lt = largest_end e x config b.end_lt b.start_lt;
          headed = ap e.read_info (sym same) ∙ headed;
          prev = ap prev_of (sym same) ∙ prev;
          seq_no =
              ap e.state_seq_no (sym state_same)
              ∙ (laws.seq_no-write_out_msg_queue _ _ _ with_queue
                  ∙ (laws.seq_no-write_accounts _ _ _ with_accounts
                      ∙ laws.seq_no-set_seq_no b.block_info.seq_no b.shard_state));
        }

    pub build_block-IsHeaded :
        (fuel : ℕ) (b : BlockBuilder e x) (q : InMessagesQueue Message) (p : PreparedBlock e)
        → (build_block e x config fuel b q).0 ≡ ok p
        → IsHeaded e x prev_of b.block_info p.block p.state
    unfolding build_block
    build_block-IsHeaded fuel b q p h =
        let filled = fill_block e x config fuel b q in
        let done = record filled.1.0 { transaction_traces = [] } in
        let (flags, fine, h1) = >>=-eq-ok filled.0 _ h in
        let (bs, finalized, h2) = >>=-eq-ok (finalize_block e x config done) _ h1 in
        let headed = finalize_block-IsHeaded done bs.0 bs.1 finalized in
        let info_same : done.block_info ≡ b.block_info =
          ap (λ h. h.1) (fill_block-header fuel b q) in
        let block_same : bs.0 ≡ p.block = cc in
        let state_same : bs.1 ≡ p.state = cc in
        subst (λ i. IsHeaded e x prev_of i p.block p.state) info_same
          (subst (λ c. IsHeaded e x prev_of done.block_info c p.state) block_same
            (subst (λ s. IsHeaded e x prev_of done.block_info bs.0 s) state_same headed))
