-- ===== src/Block/Builder/OneMessage.antt =====
-- In sequential mode a block executes at most one message, and more than two rounds change nothing.
use evernode_se.Common.{
  ℕ, suc, zero, ◌≤◌, ◌≡◌, refl, ap, subst, Bool, true, false, Option, none, some, List, [], ◌∷◌,
  inl, inr, arith, length, Bool-cases,
}
use evernode_se.Common.Int.{ℤ}
use evernode_se.Common.Result.{NodeResult, ok, err, panic}
use evernode_se.Common.Exec.{continue}
use evernode_se.Engine.Time.{BlockTimeMode, seq}
use evernode_se.Engine.Messages.{InMessagesQueue, dequeue}
use evernode_se.Block.Ever.{EverBlock}
use evernode_se.Block.Executor.{ExecLib}
use evernode_se.Block.Builder.{BlockBuilder, is_limits_reached, with_params}
use evernode_se.Block.Finality.{BlkPrevInfo}
use evernode_se.Block.Builder.Execute.{execute}
use evernode_se.Block.Builder.Build.{
  Flags, import_internal, after_external, execute_external, external_step, import_external,
  External, process_new, process_round, process_rounds, import_messages, process_new_messages,
  fill_block, sort_by_lt,
}
use evernode_se.Block.Builder.Rounds.{process_rounds-sequential}
use evernode_se.Block.Builder.Limits.{
  Single, Fills, room-Single, execute-Single, import_internal-Fills, process_new-Fills,
}

module _ (e : EverBlock) (x : ExecLib e) (config : x.Config) where
  open x use {Message, AccountId, EnqueuedMsg, QueueKey}

  module _ {A B : Type 0} (g : A → Bool) (full : B → Bool) where
    then-Fills :
        (r : NodeResult A × BlockBuilder e x)
        (f : A → BlockBuilder e x → NodeResult B × BlockBuilder e x)
        → Fills e x config g r
        → ((a : A) (b : BlockBuilder e x)
            → Single e x config (g a) b
            → Fills e x config full (f a b))
        → Fills e x config full (continue r.0 f r.1)
    then-Fills (ok a, b) f s h = h a b s
    then-Fills (err error, b) f s h = s
    then-Fills (panic, b) f s h = s

  process_round-Fills :
      (ms : List (Message × e.Cell)) (full : Bool) (b : BlockBuilder e x)
      → Single e x config full b
      → Fills e x config (λ f. f) (process_round e x config ms full b)
  unfolding process_round
  process_round-Fills [] full b s = s
  process_round-Fills ((msg, cell) ∷ ms) full b s =
      then-Fills (λ f. f) (λ f. f) (process_new e x config msg cell full b) _
        (process_new-Fills e x config msg cell full b s)
        λ full' b' s'. process_round-Fills ms full' b' s'

  process_rounds-Fills :
      (fuel : ℕ) (ms : List (Message × e.Cell)) (flags : Flags) (b : BlockBuilder e x)
      → Single e x config flags.block_full b
      → Fills e x config (λ f. f.block_full) (process_rounds e x config fuel ms flags b)
  unfolding process_rounds
  process_rounds-Fills fuel [] flags b s = s
  process_rounds-Fills zero (m ∷ ms) flags b (h, l, z) = (h, l, λ no. cc)
  process_rounds-Fills (suc fuel) (m ∷ ms) flags b s =
      then-Fills (λ f. f) (λ f. f.block_full)
        (process_round e x config (m ∷ ms) flags.block_full (record b { new_messages = [] })) _
        (process_round-Fills (m ∷ ms) flags.block_full (record b { new_messages = [] }) s)
        λ full b' s'.
          process_rounds-Fills fuel b'.new_messages (record { is_empty = false; block_full = full })
            b' s'

  abbrev FillsAll : External e x config → Type 0
  FillsAll r = Fills e x config (λ f. f.block_full) (r.0, r.1.0)

  after_external-Fills :
      (r : NodeResult (Unit {0})) (b : BlockBuilder e x) (q : InMessagesQueue Message)
      (rest : BlockBuilder e x → External e x config)
      → Single e x config true b
      → ((b' : BlockBuilder e x) → Single e x config false b' → FillsAll (rest b'))
      → FillsAll (after_external e x config r b q rest)
  unfolding after_external
  after_external-Fills panic b q rest s h = s
  after_external-Fills (ok u) b q rest s h = elim (Bool-cases (is_limits_reached e x b)) [
    | inl reached ↦ rw reached s
    | inr room ↦ rw room (h b (room-Single e x config b room s))
  ]
  after_external-Fills (err error) b q rest s h = elim (Bool-cases (is_limits_reached e x b)) [
    | inl reached ↦ rw reached s
    | inr room ↦ rw room (h b (room-Single e x config b room s))
  ]

  execute_external-Fills :
      (o : Option AccountId) (msg : Message) (b : BlockBuilder e x) (q : InMessagesQueue Message)
      (rest : BlockBuilder e x → External e x config)
      → Single e x config false b
      → ((b' : BlockBuilder e x) → Single e x config false b' → FillsAll (rest b'))
      → FillsAll (execute_external e x config o msg b q rest)
  unfolding execute_external
  execute_external-Fills none msg b q rest (m, h, z) k = (m, h, λ no. cc)
  execute_external-Fills (some acc_id) msg b q rest s k =
      after_external-Fills (execute e x msg config acc_id b).0 (execute e x msg config acc_id b).1 q
        rest (execute-Single e x config msg acc_id false b refl s) k

  external_step-Fills :
      (o : Option Message) (empty : Bool) (b : BlockBuilder e x) (q : InMessagesQueue Message)
      (rest : BlockBuilder e x → External e x config)
      → Single e x config false b
      → ((b' : BlockBuilder e x) → Single e x config false b' → FillsAll (rest b'))
      → FillsAll (external_step e x config o empty b q rest)
  unfolding external_step
  external_step-Fills none empty b q rest s k = s
  external_step-Fills (some msg) empty b q rest s k =
      execute_external-Fills (x.int_dst_account_id msg) msg b q rest s k

  import_external-Fills :
      (fuel : ℕ) (w : ℤ) (empty : Bool) (b : BlockBuilder e x) (q : InMessagesQueue Message)
      → Single e x config false b
      → FillsAll (import_external e x config fuel w empty b q)
  unfolding import_external
  import_external-Fills zero w empty b q (m, h, z) = (m, h, λ no. cc)
  import_external-Fills (suc fuel) w empty b q s =
      external_step-Fills (dequeue x.workchain_id w q).0 empty b (dequeue x.workchain_id w q).1 _ s
        λ b' s'. import_external-Fills fuel w false b' (dequeue x.workchain_id w q).1 s'

  import_messages-Fills :
      (w : ℤ) (r : NodeResult Flags × BlockBuilder e x) (q : InMessagesQueue Message)
      → Fills e x config (λ f. f.block_full) r
      → FillsAll (import_messages e x config w r q)
  unfolding import_messages
  import_messages-Fills w (ok flags, b) q s = elim (Bool-cases flags.block_full) [
    | inl stop ↦ rw stop (subst (λ full. Single e x config full b) stop s)
    | inr room ↦ rw room (
        import_external-Fills (suc (length q.storage)) w flags.is_empty b q
          (subst (λ full. Single e x config full b) room s))
  ]
  import_messages-Fills w (err error, b) q s = s
  import_messages-Fills w (panic, b) q s = s

  process_new_messages-Fills :
      (fuel : ℕ) (r : External e x config)
      → FillsAll r
      → FillsAll (process_new_messages e x config fuel r)
  unfolding process_new_messages
  process_new_messages-Fills fuel (made, (b, q)) s =
      then-Fills (λ f. f.block_full) (λ f. f.block_full) (made, b) _ s
        λ flags b' s'. process_rounds-Fills fuel b'.new_messages flags b' s'

  lift-Fills :
      {A : Type 0} (r : NodeResult A)
      (f : A → BlockBuilder e x → NodeResult Flags × BlockBuilder e x) (b : BlockBuilder e x)
      → Single e x config false b
      → ((a : A) → Fills e x config (λ f. f.block_full) (f a b))
      → Fills e x config (λ f. f.block_full) (continue r f b)
  lift-Fills (ok a) f b s h = h a
  lift-Fills (err error) f b (m, h, z) k = (m, h, λ no. cc)
  lift-Fills panic f b (m, h, z) k = (m, h, λ no. cc)

  fresh-Single :
      (b : BlockBuilder e x)
      → b.time_mode ≡ seq
      → b.total_message_processed ≡ 0
      → Single e x config false b
  fresh-Single b m z = (m, omega (arith, z), λ _. z)

  Fills-at_most_one : (r : External e x config) → FillsAll r → r.1.0.total_message_processed ≤ 1
  Fills-at_most_one (ok flags, (b, q)) s = s.1
  Fills-at_most_one (err error, (b, q)) s = s.1
  Fills-at_most_one (panic, (b, q)) s = s.1

  -- What the first two parts leave.
  imported-FillsAll :
      (b : BlockBuilder e x) (q : InMessagesQueue Message)
      → b.time_mode ≡ seq
      → b.total_message_processed ≡ 0
      → FillsAll (
          import_messages e x config
            (x.shard_workchain (x.state_shard b.shard_state))
            (continue
              (x.queue_items b.out_queue)
              (λ items. import_internal e x config (sort_by_lt items) true)
              b)
            q)
  imported-FillsAll b q m z =
      import_messages-Fills (x.shard_workchain (x.state_shard b.shard_state)) _ q (
        lift-Fills (x.queue_items b.out_queue) _ b (fresh-Single b m z)
          λ items. import_internal-Fills e x config (sort_by_lt items) true b (fresh-Single b m z))

  process_new_messages-sequential :
      (n : ℕ) (r : External e x config)
      → FillsAll r
      → process_new_messages e x config (suc (suc n)) r ≡ process_new_messages e x config 2 r
  unfolding process_new_messages
  process_new_messages-sequential n (ok flags, (b, q)) s =
      ap (λ r. (r.0, (r.1, q))) (process_rounds-sequential e x config n b.new_messages flags b s)
  process_new_messages-sequential n (err error, (b, q)) s = refl
  process_new_messages-sequential n (panic, (b, q)) s = refl

  fresh-one_message :
      (n : ℕ) (b : BlockBuilder e x) (q : InMessagesQueue Message)
      → b.time_mode ≡ seq
      → b.total_message_processed ≡ 0
      → ((fill_block e x config 2 b q).1.0.total_message_processed ≤ 1)
        × (fill_block e x config (suc (suc n)) b q ≡ fill_block e x config 2 b q)
  unfolding fill_block
  fresh-one_message n b q m z =
      let second =
        import_messages e x config (x.shard_workchain (x.state_shard b.shard_state))
          (continue (x.queue_items b.out_queue)
            (λ items. import_internal e x config (sort_by_lt items) true) b)
          q in
      let fills : FillsAll second = imported-FillsAll b q m z in
      (
        Fills-at_most_one (process_new_messages e x config 2 second)
            (process_new_messages-Fills 2 second fills),
        process_new_messages-sequential n second fills,
      )

  with_params-fresh :
      (state : e.State) (prev_ref : BlkPrevInfo) (time : ℕ) (mode : BlockTimeMode) (limit : ℕ)
      (provider : Option (AccountId → NodeResult (Option x.ShardAccount))) (seed : ℕ)
      {b : BlockBuilder e x}
      → with_params e x state prev_ref time mode limit provider seed ≡ ok b
      → (b.time_mode ≡ mode) × (b.total_message_processed ≡ 0)
  unfolding with_params
  with_params-fresh state prev_ref time mode limit provider seed h = ground arith

  -- A builder made for sequential mode: at most one message is executed until the block is finalized or
  -- its build fails, whatever the two queues hold and whichever messages the transactions send, and two
  -- rounds of new messages are all, so that more fuel changes nothing.
  pub fill_block-one_message :
      (n : ℕ) (state : e.State) (prev_ref : BlkPrevInfo) (time limit : ℕ)
      (provider : Option (AccountId → NodeResult (Option x.ShardAccount))) (seed : ℕ)
      (b : BlockBuilder e x) (q : InMessagesQueue Message)
      → with_params e x state prev_ref time seq limit provider seed ≡ ok b
      → ((fill_block e x config 2 b q).1.0.total_message_processed ≤ 1)
        × (fill_block e x config (suc (suc n)) b q ≡ fill_block e x config 2 b q)
  fill_block-one_message n state prev_ref time limit provider seed b q made =
      let (m, z) = with_params-fresh state prev_ref time seq limit provider seed made in
      fresh-one_message n b q m z
