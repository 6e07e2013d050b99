-- ===== src/Engine/Node/Due.antt =====
-- When a master block is due.
use evernode_se.Common.{
  ℕ, zero, suc, ◌≡◌, refl, sym, ap, ◌∙◌, Bool, true, false, Option, none, some, List, [], ◌∷◌,
}
use evernode_se.Common.Result.{NodeResult, ok, err, panic}
use evernode_se.Common.Exec.{Exec, continue}
use evernode_se.Common.Post.{Post, Post-run, Post-intro, Post-bind, Post-then, Post-lift}
use evernode_se.Engine.Node.Invariant.{IsInvariant, rounds-Keeps}
use evernode_se.Engine.Masterchain.{Masterchain, McLib, register_new_shard_block, next_seq_no}
use evernode_se.Engine.Masterchain.Outcome.{Outcome, generate_block-Outcome}
use evernode_se.Engine.Node.{
  TonNodeEngine, World, Stamp, shard_block, master_block, Running, interleave, shard_step,
  with_register, after_shard, shard_blocks, stamped, set_last_time, time_mode, master_step, round,
  again, rounds, begin, execute_queued_messages,
}
use evernode_se.Block.Ever.{EverBlock}
use evernode_se.Block.Executor.{ExecLib}
use evernode_se.Block.ShardBlock.{unwrap}
use evernode_se.Block.Finality.{Services}

-- A master block is due if the last block is a shard's, and before any block if one was due at the start.
abbrev pub due : Bool → List Stamp → Bool
due at_start [] = at_start
due at_start (shard_block t ∷ stamps) = true
due at_start (master_block t ∷ stamps) = false

module _ (e : EverBlock) (x : ExecLib e) (lib : McLib e x) {S D : Type 0} (sv : Services e S D)
    (w : World x.Message) (at_start : Bool) where
  abbrev pub Due : Running e x S D → Type 0
  Due r = r.node.masterchain.shards_has_been_changed ≡ due at_start r.stamps

  shard_step-Due : (mc : ℕ) (r : Running e x S D) → Due r → Due (shard_step e x lib sv w mc r).1
  unfolding shard_step
  shard_step-Due mc r h = h

  -- What registering does to the flag: on success it is set, and a failure changes nothing.
  abbrev Flagged : Masterchain e x S D → NodeResult (Unit {0}) × Masterchain e x S D → Type 0
  Flagged m (ok u, m') = m'.shards_has_been_changed ≡ true
  Flagged m (err error, m') = m' ≡ m
  Flagged m (panic, m') = m' ≡ m

  lift-Flagged :
      {A : Type 0} (r : NodeResult A) (f : A → Exec (Masterchain e x S D) (Unit {0}))
      (m : Masterchain e x S D)
      → ((a : A) → Flagged m (f a m))
      → Flagged m (continue r f m)
  lift-Flagged (ok a) f m h = h a
  lift-Flagged (err error) f m h = refl
  lift-Flagged panic f m h = refl

  register-Flagged :
      (block : e.Block) (m : Masterchain e x S D)
      → Flagged m (register_new_shard_block e x lib sv block m)
  unfolding register_new_shard_block
  register-Flagged block m = lift-Flagged (lib.shard_info block) _ m λ info.
      lift-Flagged (unwrap (e.serialize_block block)) _ m
        λ cell. lift-Flagged (e.write_boc cell) _ m λ boc. refl

  with_register-Due :
      (p : NodeResult (Unit {0}) × Masterchain e x S D) (r : Running e x S D)
      → Flagged r.node.masterchain p
      → Due r
      → Due (with_register e x lib sv w p r).1
  with_register-Due (ok u, m) r flagged h = flagged
  with_register-Due (err error, m) r same h =
      ap (λ (m : Masterchain e x S D). m.shards_has_been_changed) same ∙ h
  with_register-Due (panic, m) r same h =
      ap (λ (m : Masterchain e x S D). m.shards_has_been_changed) same ∙ h

  after_shard-Due :
      (block : e.Block) (r : Running e x S D) → Due r → Due (after_shard e x lib sv w block r).1
  unfolding after_shard set_last_time
  after_shard-Due block r h =
      with_register-Due (register_new_shard_block e x lib sv block r.node.masterchain)
        (record r { node = set_last_time e x lib sv r.gen_time r.node })
        (register-Flagged block r.node.masterchain) h

  -- The rest of the step for a master block, from what the generation gives.
  made-Due :
      (mc : ℕ) (made : NodeResult (Option e.Block)) (m m' : Masterchain e x S D)
      (r : Running e x S D)
      → Outcome e x lib sv mc m (made, m')
      → r.node.masterchain ≡ m'
      → m.shards_has_been_changed ≡ due at_start r.stamps
      → Due (continue made (stamped e x lib sv w) r).1
  unfolding set_last_time
  made-Due mc (ok none) m m' r out same h =
      ap (λ (m : Masterchain e x S D). m.shards_has_been_changed) (same ∙ out.0) ∙ h
  made-Due mc (ok (some block)) m m' r out same h =
      ap (λ (m : Masterchain e x S D). m.shards_has_been_changed) (same ∙ out.left)
  made-Due mc (err error) m m' r out same h =
      ap (λ (m : Masterchain e x S D). m.shards_has_been_changed) same ∙ (out.1 ∙ h)
  made-Due mc panic m m' r out same h =
      ap (λ (m : Masterchain e x S D). m.shards_has_been_changed) same ∙ (out.1 ∙ h)

  master_step-Due : (mc : ℕ) (r : Running e x S D) → Due r → Due (master_step e x lib sv w mc r).1
  unfolding master_step
  master_step-Due mc r h =
      made-Due mc _ r.node.masterchain _ _
        (generate_block-Outcome e x lib sv w.build_fuel (w.seed r.builds) mc
          (interleave e x lib sv w r).gen_time
          (time_mode e x lib sv (interleave e x lib sv w r).node) r.node.masterchain
          (interleave e x lib sv w r).node.message_queue)
        refl h

  pub steps-IsInvariant : IsInvariant e x lib sv w Due
  steps-IsInvariant = record {
    shard = shard_step-Due;
    after = after_shard-Due;
    master = master_step-Due;
  }

  -- Where no master block comes of a round, none is due.
  abbrev pub Settled : Running e x S D → Type 0
  Settled r = r.node.masterchain.shards_has_been_changed ≡ false

  made-Settled :
      (mc : ℕ) (made : NodeResult (Option e.Block)) (m m' : Masterchain e x S D)
      (r : Running e x S D)
      → Outcome e x lib sv mc m (made, m')
      → r.node.masterchain ≡ m'
      → Post (λ _ r'. Settled r') (continue made (stamped e x lib sv w) r)
  unfolding set_last_time
  made-Settled mc (ok none) m m' r out same =
      ap (λ (m : Masterchain e x S D). m.shards_has_been_changed) (same ∙ out.0) ∙ out.1
  made-Settled mc (ok (some block)) m m' r out same =
      ap (λ (m : Masterchain e x S D). m.shards_has_been_changed) (same ∙ out.left)
  made-Settled mc (err error) m m' r out same = tt
  made-Settled mc panic m m' r out same = tt

  master_step-Settled :
      (mc : ℕ) (r : Running e x S D) → Post (λ _ r'. Settled r') (master_step e x lib sv w mc r)
  unfolding master_step
  master_step-Settled mc r =
      made-Settled mc _ r.node.masterchain _ _
        (generate_block-Outcome e x lib sv w.build_fuel (w.seed r.builds) mc
          (interleave e x lib sv w r).gen_time
          (time_mode e x lib sv (interleave e x lib sv w r).node) r.node.masterchain
          (interleave e x lib sv w r).node.message_queue)
        refl

  round-Settled :
      (fuel : ℕ) (r : Running e x S D) → Post (λ _ r'. Settled r') (round e x lib sv w fuel r)
  unfolding round
  round-Settled fuel r = Post-lift _ (next_seq_no e x lib sv r.node.masterchain) _ r λ mc _.
      Post-bind _ (shard_blocks e x lib sv w fuel mc false r) _ (
        Post-intro _ (shard_blocks e x lib sv w fuel mc false r).0 _ λ any _.
          Post-then _ _ (master_step e x lib sv w mc (shard_blocks e x lib sv w fuel mc false r).1)
            _ (master_step-Settled mc _) λ made r' h. h)

  again-Settled :
      (rest : Exec (Running e x S D) (Unit {0}))
      → ((r : Running e x S D) → Post (λ _ r'. Settled r') (rest r))
      → (got : Bool × Bool) (r : Running e x S D) → Settled r
      → Post (λ _ r'. Settled r') (again e x lib sv w rest got r)
  again-Settled rest k (false, false) r h = h
  again-Settled rest k (false, true) r h = k r
  again-Settled rest k (true, made) r h = k r

  pub rounds-Settled :
      (n fuel : ℕ) (r : Running e x S D) → Post (λ _ r'. Settled r') (rounds e x lib sv w n fuel r)
  unfolding rounds
  rounds-Settled zero fuel r = tt
  rounds-Settled (suc n) fuel r =
      let rest = rounds-Settled n fuel in
      Post-then _ _ (round e x lib sv w fuel r) _ (round-Settled fuel r)
        (again-Settled (rounds e x lib sv w n fuel) rest)

module _ (e : EverBlock) (x : ExecLib e) (lib : McLib e x) {S D : Type 0} (sv : Services e S D)
    (w : World x.Message) where
  -- Whatever the API's threads do meanwhile, and also where the execution fails: the masterchain's mark
  -- that a master block is due is set exactly if the last registered block has no master block behind
  -- it, or if there is no block and the mark was set at the start.
  pub execute_queued_messages-due :
      (fuel : ℕ) (node : TonNodeEngine e x S D)
      → (execute_queued_messages e x lib sv w fuel node).1.node.masterchain.shards_has_been_changed
        ≡ due node.masterchain.shards_has_been_changed
            (execute_queued_messages e x lib sv w fuel node).1.stamps
  unfolding execute_queued_messages
  execute_queued_messages-due fuel node =
      rounds-Keeps e x lib sv w (Due e x lib sv w node.masterchain.shards_has_been_changed)
        (steps-IsInvariant e x lib sv w node.masterchain.shards_has_been_changed) fuel fuel
        (begin e x lib sv w node) refl

  -- If the execution succeeds, each shard's block has a master block behind it: none is due.
  pub execute_queued_messages-settled :
      (fuel : ℕ) (node : TonNodeEngine e x S D)
      → (execute_queued_messages e x lib sv w fuel node).0 ≡ ok tt
      → ((execute_queued_messages e x lib sv w fuel node).1.node.masterchain.shards_has_been_changed
          ≡ false)
        × (due node.masterchain.shards_has_been_changed
              (execute_queued_messages e x lib sv w fuel node).1.stamps
            ≡ false)
  unfolding execute_queued_messages
  execute_queued_messages-settled fuel node done =
      let settled =
        Post-run _ (execute_queued_messages e x lib sv w fuel node) tt
          (rounds-Settled e x lib sv w node.masterchain.shards_has_been_changed fuel fuel
            (begin e x lib sv w node))
          done in
      (settled, sym (execute_queued_messages-due fuel node) ∙ settled)
