-- ===== src/Engine/Node/Stamps.antt =====
-- The times of the blocks of one execution.
use evernode_se.Common.{ℕ, ◌≡◌, refl, List, [], ◌∷◌, Option, none, some}
use evernode_se.Common.Result.{NodeResult, ok, err, panic}
use evernode_se.Common.Exec.{continue}
use evernode_se.Engine.Masterchain.{Masterchain, McLib, register_new_shard_block}
use evernode_se.Engine.Node.{
  TonNodeEngine, World, Stamp, shard_block, master_block, Running, shard_step, with_register,
  after_shard, stamped, master_step, begin, set_last_time, execute_queued_messages,
}
use evernode_se.Engine.Node.Invariant.{rounds-Keeps}
use evernode_se.Block.Ever.{EverBlock}
use evernode_se.Block.Executor.{ExecLib}
use evernode_se.Block.Finality.{Services}

abbrev pub time_of : Stamp → ℕ
time_of (shard_block t) = t
time_of (master_block t) = t

-- The time is that of the last block, where this is a master block.
abbrev pub RepeatsLast : ℕ → List Stamp → Type 0
RepeatsLast time [] = Unit
RepeatsLast time (shard_block t ∷ stamps) = Unit
RepeatsLast time (master_block t ∷ stamps) = time ≡ t

-- Each block that comes directly after a master block has the time of this master block.
abbrev pub RepeatsMaster : List Stamp → Type 0
RepeatsMaster [] = Unit
RepeatsMaster (stamp ∷ stamps) = RepeatsLast (time_of stamp) stamps × RepeatsMaster stamps

module _ (e : EverBlock) (x : ExecLib e) (lib : McLib e x) {S D : Type 0} (sv : Services e S D)
    (w : World x.Message) where
  abbrev Repeats : Running e x S D → Type 0
  Repeats r = RepeatsLast r.gen_time r.stamps × RepeatsMaster r.stamps

  shard_step-Repeats :
      (mc : ℕ) (r : Running e x S D) → Repeats r → Repeats (shard_step e x lib sv w mc r).1
  unfolding shard_step
  shard_step-Repeats mc r h = h

  with_register-Repeats :
      (p : NodeResult (Unit {0}) × Masterchain e x S D) (r : Running e x S D)
      → Repeats r
      → Repeats (with_register e x lib sv w p r).1
  with_register-Repeats (ok u, m) r h = (tt, h)
  with_register-Repeats (err error, m) r h = h
  with_register-Repeats (panic, m) r h = h

  after_shard-Repeats :
      (block : e.Block) (r : Running e x S D)
      → Repeats r
      → Repeats (after_shard e x lib sv w block r).1
  unfolding after_shard
  after_shard-Repeats block r h =
      with_register-Repeats
        (register_new_shard_block e x lib sv block
          (set_last_time e x lib sv r.gen_time r.node).masterchain)
        (record r { node = set_last_time e x lib sv r.gen_time r.node }) h

  stamped-Repeats :
      (made : NodeResult (Option e.Block)) (r : Running e x S D)
      → Repeats r
      → Repeats (continue made (stamped e x lib sv w) r).1
  stamped-Repeats (ok none) r h = h
  stamped-Repeats (ok (some block)) r h = (refl, h)
  stamped-Repeats (err error) r h = h
  stamped-Repeats panic r h = h

  master_step-Repeats :
      (mc : ℕ) (r : Running e x S D) → Repeats r → Repeats (master_step e x lib sv w mc r).1
  unfolding master_step
  master_step-Repeats mc r h = stamped-Repeats _ _ h

  -- Whatever the mode of time, the messages and the API's threads: each block of an execution that
  -- comes directly after a master block, be it a shard's or the next master block, has the same time as
  -- this master block.
  pub execute_queued_messages-RepeatsMaster :
      (fuel : ℕ) (node : TonNodeEngine e x S D)
      → RepeatsMaster (execute_queued_messages e x lib sv w fuel node).1.stamps
  unfolding execute_queued_messages
  execute_queued_messages-RepeatsMaster fuel node =
      (rounds-Keeps e x lib sv w Repeats
        (record {
          shard = shard_step-Repeats;
          after = after_shard-Repeats;
          master = master_step-Repeats;
        })
        fuel fuel (begin e x lib sv w node) (tt, tt)).1
