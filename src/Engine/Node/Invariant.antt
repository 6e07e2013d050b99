-- ===== src/Engine/Node/Invariant.antt =====
-- Invariants of `execute_queued_messages`, from its steps.
use evernode_se.Common.{ℕ, zero, suc, Bool, true, false, Option, none, some}
use evernode_se.Common.Result.{NodeResult, ok, err, panic}
use evernode_se.Common.Exec.{Exec, continue, ◌>>=◌}
use evernode_se.Engine.Masterchain.{McLib, next_seq_no}
use evernode_se.Engine.Node.{
  World, Running, shard_step, after_shard, next_shard, shard_blocks, master_step, round, again,
  rounds,
}
use evernode_se.Block.Ever.{EverBlock}
use evernode_se.Block.Executor.{ExecLib}
use evernode_se.Block.Finality.{Services}

module _ {R : Type 0} (I : R → Type 0) where
  -- The action keeps it, also where it fails.
  abbrev pub Keeps : {A : Type 0} → Exec R A → Type 0
  Keeps m = (r : R) → I r → I (m r).1

  continue-Keeps :
      {A B : Type 0} (p : NodeResult A × R) (f : A → Exec R B)
      → I p.1
      → ((a : A) → Keeps (f a))
      → I (continue p.0 f p.1).1
  continue-Keeps (ok a, r) f h k = k a r h
  continue-Keeps (err error, r) f h k = h
  continue-Keeps (panic, r) f h k = h

  Keeps-bind :
      {A B : Type 0} (m : Exec R A) (f : A → Exec R B)
      → Keeps m
      → ((a : A) → Keeps (f a))
      → Keeps (m >>= f)
  Keeps-bind m f h k r i = continue-Keeps (m r) f (h r i) k

module _ (e : EverBlock) (x : ExecLib e) (lib : McLib e x) {S D : Type 0} (sv : Services e S D)
    (w : World x.Message) (I : Running e x S D → Type 0) where
  -- The three steps keep it, also where they fail.
  pub record IsInvariant : Type 0 where
    pub shard : (mc : ℕ) (r : Running e x S D) → I r → I (shard_step e x lib sv w mc r).1
    pub after :
        (block : e.Block) (r : Running e x S D) → I r → I (after_shard e x lib sv w block r).1
    pub master : (mc : ℕ) (r : Running e x S D) → I r → I (master_step e x lib sv w mc r).1

  module _ (steps : IsInvariant) where
    next_shard-Keeps :
        (rest : Exec (Running e x S D) Bool) (any : Bool) (made : Option e.Block)
        → Keeps I rest
        → Keeps I (next_shard e x lib sv w rest any made)
    next_shard-Keeps rest any none h = λ r i. i
    next_shard-Keeps rest any (some block) h =
        Keeps-bind I (after_shard e x lib sv w block) (λ _. rest) (steps.after block) (λ _. h)

    shard_blocks-Keeps :
        (fuel mc : ℕ) (any : Bool) → Keeps I (shard_blocks e x lib sv w fuel mc any)
    unfolding shard_blocks
    shard_blocks-Keeps zero mc any = λ r i. i
    shard_blocks-Keeps (suc fuel) mc any =
        let rest = shard_blocks-Keeps fuel mc true in
        Keeps-bind I (shard_step e x lib sv w mc)
          (next_shard e x lib sv w (shard_blocks e x lib sv w fuel mc true) any) (steps.shard mc)
          (λ made. next_shard-Keeps (shard_blocks e x lib sv w fuel mc true) any made rest)

    round-Keeps : (fuel : ℕ) → Keeps I (round e x lib sv w fuel)
    unfolding round
    round-Keeps fuel =
        Keeps-bind I (λ r. (next_seq_no e x lib sv r.node.masterchain, r))
          (λ mc.
            shard_blocks e x lib sv w fuel mc false
            >>= (λ any. master_step e x lib sv w mc >>= (λ made r. (ok (any, made), r))))
          (λ r i. i)
          λ mc.
            Keeps-bind I (shard_blocks e x lib sv w fuel mc false)
              (λ any. master_step e x lib sv w mc >>= (λ made r. (ok (any, made), r)))
              (shard_blocks-Keeps fuel mc false)
              λ any.
                Keeps-bind I (master_step e x lib sv w mc) (λ made r. (ok (any, made), r))
                  (steps.master mc) (λ made r i. i)

    again-Keeps :
        (rest : Exec (Running e x S D) (Unit {0})) (got : Bool × Bool)
        → Keeps I rest
        → Keeps I (again e x lib sv w rest got)
    again-Keeps rest (false, false) h = λ r i. i
    again-Keeps rest (false, true) h = h
    again-Keeps rest (true, made) h = h

    pub rounds-Keeps : (n fuel : ℕ) → Keeps I (rounds e x lib sv w n fuel)
    unfolding rounds
    rounds-Keeps zero fuel = λ r i. i
    rounds-Keeps (suc n) fuel =
        let rest = rounds-Keeps n fuel in
        Keeps-bind I (round e x lib sv w fuel) (again e x lib sv w (rounds e x lib sv w n fuel))
          (round-Keeps fuel) (λ got. again-Keeps (rounds e x lib sv w n fuel) got rest)
