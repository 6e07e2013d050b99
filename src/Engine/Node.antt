-- ===== src/Engine/Node.antt =====
-- node/src/engine/engine.rs: the engine over the masterchain, one workchain, the queue of inbound
-- messages and the block time. Its loop `run` is in Engine.Messages.Wakeup.
pub mod Invariant
pub mod Due
pub mod Stamps
mod Examples
use evernode_se.Common.{
  ℕ, zero, suc, ◌+◌, Bool, true, false, ◌&&◌, ◌||◌, Option, none, some, List, [], ◌∷◌,
  if◌then◌else◌,
}
use evernode_se.Common.Int.{ℤ}
use evernode_se.Common.Result.{NodeResult, ok, err, panic, ◌>>=◌ as bind, queue_full}
use evernode_se.Common.Exec.{Exec, continue, ◌>>=◌, ◌>>◌}
use evernode_se.Engine.Time.{
  BlockTime, BlockTimeMode, get_next, set_last, set_mode, increase_delta, reset_delta,
  new as new_time,
}
use evernode_se.Engine.Messages.{
  InMessagesQueue, QueueResult, queued, not_accepting, full, queue, is_empty, new as new_queue,
}
use evernode_se.Engine.Shardchain
use evernode_se.Engine.Shardchain.{Shardchain}
use evernode_se.Engine.Masterchain
use evernode_se.Engine.Masterchain.{
  Masterchain, McLib, register_new_shard_block, next_seq_no, restore_state,
}
use evernode_se.Block.Ever.{EverBlock}
use evernode_se.Block.Executor.{ExecLib}
use evernode_se.Block.Finality.{Services}

pub record TonNodeEngine (e : EverBlock) (x : ExecLib e) (S D : Type 0) : Type 0 where
  pub time : BlockTime
  pub message_queue : InMessagesQueue x.Message
  pub masterchain : Masterchain e x S D
  pub workchain : Shardchain e x S D

-- What the API's threads share with the engine.
pub record Shared (M : Type 0) : Type 0 where
  pub time : BlockTime
  pub message_queue : InMessagesQueue M

-- What comes from outside: the readings of the system clock, the seeds, what the API's threads do
-- before the n-th build of a block, and the fuel of a build.
pub record World (M : Type 0) : Type 0 where
  pub now : ℕ → ℕ
  pub seed : ℕ → ℕ
  pub others : ℕ → Shared M → Shared M
  pub build_fuel : ℕ

-- A shard's block that has been registered, or a master block, with its time.
pub data Stamp : Type 0 where
  shard_block : ℕ → Stamp
  master_block : ℕ → Stamp

-- A run of `execute_queued_messages`: its variable `gen_time`, the number of builds so far, and the
-- blocks so far, the last one first.
pub record Running (e : EverBlock) (x : ExecLib e) (S D : Type 0) : Type 0 where
  pub node : TonNodeEngine e x S D
  pub gen_time : ℕ
  pub builds : ℕ
  pub stamps : List Stamp

module _ (e : EverBlock) (x : ExecLib e) (lib : McLib e x) {S D : Type 0}
    (sv : Services e S D) where
  open x use {Message, Config, AccountId, ShardAccount}

  abbrev Node : Type 0
  Node = TonNodeEngine e x S D

  -- A full queue and one that is stopped give the same error.
  unfoldable pub enqueue_message : Message → Exec Node (Unit {0})
  enqueue_message msg node =
      let (r, q) = queue msg node.message_queue in
      (
        elim r [ queued ↦ ok tt | not_accepting ↦ err queue_full | full back ↦ err queue_full ],
        record node { message_queue = q },
      )

  unfoldable pub set_time_mode : BlockTimeMode → Node → Node
  set_time_mode mode node = record node { time = set_mode node.time mode }

  unfoldable pub increase_time_delta : ℕ → Node → Node
  increase_time_delta delta node = record node { time = increase_delta node.time delta }

  unfoldable pub reset_time_delta : Node → Node
  reset_time_delta node = record node { time = reset_delta node.time }

  unfoldable pub time_mode : Node → BlockTimeMode
  time_mode node = node.time.mode

  unfoldable pub time_delta : Node → ℕ
  time_delta node = node.time.delta

  unfoldable pub get_next_time : ℕ → Node → ℕ
  get_next_time now node = get_next now node.time

  unfoldable pub set_last_time : ℕ → Node → Node
  set_last_time time node = record node { time = set_last node.time time }

  unfoldable pub message_queues_are_empty : Node → Bool
  message_queues_are_empty node =
      Shardchain.out_message_queue_is_empty e x sv node.workchain
      && (Masterchain.out_message_queue_is_empty e x lib sv node.masterchain
          && is_empty node.message_queue)

  module _ (w : World Message) where
    abbrev Run : Type 0
    Run = Running e x S D

    abbrev pub interleave : Run → Run
    interleave r =
        let s =
          w.others r.builds (record { time = r.node.time; message_queue = r.node.message_queue }) in
        record r {
          node = record r.node { time = s.time; message_queue = s.message_queue };
          builds = suc r.builds;
        }

    unfoldable pub shard_step : ℕ → Exec Run (Option e.Block)
    shard_step mc_seq_no r =
        let i = interleave r in
        let (made, left) =
          Shardchain.generate_block e x sv w.build_fuel (w.seed r.builds) mc_seq_no i.gen_time
            (time_mode i.node) i.node.workchain i.node.message_queue in
        (made, record i { node = record i.node { workchain = left.0; message_queue = left.1 } })

    abbrev pub with_register : NodeResult (Unit {0}) × Masterchain e x S D → Exec Run (Unit {0})
    with_register (registered, m) r =
        continue registered
          (λ _ r'. (
            ok tt,
            record r' {
              gen_time = get_next_time (w.now r'.builds) r'.node;
              stamps = shard_block r.gen_time ∷ r.stamps;
            },
          ))
          (record r { node = record r.node { masterchain = m } })

    -- The body of the inner loop.
    unfoldable pub after_shard : e.Block → Exec Run (Unit {0})
    after_shard block r =
        let r' = record r { node = set_last_time r.gen_time r.node } in
        with_register (register_new_shard_block e x lib sv block r'.node.masterchain) r'

    abbrev pub next_shard : Exec Run Bool → Bool → Option e.Block → Exec Run Bool
    next_shard rest any none r = (ok any, r)
    next_shard rest any (some block) r = (after_shard block >> rest) r

    -- The inner loop, with fuel. The flag is `continue_processing`.
    unfoldable pub shard_blocks : ℕ → ℕ → Bool → Exec Run Bool
    unfolding shard_step after_shard
    shard_blocks zero mc_seq_no any r = (panic, r)
    shard_blocks (suc fuel) mc_seq_no any r =
        (shard_step mc_seq_no >>= next_shard (shard_blocks fuel mc_seq_no true) any) r

    abbrev pub stamped : Option e.Block → Exec Run Bool
    stamped none r = (ok false, r)
    stamped (some block) r = (
      ok true,
      record r {
        node = set_last_time r.gen_time r.node;
        stamps = master_block r.gen_time ∷ r.stamps;
      },
    )

    unfoldable pub master_step : ℕ → Exec Run Bool
    master_step mc_seq_no r =
        let i = interleave r in
        let (made, left) =
          Masterchain.generate_block e x lib sv w.build_fuel (w.seed r.builds) mc_seq_no i.gen_time
            (time_mode i.node) i.node.masterchain i.node.message_queue in
        continue made stamped
          (record i { node = record i.node { masterchain = left.0; message_queue = left.1 } })

    -- One round of the outer loop: whether there were shard's blocks, and whether a master block.
    unfoldable pub round : ℕ → Exec Run (Bool × Bool)
    unfolding shard_blocks master_step
    round fuel = do
      mc_seq_no ← (λ r. (next_seq_no e x lib sv r.node.masterchain, r))
      any ← shard_blocks fuel mc_seq_no false
      made ← master_step mc_seq_no
      (λ r. (ok (any, made), r))

    abbrev pub again : Exec Run (Unit {0}) → Bool × Bool → Exec Run (Unit {0})
    again rest (false, false) r = (ok tt, r)
    again rest (true, made) r = rest r
    again rest (false, true) r = rest r

    -- The outer loop, with fuel for each of the loops.
    unfoldable pub rounds : ℕ → ℕ → Exec Run (Unit {0})
    unfolding round
    rounds zero fuel r = (panic, r)
    rounds (suc n) fuel r = (round fuel >>= again (rounds n fuel)) r

    abbrev pub begin : Node → Run
    begin node = record {
      node = node;
      gen_time = get_next_time (w.now 0) node;
      builds = 0;
      stamps = [];
    }

    unfoldable pub execute_queued_messages : ℕ → Node → NodeResult (Unit {0}) × Run
    unfolding rounds
    execute_queued_messages fuel node = rounds fuel fuel (begin node)

    abbrev of_run : NodeResult (Unit {0}) × Run → NodeResult (Unit {0}) × Node
    of_run (r, run) = (r, run.node)

    unfoldable pub process_message : ℕ → Message → Exec Node (Unit {0})
    unfolding enqueue_message execute_queued_messages
    process_message fuel msg =
        enqueue_message msg >> (λ node. of_run (execute_queued_messages fuel node))

    -- A started engine, on the storages of the two chains and the gas limits of the configuration.
    unfoldable pub with_params :
        ℕ
        → ℤ
        → e.ShardIdent
        → Config
        → ℕ × ℕ
        → Option D
        → S × S
        → Option (AccountId → NodeResult (Option ShardAccount))
        → NodeResult Node
    unfolding execute_queued_messages
    with_params fuel global_id workchain_shard config gas documents_db storage provider =
        bind
          (Masterchain.with_params e x lib sv global_id config gas.0 documents_db storage.0
            provider)
          λ masterchain.
            bind
              (Shardchain.with_params e x sv workchain_shard global_id config gas.1 documents_db
                storage.1 provider)
              λ workchain.
                let (restored, mq) =
                  if workchain.finality_was_loaded
                  then restore_state e x lib sv w.build_fuel (w.seed 0)
                      (masterchain, new_queue 10000)
                  else (ok tt, (masterchain, new_queue 10000)) in
                bind restored λ _.
                  let node : Node = record {
                    time = new_time;
                    message_queue = mq.1;
                    masterchain = mq.0;
                    workchain = workchain;
                  } in
                  let (done, run) = execute_queued_messages fuel node in bind done λ _. ok run.node
