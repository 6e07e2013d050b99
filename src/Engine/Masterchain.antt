-- ===== src/Engine/Masterchain.antt =====
-- node/src/engine/masterchain.rs: the chain of master blocks, and the register of the other shards'
-- last blocks that each master block carries. What it uses of the library beside the models of
-- Block.Ever and Block.Executor is the parameter McLib.
pub mod Outcome
pub mod Register
pub mod Restore
pub mod Sample
mod Examples
use evernode_se.Common.{
  ℕ, ◌≡◌, Bool, true, false, not, ◌&&◌, Option, none, some, List, [], ◌∷◌, if◌then◌else◌,
}
use evernode_se.Common.Int.{ℤ}
use evernode_se.Common.Assoc.{Assoc, Key}
use evernode_se.Common.Assoc
use evernode_se.Common.Result.{NodeResult, ok, err, panic, ◌>>=◌ as bind}
use evernode_se.Common.Exec.{Exec, continue, lift, ◌>>=◌}
use evernode_se.Engine.Time.{BlockTimeMode, system}
use evernode_se.Engine.Messages.{InMessagesQueue}
use evernode_se.Engine.Shardchain.{
  Shardchain, build_block, finality_and_apply_block, get_last_finalized_block, nex_seq_no,
  with_params as new_shardchain, out_message_queue_is_empty as chain_queue_is_empty,
}
use evernode_se.Block.Ever.{EverBlock}
use evernode_se.Block.Executor.{ExecLib}
use evernode_se.Block.ShardBlock.{unwrap}
use evernode_se.Block.Finality.{Services}
use evernode_se.Block.Builder.Build.{PreparedBlock}
pub use evernode_se.Engine.MasterLib.{ShardDescr, ShardInfo, McLib}

pub record Masterchain (e : EverBlock) (x : ExecLib e) (S D : Type 0) : Type 0 where
  pub blockchain_config : x.Config
  pub shardchain : Shardchain e x S D
  pub shards : Assoc e.ShardIdent ShardDescr
  pub shards_has_been_changed : Bool

-- `.ok()`
unfoldable pub attempt {ℓ} : {A : Type ℓ} → NodeResult A → NodeResult (Option A)
attempt (ok a) = ok (some a)
attempt (err error) = ok none
attempt panic = panic

module _ (e : EverBlock) (x : ExecLib e) (lib : McLib e x) where
  open lib use {McExtra, Extra}

  instance abbrev pub shard_key : Key e.ShardIdent
  shard_key = lib.ident_key

  -- The loop over the register, from the extra of the master block so far.
  unfoldable pub set_shards : Assoc e.ShardIdent ShardDescr → McExtra → NodeResult McExtra
  set_shards [] extra = ok extra
  set_shards ((shard, descr) ∷ rest) extra =
      bind (lib.set_shard (x.shard_workchain shard) descr extra) (set_shards rest)

  -- The visited items, put into the register.
  abbrev pub insert_all :
      Assoc e.ShardIdent ShardDescr
      → List (e.ShardIdent × ShardDescr)
      → Assoc e.ShardIdent ShardDescr
  insert_all shards [] = shards
  insert_all shards ((shard, descr) ∷ items) = insert_all (Assoc.insert shards shard descr) items

  unfoldable pub descr_of : ShardInfo e.ShardIdent → ℕ → ℕ → ShardDescr
  descr_of info root_hash file_hash = record {
    seq_no = info.seq_no;
    reg_mc_seqno = 1;
    start_lt = info.start_lt;
    end_lt = info.end_lt;
    root_hash = root_hash;
    file_hash = file_hash;
    before_split = info.before_split;
    want_split = info.want_split;
    want_merge = info.want_merge;
    flags = info.flags;
    next_validator_shard = lib.shard_prefix_with_tag info.shard;
    min_ref_mc_seqno = info.min_ref_mc_seqno;
    gen_utime = info.gen_utime;
  }

  -- `read_extra().ok()`, `read_custom().ok()` and `flatten`
  unfoldable pub mc_extra_of : NodeResult e.Block → NodeResult (Option McExtra)
  unfolding attempt
  mc_extra_of (ok block) = bind (attempt (lib.read_extra block)) λ extra. elim extra [
    | none ↦ ok none
    | some found ↦
        bind (attempt (lib.read_custom found))
          λ custom. elim custom [ none ↦ ok none | some inner ↦ ok inner ]
  ]
  mc_extra_of (err error) = ok none
  mc_extra_of panic = panic

  module _ {S D : Type 0} (sv : Services e S D) where
    open x use {Message, Config, AccountId, ShardAccount}

    abbrev Mc : Type 0
    Mc = Masterchain e x S D

    unfoldable pub with_params :
        ℤ
        → Config
        → ℕ
        → Option D
        → S
        → Option (AccountId → NodeResult (Option ShardAccount))
        → NodeResult Mc
    with_params global_id config gas_limit documents_db storage provider =
        bind
          (new_shardchain e x sv lib.masterchain global_id config gas_limit documents_db storage
            provider)
          λ shardchain. ok (record {
            blockchain_config = config;
            shardchain = shardchain;
            shards = [];
            shards_has_been_changed = false;
          })

    unfoldable pub next_seq_no : Mc → NodeResult ℕ
    next_seq_no m = nex_seq_no e x sv m.shardchain

    unfoldable pub out_message_queue_is_empty : Mc → Bool
    out_message_queue_is_empty m = chain_queue_is_empty e x sv m.shardchain

    unfoldable pub register_new_shard_block : e.Block → Exec Mc (Unit {0})
    unfolding descr_of
    register_new_shard_block block = do
      info ← lift (lib.shard_info block)
      block_cell ← lift (unwrap (e.serialize_block block))
      block_boc ← lift (e.write_boc block_cell)
      (λ m.
          let descr = descr_of info (e.repr_hash block_cell) (e.calc_file_hash block_boc) in
          (
            ok tt,
            record m {
              shards = Assoc.insert m.shards info.shard descr;
              shards_has_been_changed = true;
            },
          ))

    -- The built block as a key block with the configuration and the register.
    unfoldable pub master_block : Mc → e.Block → NodeResult e.Block
    unfolding set_shards
    master_block m built = bind (lib.set_key_block built) λ block.
        bind (lib.read_extra block) λ extra.
          bind
            (set_shards m.shards
              (lib.set_config (lib.raw_config m.blockchain_config) lib.default_extra))
            λ mc_extra.
              bind (lib.write_custom mc_extra extra) λ custom. lib.write_extra custom block

    unfoldable pub apply_master : ℕ → PreparedBlock e → e.Block → Exec Mc (Option e.Block)
    apply_master mc_seq_no built block m =
        let (applied, shardchain) =
          finality_and_apply_block e x sv mc_seq_no block built.state built.transaction_traces
            m.shardchain in
        continue applied (λ _ m'. (ok (some block), record m' { shards_has_been_changed = false }))
          (record m { shardchain = shardchain })

    unfoldable pub put_master : ℕ → NodeResult (PreparedBlock e) → Exec Mc (Option e.Block)
    unfolding master_block apply_master
    put_master mc_seq_no (ok built) m =
        if built.is_empty && not m.shards_has_been_changed
        then (ok none, m)
        else continue (master_block m built.block) (apply_master mc_seq_no built) m
    put_master mc_seq_no (err error) m = (err error, m)
    put_master mc_seq_no panic m = (panic, m)

    unfoldable pub generate_block :
        ℕ
        → ℕ
        → ℕ
        → ℕ
        → BlockTimeMode
        → Mc
        → InMessagesQueue Message
        → NodeResult (Option e.Block) × (Mc × InMessagesQueue Message)
    unfolding put_master
    generate_block fuel seed mc_seq_no time time_mode m q =
        let (built, q') = build_block e x sv fuel seed time time_mode m.shardchain q in
        let (made, m') = put_master mc_seq_no built m in (made, (m', q'))

    unfoldable pub get_last_finalized_mc_extra : Mc → NodeResult (Option McExtra)
    unfolding mc_extra_of
    get_last_finalized_mc_extra m = mc_extra_of (get_last_finalized_block e x sv m.shardchain)

    -- A configuration other than the last one is put into a new master block.
    unfoldable pub restore_config :
        ℕ → ℕ → Option lib.RawConfig → Exec (Mc × InMessagesQueue Message) (Unit {0})
    restore_config fuel seed none mq = (ok tt, mq)
    restore_config fuel seed (some last_config) mq =
        if lib.config_eqb last_config (lib.raw_config mq.0.blockchain_config)
        then (ok tt, mq)
        else continue (next_seq_no mq.0)
            (λ mc_seq_no mq'.
              let (made, mq'') = generate_block fuel seed mc_seq_no 0 system mq'.0 mq'.1 in
              continue made (λ _ mq3. (ok tt, mq3)) mq'')
            mq

    unfoldable pub restore_from :
        ℕ → ℕ → Option McExtra → Exec (Mc × InMessagesQueue Message) (Unit {0})
    unfolding restore_config
    restore_from fuel seed none mq = (ok tt, mq)
    restore_from fuel seed (some extra) mq =
        let (items, ended) = lib.shard_items extra in
        continue ended
          (λ _ mq'.
            restore_config fuel seed (lib.config extra)
              (record mq'.0 { shards_has_been_changed = true }, mq'.1))
          (record mq.0 { shards = insert_all mq.0.shards items }, mq.1)

    unfoldable pub restore_state : ℕ → ℕ → Exec (Mc × InMessagesQueue Message) (Unit {0})
    unfolding get_last_finalized_mc_extra restore_from
    restore_state fuel seed mq =
        if mq.0.shardchain.finality_was_loaded
        then continue (get_last_finalized_mc_extra mq.0) (restore_from fuel seed) mq
        else (ok tt, mq)
