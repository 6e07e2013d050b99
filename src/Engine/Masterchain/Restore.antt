-- ===== src/Engine/Masterchain/Restore.antt =====
-- The register of shards, from a master block to a restarted masterchain.
use evernode_se.Common.{
  ℕ, ◌≡◌, refl, sym, ap, subst, ◌∙◌, Bool, true, false, Option, none, some, List, [],
}
use evernode_se.Common.Int.{ℤ}
use evernode_se.Common.Assoc.{Assoc, Key, eqb, eqb_iff, get-insert, get-remove}
use evernode_se.Common.Assoc
use evernode_se.Common.Result.{NodeResult, ok, ◌>>=◌ as bind, >>=-eq-ok, ok-injective}
use evernode_se.Data.Kv.{IsKv}
use evernode_se.Engine.Time.{BlockTimeMode}
use evernode_se.Engine.Messages.{InMessagesQueue}
use evernode_se.Engine.Shardchain
use evernode_se.Engine.Shardchain.{Shardchain, get_last_finalized_block}
use evernode_se.Engine.Masterchain.{
  Masterchain, McLib, ShardDescr, shard_key, set_shards, insert_all, master_block, generate_block,
  attempt, get_last_finalized_mc_extra, mc_extra_of, restore_config, restore_from, restore_state,
  with_params,
}
use evernode_se.Engine.Masterchain.Register.{IsMcLib, WellFormed, items, or_else, set_shards-items}
use evernode_se.Engine.Masterchain.Outcome.{Made, Outcome, generate_block-Outcome}
use evernode_se.Block.Ever.{EverBlock, IsEverBlock}
use evernode_se.Block.Executor.{ExecLib}
use evernode_se.Block.ShardBlock.{ShardBlock, with_block_and_state, unwrap}
use evernode_se.Block.ShardBlock.RoundTrip.{without_traces}
use evernode_se.Block.Finality.{BlockFinality, Services, with_params as new_finality}
use evernode_se.Block.Finality.Disk.{load}
use evernode_se.Block.Finality.Restart.{IsNew, put-load}

module _ (e : EverBlock) (x : ExecLib e) (lib : McLib e x) where
  instance abbrev ident : Key e.ShardIdent
  ident = lib.ident_key

  module _ (laws : IsMcLib e x lib) where
    -- A master block, from the register that it carries.
    record Carried (m_config : x.Config) (shards : Assoc e.ShardIdent ShardDescr) (block : e.Block)
        : Type 0 where
      extra : lib.McExtra
      found : mc_extra_of e x lib (ok block) ≡ ok (some extra)
      ended : (lib.shard_items extra).1 ≡ ok tt
      lookups : (s : e.ShardIdent) → Assoc.get (items e x lib extra) s ≡ Assoc.get shards s
      same_config : lib.config extra ≡ some (lib.raw_config m_config)

    or_else-none : (o : Option ShardDescr) → or_else e x lib o none ≡ o
    or_else-none none = refl
    or_else-none (some d) = refl

    module _ {S D : Type 0} (sv : Services e S D) where
      master_block-Carried :
          (m : Masterchain e x S D) (built block : e.Block)
          → WellFormed e x lib m.shards
          → master_block e x lib sv m built ≡ ok block
          → Carried m.blockchain_config m.shards block
      unfolding master_block mc_extra_of attempt Assoc.get
      master_block-Carried m built block h made =
          let raw : lib.RawConfig = lib.raw_config m.blockchain_config in
          let start : lib.McExtra = lib.set_config raw lib.default_extra in
          let (keyed, _, made1) = >>=-eq-ok (lib.set_key_block built) _ made in
          let (extra, _, made2) = >>=-eq-ok (lib.read_extra keyed) _ made1 in
          let (mc, set, made3) = >>=-eq-ok (set_shards e x lib m.shards start) _ made2 in
          let (custom, wrote, made4) = >>=-eq-ok (lib.write_custom mc extra) _ made3 in
          let nothing : lib.shard_items start ≡ ([], ok tt) = laws.items-default raw in
          let (ended, lookups, kept) =
            set_shards-items e x lib laws m.shards start mc h set (ap (λ p. p.1) nothing) in
          record {
            extra = mc;
            found =
                rw
                  (
                    laws.read-write_extra custom keyed block made4,
                    laws.read-write_custom mc extra custom wrote,
                  )
                  refl;
            ended = ended;
            lookups = λ s.
                lookups s
                ∙ (ap
                      (λ (p : List (e.ShardIdent × ShardDescr) × NodeResult (Unit {0})).
                        or_else e x lib (Assoc.get m.shards s)
                          (Assoc.get (insert_all e x lib [] p.0) s))
                      nothing
                    ∙ or_else-none (Assoc.get m.shards s));
            same_config = kept ∙ laws.config-set_config raw lib.default_extra;
          }

      -- What a masterchain that has just been started takes from such a block.
      restore_state-Carried :
          (fuel seed : ℕ) (started : Masterchain e x S D) (q : InMessagesQueue x.Message)
          (shards : Assoc e.ShardIdent ShardDescr)
          → started.shardchain.finality_was_loaded ≡ true
          → started.shards ≡ []
          → (c : Carried started.blockchain_config shards
              started.shardchain.block_finality.last_finalized_block.block)
          → restore_state e x lib sv fuel seed (started, q) ≡ (
            ok tt,
            (record started { shards = items e x lib c.extra; shards_has_been_changed = true }, q),
          )
      unfolding restore_state get_last_finalized_mc_extra get_last_finalized_block restore_from
          restore_config
      restore_state-Carried fuel seed started q shards loaded fresh c =
          simp (loaded, c.found, c.ended, c.same_config, laws.config_eqb-refl, fresh) refl

      Outcome-Made :
          (mc : ℕ) (m m' : Masterchain e x S D) (r : NodeResult (Option e.Block)) (block : e.Block)
          → Outcome e x lib sv mc m (r, m')
          → r ≡ ok (some block)
          → Made e x lib sv mc m block m'
      Outcome-Made mc m m' r block h made =
          subst (λ (r : NodeResult (Option e.Block)). Outcome e x lib sv mc m (r, m')) made h

      with_block_and_state-block :
          (block : e.Block) (state : e.State) (sb : ShardBlock e)
          → with_block_and_state e block state ≡ ok sb
          → sb.block ≡ block
      unfolding with_block_and_state
      with_block_and_state-block block state sb built =
          let (cell, _, built1) = >>=-eq-ok (unwrap (e.serialize_block block)) _ built in
          let (bytes, _, built2) = >>=-eq-ok (unwrap (e.write_boc cell)) _ built1 in
          let (info, _, built3) = >>=-eq-ok (unwrap (e.read_info block)) _ built2 in
          sym (ap (λ (b : ShardBlock e). b.block) (ok-injective built3))

      -- A masterchain that is started on a storage whose load gives a block.
      record Started (started : Masterchain e x S D) (config : x.Config) (block : e.Block)
          : Type 0 where
        loaded : started.shardchain.finality_was_loaded ≡ true
        fresh : started.shards ≡ []
        same_config : started.blockchain_config ≡ config
        last : started.shardchain.block_finality.last_finalized_block.block ≡ block

      with_params-Started :
          (global_id : ℤ) (config : x.Config) (gas_limit : ℕ) (db : Option D) (storage : S)
          (provider : Option (x.AccountId → NodeResult (Option x.ShardAccount)))
          (started : Masterchain e x S D) (sb : ShardBlock e)
          → load e sv (new_finality e sv global_id lib.masterchain storage db) ≡ (
            ok true,
            record (new_finality e sv global_id lib.masterchain storage db) {
              current_block = without_traces sb;
              last_finalized_block = without_traces sb;
            },
          )
          → with_params e x lib sv global_id config gas_limit db storage provider ≡ ok started
          → Started started config sb.block
      unfolding with_params Shardchain.with_params
      with_params-Started global_id config gas_limit db storage provider started sb loads start =
          let made : NodeResult Bool × BlockFinality e S D → NodeResult (Masterchain e x S D) = λ r.
            bind
              (bind {B = Shardchain e x S D} r.0 λ loaded. ok (record {
                finality_was_loaded = loaded;
                blockchain_config = config;
                block_finality = r.1;
                block_gas_limit = gas_limit;
                accounts_provider = provider;
              }))
              λ shardchain. ok (record {
                blockchain_config = config;
                shardchain = shardchain;
                shards = [];
                shards_has_been_changed = false;
              }) in
          let same = ok-injective (sym (ap made loads) ∙ start) in
          record {
            loaded = ap (λ (m : Masterchain e x S D). m.shardchain.finality_was_loaded) (sym same);
            fresh = ap (λ (m : Masterchain e x S D). m.shards) (sym same);
            same_config = ap (λ (m : Masterchain e x S D). m.blockchain_config) (sym same);
            last =
                ap
                  (λ (m : Masterchain e x S D).
                    m.shardchain.block_finality.last_finalized_block.block)
                  (sym same);
          }

      -- If a masterchain with nothing pending generates a master block that is new to its storage, a
      -- masterchain that is started on the storage that it left, with the same configuration, restores
      -- the whole register of shards, and will put it into its next master block. The storage and the
      -- libraries keep their laws, and each shard of the register is the whole of its workchain.
      pub generate_block-restore :
          (kvl : IsKv sv.kv) (ever : IsEverBlock e) (fuel seed mc_seq_no time : ℕ)
          (time_mode : BlockTimeMode) (m : Masterchain e x S D) (q : InMessagesQueue x.Message)
          (block : e.Block) (global_id : ℤ) (gas_limit : ℕ) (db : Option D)
          (provider : Option (x.AccountId → NodeResult (Option x.ShardAccount)))
          (started : Masterchain e x S D) (fuel' seed' : ℕ) (q' : InMessagesQueue x.Message)
          → m.shardchain.block_finality.blocks_by_hash ≡ []
          → m.shardchain.block_finality.blocks_by_no ≡ []
          → ((state : e.State) (sb : ShardBlock e)
              → with_block_and_state e block state ≡ ok sb
              → IsNew e sv m.shardchain.block_finality sb)
          → WellFormed e x lib m.shards
          → (generate_block e x lib sv fuel seed mc_seq_no time time_mode m q).0 ≡ ok (some block)
          → with_params e x lib sv global_id m.blockchain_config gas_limit db
              (generate_block e x lib sv fuel seed mc_seq_no time time_mode m
                q).1.0.shardchain.block_finality.storage
              provider
            ≡ ok started
          → (restored : Masterchain e x S D) × (restore_state e x lib sv fuel' seed' (started, q')
              ≡ (ok tt, (restored, q')))
            × (restored.shards_has_been_changed ≡ true)
            × ((s : e.ShardIdent) → Assoc.get restored.shards s ≡ Assoc.get m.shards s)
      unfolding new_finality
      generate_block-restore kvl ever fuel seed mc_seq_no time time_mode m q block global_id
            gas_limit db provider started fuel' seed' q' no_hash no_number new formed made start =
          let put =
            Outcome-Made mc_seq_no m
              (generate_block e x lib sv fuel seed mc_seq_no time time_mode m q).1.0
              (generate_block e x lib sv fuel seed mc_seq_no time time_mode m q).0 block
              (generate_block-Outcome e x lib sv fuel seed mc_seq_no time time_mode m q) made in
          let storage : S =
            (generate_block e x lib sv fuel seed mc_seq_no time time_mode m
              q).1.0.shardchain.block_finality.storage in
          let (sb, built, loads) =
            put-load e sv kvl mc_seq_no put.traces m.shardchain.block_finality ever block put.state
              (new_finality e sv global_id lib.masterchain storage db) no_hash no_number
              (new put.state) put.done
              (ap (λ (c : Masterchain e x S D). c.shardchain.block_finality.storage) put.left) in
          let s =
            with_params-Started global_id m.blockchain_config gas_limit db storage provider started
              sb loads start in
          let carried : Carried m.blockchain_config m.shards block =
            master_block-Carried m put.built block formed put.carries in
          let c : Carried started.blockchain_config m.shards
              started.shardchain.block_finality.last_finalized_block.block =
            subst
              (λ config.
                Carried config m.shards
                  started.shardchain.block_finality.last_finalized_block.block)
              (sym s.same_config)
              (subst (Carried m.blockchain_config m.shards)
                (sym (s.last ∙ with_block_and_state-block block put.state sb built)) carried) in
          (
            record started { shards = items e x lib c.extra; shards_has_been_changed = true },
            restore_state-Carried fuel' seed' started q' m.shards s.loaded s.fresh c,
            refl,
            c.lookups,
          )
