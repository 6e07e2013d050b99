-- ===== src/Engine/Masterchain/Register.antt =====
-- The register of shards, and what a master block carries of it.
use evernode_se.Common.{
  ℕ, ◌≡◌, refl, sym, ap, subst, ◌∙◌, inl, inr, true, false, Option, none, some, List, [], ◌∷◌,
  Bool-cases, arith, if◌then◌else◌,
}
use evernode_se.Common.Int.{ℤ}
use evernode_se.Common.Assoc.{Assoc, Key, eqb, eqb_iff, get-insert, get-remove}
use evernode_se.Common.Assoc
use evernode_se.Common.Result.{ok, >>=-eq-ok, ok-injective}
use evernode_se.Common.Post.{Post, Post-lift}
use evernode_se.Engine.Masterchain.{
  Masterchain, McLib, ShardDescr, ShardInfo, descr_of, shard_key, set_shards, insert_all,
  register_new_shard_block,
}
use evernode_se.Block.Ever.{EverBlock}
use evernode_se.Block.Executor.{ExecLib}
use evernode_se.Block.ShardBlock.{unwrap}
use evernode_se.Block.Finality.{Services}

module _ (e : EverBlock) (x : ExecLib e) (lib : McLib e x) where
  instance abbrev ident : Key e.ShardIdent
  ident = lib.ident_key

  abbrev pub items : lib.McExtra → Assoc e.ShardIdent ShardDescr
  items extra = insert_all e x lib [] (lib.shard_items extra).0

  -- What is written into a block is read back; a shard that is set is visited, and replaces the one of
  -- its workchain.
  pub record IsMcLib : Type 1 where
    pub read-write_extra :
        (extra : lib.Extra) (b b' : e.Block)
        → lib.write_extra extra b ≡ ok b'
        → lib.read_extra b' ≡ ok extra
    pub read-write_custom :
        (mc : lib.McExtra) (extra extra' : lib.Extra)
        → lib.write_custom mc extra ≡ ok extra'
        → lib.read_custom extra' ≡ ok (some mc)
    pub config-set_config :
        (c : lib.RawConfig) (mc : lib.McExtra) → lib.config (lib.set_config c mc) ≡ some c
    pub config-set_shard :
        (w : ℤ) (d : ShardDescr) (mc mc' : lib.McExtra)
        → lib.set_shard w d mc ≡ ok mc'
        → lib.config mc' ≡ lib.config mc
    pub config_eqb-refl : (c : lib.RawConfig) → lib.config_eqb c c ≡ true
    pub items-default :
        (c : lib.RawConfig) → lib.shard_items (lib.set_config c lib.default_extra) ≡ ([], ok tt)
    pub items-set_shard :
        (w : ℤ) (d : ShardDescr) (mc mc' : lib.McExtra)
        → lib.set_shard w d mc ≡ ok mc'
        → (lib.shard_items mc).1 ≡ ok tt
        → ((lib.shard_items mc').1 ≡ ok tt)
          × ((s : e.ShardIdent)
              → Assoc.get (items mc') s
                ≡ (if eqb (lib.full_shard w) s then some d else Assoc.get (items mc) s))

  -- Each shard is there once and is the whole of its workchain.
  abbrev pub WellFormed : Assoc e.ShardIdent ShardDescr → Type 0
  WellFormed [] = Unit
  WellFormed ((s, d) ∷ rest) =
      (lib.full_shard (x.shard_workchain s) ≡ s) × (Assoc.get rest s ≡ none) × WellFormed rest

  remove-WellFormed :
      (l : Assoc e.ShardIdent ShardDescr) (i : e.ShardIdent)
      → WellFormed l
      → WellFormed (Assoc.remove l i)
  unfolding Assoc.remove
  remove-WellFormed [] i h = tt
  remove-WellFormed ((s, d) ∷ rest) i (full, once, h) = elim (Bool-cases (eqb s i)) [
    | inl same ↦ rw same (remove-WellFormed rest i h)
    | inr other ↦
        rw other (full, ground (arith, get-remove rest i s, once), remove-WellFormed rest i h)
  ]

  insert-WellFormed :
      (l : Assoc e.ShardIdent ShardDescr) (i : e.ShardIdent) (d : ShardDescr)
      → lib.full_shard (x.shard_workchain i) ≡ i
      → WellFormed l
      → WellFormed (Assoc.insert l i d)
  unfolding Assoc.insert
  insert-WellFormed l i d full h =
      (full, ground (arith, get-remove l i i, Assoc.eqb_refl i), remove-WellFormed l i h)

  abbrev pub or_else : Option ShardDescr → Option ShardDescr → Option ShardDescr
  or_else none o = o
  or_else (some d) o = some d

  or_else_set :
      (k s : e.ShardIdent) (d : ShardDescr) (rest after before : Assoc e.ShardIdent ShardDescr)
      → Assoc.get rest k ≡ none
      → Assoc.get after s ≡ (if eqb k s then some d else Assoc.get before s)
      → or_else (Assoc.get rest s) (Assoc.get after s)
        ≡ or_else (if eqb k s then some d else Assoc.get rest s) (Assoc.get before s)
  or_else_set k s d rest after before once looked = elim (Bool-cases (eqb k s)) [
    | inl same ↦
        let gone : Assoc.get rest s ≡ none =
          ap (Assoc.get rest) (sym ((eqb_iff k s).0 same)) ∙ once in
        rw (gone, looked, same) refl
    | inr other ↦ rw (looked, other) refl
  ]

  module _ (laws : IsMcLib) where
    pub set_shards-items :
        (l : Assoc e.ShardIdent ShardDescr) (mc mc' : lib.McExtra)
        → WellFormed l
        → set_shards e x lib l mc ≡ ok mc'
        → (lib.shard_items mc).1 ≡ ok tt
        → ((lib.shard_items mc').1 ≡ ok tt)
          × ((s : e.ShardIdent)
              → Assoc.get (items mc') s ≡ or_else (Assoc.get l s) (Assoc.get (items mc) s))
          × (lib.config mc' ≡ lib.config mc)
    unfolding set_shards Assoc.get
    set_shards-items [] mc mc' h set ended =
        let same : mc ≡ mc' = ok-injective set in
        (
          subst (λ m. (lib.shard_items m).1 ≡ ok tt) same ended,
          λ s. ap (λ m. Assoc.get (items m) s) (sym same),
          ap lib.config (sym same),
        )
    set_shards-items ((k, d) ∷ rest) mc mc' (full, once, h) set ended =
        let (mc1, first, more) = >>=-eq-ok (lib.set_shard (x.shard_workchain k) d mc) _ set in
        let (ended1, looked) = laws.items-set_shard (x.shard_workchain k) d mc mc1 first ended in
        let (ended', lookups, same_config) = set_shards-items rest mc1 mc' h more ended1 in
        (
          ended',
          λ s.
              lookups s
              ∙ or_else_set k s d rest (items mc1) (items mc) once (looked s ∙ rw full refl),
          same_config ∙ laws.config-set_shard (x.shard_workchain k) d mc mc1 first,
        )

  module _ {S D : Type 0} (sv : Services e S D) where
    -- If a block is registered, a master block is due, and the register has for the block's shard the
    -- fields of the block's header, the hash of its cell and the hash of this cell's bytes. It is as
    -- before for the other shards, and stays well-formed if the shard is the whole of its workchain.
    pub register_new_shard_block_lem :
        (block : e.Block) (info : ShardInfo e.ShardIdent) (m : Masterchain e x S D)
        → lib.shard_info block ≡ ok info
        → lib.full_shard (x.shard_workchain info.shard) ≡ info.shard
        → WellFormed m.shards
        → Post
            (λ _ m'.
              (cell : e.Cell) × (boc : List ℕ) × (unwrap (e.serialize_block block) ≡ ok cell)
              × (e.write_boc cell ≡ ok boc)
              × (m'.shards_has_been_changed ≡ true)
              × (Assoc.get m'.shards info.shard
                  ≡ some (record {
                    seq_no = info.seq_no;
                    reg_mc_seqno = 1;
                    start_lt = info.start_lt;
                    end_lt = info.end_lt;
                    root_hash = e.repr_hash cell;
                    file_hash = e.calc_file_hash boc;
                    before_split = info.before_split;
                    want_split = info.want_split;
                    want_merge = info.want_merge;
                    flags = info.flags;
                    next_validator_shard = lib.shard_prefix_with_tag info.shard;
                    min_ref_mc_seqno = info.min_ref_mc_seqno;
                    gen_utime = info.gen_utime;
                  }))
              × ((s : e.ShardIdent)
                  → eqb info.shard s ≡ false
                  → Assoc.get m'.shards s ≡ Assoc.get m.shards s)
              × WellFormed m'.shards)
            (register_new_shard_block e x lib sv block m)
    unfolding register_new_shard_block descr_of
    register_new_shard_block_lem block info m read full h = rw read (
        Post-lift _ (unwrap (e.serialize_block block)) _ m λ cell made.
          Post-lift _ (e.write_boc cell) _ m λ boc written. (
            cell,
            boc,
            made,
            written,
            refl,
            get-insert m.shards info.shard info.shard _ ∙ rw (Assoc.eqb_refl info.shard) refl,
            λ s other. get-insert m.shards info.shard s _ ∙ rw other refl,
            insert-WellFormed m.shards info.shard _ full h,
          ))
