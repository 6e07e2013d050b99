-- ===== src/Service/Wired/Reset.antt =====
-- The node after a reset.
use evernode_se.Common.{
  ◌≡◌, refl, sym, ap, ◌∙◌, subst, String, true, ◌⊎◌, inl, inr, Bool-cases, Option, none, some,
}
use evernode_se.Common.Assoc.{eqb_refl}
use evernode_se.Common.Int.{ℤ}
use evernode_se.Common.Result.{NodeResult, ok, err, panic, not_found, ok-injective}
use evernode_se.Common.Exec.{Exec, lift}
use evernode_se.Common.Post.{bind-eq-ok, continue-keeps}
use evernode_se.Config.{ForkConfig, shard_ident, document_db_config}
use evernode_se.Data.Kv.{IsKv}
use evernode_se.Data.ShardStorage.{blocks_finality_info_key, zerostate_key}
use evernode_se.Data.FsStorage.{clear_db}
use evernode_se.Data.Documents.Arango.{ArangoHelper}
use evernode_se.Engine.Node.{TonNodeEngine, with_params}
use evernode_se.Block.Ever.{EverBlock}
use evernode_se.Block.Executor.{ExecLib}
use evernode_se.Block.Finality.{BlockFinality}
use evernode_se.Block.Finality.Disk.{load, load_fresh}
use evernode_se.Block.Finality.Cleared.{clear_db-no_index}
use evernode_se.Service.Manager.{
  Manager, on_outside, TonNodeServiceConfig, create_engine, blockchain_of, clear_outside, reset,
  stop, start, replace_and_start, clear_db as clear_all,
}
use evernode_se.Service.Wired.{
  NodeWorld, Wiring, wired, put_chain, clear_chain, clear_opened, open_chain, provider_of,
  on_storages,
}

module _ {e : EverBlock} {x : ExecLib e} {S F N V Value : Type 0}
    (u : Wiring e x S F N V Value) where
  -- An engine that is made from these storages.
  pub record Made (shard : e.ShardIdent) (chains : e.ShardIdent → S)
      (engine : TonNodeEngine e x S (ArangoHelper V)) : Type 0 where
    pub global_id : ℤ
    pub config : x.Config
    pub documents : ArangoHelper V
    pub provider : Option (x.AccountId → NodeResult (Option x.ShardAccount))
    pub made :
        with_params e x u.lib u.services u.world u.fuel global_id shard config
          (u.gas_limits config)
          (some documents)
          (chains u.lib.masterchain, chains shard)
          provider
        ≡ ok engine

  -- A chain that is started on this storage has no blocks from before, and is loaded as a new one.
  pub StartsFresh : S → Type 0
  StartsFresh s =
      (start : BlockFinality e S (ArangoHelper V))
      → start.storage ≡ s
      → load e u.services start
        ≡ load_fresh e u.services (u.services.kv.get zerostate_key start.storage) start

module _ {e : EverBlock} {x : ExecLib e} {S F N V Value : Type 0} (u : Wiring e x S F N V Value)
    (kvl : IsKv u.services.kv) where
  -- No block is indexed on the storage of the shard.
  abbrev NoIndex : NodeWorld e.ShardIdent S F N → e.ShardIdent → Type 0
  NoIndex w shard = u.services.kv.get blocks_finality_info_key (w.chains shard) ≡ err not_found

  put_chain-NoIndex :
      (shard other : e.ShardIdent) (s : S) (w : NodeWorld e.ShardIdent S F N)
      → u.services.kv.get blocks_finality_info_key s ≡ err not_found
      → (u.lib.ident_key.eqb shard other ≡ true) ⊎ NoIndex w other
      → NoIndex (put_chain u shard s w) other
  put_chain-NoIndex shard other s w gone (inl same) = rw same gone
  put_chain-NoIndex shard other s w gone (inr there) =
      elim (Bool-cases (u.lib.ident_key.eqb shard other)) [
        | inl same ↦ rw same gone
        | inr differs ↦ rw differs there
      ]

  clear_chain-NoIndex :
      (shard : e.ShardIdent) (w w' : NodeWorld e.ShardIdent S F N)
      → clear_chain u shard w ≡ (ok tt, w')
      → NoIndex w' shard × ((other : e.ShardIdent) → NoIndex w other → NoIndex w' other)
  clear_chain-NoIndex shard w w' done =
      let (path, w1, opened, h) =
        bind-eq-ok (open_chain u shard) (λ _. clear_opened u shard) w done in
      let cleared = clear_db-no_index u.services.kv kvl (w1.chains shard) (ap (λ p. p.0) h) in
      let left : put_chain u shard (clear_db u.services.kv (w1.chains shard)).1 w1 ≡ w' =
        ap (λ p. p.1) h in
      let same : w.chains ≡ w1.chains = ap (λ p. p.1.chains) opened in
      (
        subst (λ v. NoIndex v shard) left
            (put_chain-NoIndex shard shard _ w1 cleared
              (inl (eqb_refl ⦃k = u.lib.ident_key⦄ shard))),
        λ other there.
            subst (λ v. NoIndex v other) left
              (put_chain-NoIndex shard other _ w1 cleared (
                inr (
                  subst
                    (λ chains.
                      u.services.kv.get blocks_finality_info_key (chains other) ≡ err not_found)
                    same there))),
      )

  clear_outside-NoIndex :
      (config : TonNodeServiceConfig x.Config Value) (shard : e.ShardIdent)
      (w w' : NodeWorld e.ShardIdent S F N)
      → clear_outside (wired u) config w ≡ (ok tt, w')
      → shard_ident u.configs config.node.shard_id ≡ ok shard
      → NoIndex w' shard × NoIndex w' u.lib.masterchain
  unfolding clear_outside wired
  clear_outside-NoIndex config shard w w' done named =
      let (text, w1, _, h1) =
        bind-eq-ok (lift (document_db_config u.configs config.node)) _ w done in
      let (documents, w2, _, h2) = bind-eq-ok ((wired u).connect text) _ w1 h1 in
      let (_, w3, _, h3) = bind-eq-ok ((wired u).clear_documents documents) _ w2 h2 in
      let (_, w4, _, h4) = bind-eq-ok (wired u).open_storage _ w3 h3 in
      let (shard', w5, named', h5) =
        bind-eq-ok (lift (shard_ident u.configs config.node.shard_id)) _ w4 h4 in
      let (_, w6, first, h6) =
        bind-eq-ok (clear_chain u shard') (λ _. clear_chain u u.lib.masterchain) w5 h5 in
      let same : shard' ≡ shard = ok-injective (sym (ap (λ p. p.0) named') ∙ named) in
      let (cleared, _) = clear_chain-NoIndex shard' w5 w6 first in
      let (master, kept) = clear_chain-NoIndex u.lib.masterchain w6 w' h6 in
      (subst (NoIndex w') same (kept shard' cleared), master)

  on_storages-ok :
      (r : NodeResult (TonNodeEngine e x S (ArangoHelper V))) (w w' : NodeWorld e.ShardIdent S F N)
      (engine : TonNodeEngine e x S (ArangoHelper V))
      → on_storages u r w ≡ (ok engine, w')
      → r ≡ ok engine
  on_storages-ok (ok made) w w' engine h = cc
  on_storages-ok (err error) w w' engine h = cc
  on_storages-ok panic w w' engine h = cc

  new_engine-Made :
      (global_id : ℤ) (shard : e.ShardIdent) (config : x.Config) (documents : ArangoHelper V)
      (fork : Option ForkConfig) (w w' : NodeWorld e.ShardIdent S F N)
      (engine : TonNodeEngine e x S (ArangoHelper V))
      → (wired u).new_engine global_id shard config documents fork w ≡ (ok engine, w')
      → Made u shard w.chains engine
  unfolding wired
  new_engine-Made global_id shard config documents fork w w' engine h =
      let (_, w1, first, h1) = bind-eq-ok (open_chain u u.lib.masterchain) _ w h in
      let (_, w2, second, h2) = bind-eq-ok (open_chain u shard) _ w1 h1 in
      let same : w2.chains ≡ w.chains =
        sym (ap (λ p. p.1.chains) first ∙ ap (λ p. p.1.chains) second) in
      subst (λ chains. Made u shard chains engine) same
        (record {
          global_id = global_id;
          config = config;
          documents = documents;
          provider = provider_of u w2.net fork;
          made = on_storages-ok _ w2 w' engine h2;
        })

  blockchain_of-chains :
      (fork : Option ForkConfig) (config : TonNodeServiceConfig x.Config Value)
      (w : NodeWorld e.ShardIdent S F N)
      → (blockchain_of (wired u) fork config w).1.chains ≡ w.chains
  unfolding wired
  blockchain_of-chains none config w = refl
  blockchain_of-chains (some fork) config w = refl

  -- The other actions leave the storages alone.
  open_storage-chains :
      (w : NodeWorld e.ShardIdent S F N) → ((wired u).open_storage w).1.chains ≡ w.chains
  unfolding wired
  open_storage-chains w =
      continue-keeps (λ (w : NodeWorld e.ShardIdent S F N). w.chains) w.chains _ _ refl
        λ path w' same. same

  connect-chains :
      (text : String) (w : NodeWorld e.ShardIdent S F N)
      → ((wired u).connect text w).1.chains ≡ w.chains
  unfolding wired
  connect-chains text w = refl

  chains-of :
      {A : Type 0} (act : Exec (NodeWorld e.ShardIdent S F N) A)
      (w w' : NodeWorld e.ShardIdent S F N) (a : A)
      → (act w).1.chains ≡ w.chains
      → act w ≡ (ok a, w')
      → w'.chains ≡ w.chains
  chains-of act w w' a same done = sym (ap (λ p. p.1.chains) done) ∙ same

  create_engine-Made :
      (config : TonNodeServiceConfig x.Config Value) (shard : e.ShardIdent)
      (w w' : NodeWorld e.ShardIdent S F N) (engine : TonNodeEngine e x S (ArangoHelper V))
      → shard_ident u.configs config.node.shard_id ≡ ok shard
      → create_engine (wired u) config w ≡ (ok engine, w')
      → Made u shard w.chains engine
  unfolding create_engine wired
  create_engine-Made config shard w w' engine named' h =
      let (_, w1, e1, h1) = bind-eq-ok (wired u).open_storage _ w h in
      let (chain, w2, e2, h2) =
        bind-eq-ok (blockchain_of (wired u) config.node.fork config) _ w1 h1 in
      let (shard', w3, e3, h3) =
        bind-eq-ok (lift (shard_ident (wired u).configs config.node.shard_id)) _ w2 h2 in
      let (text, w4, e4, h4) =
        bind-eq-ok (lift (document_db_config (wired u).configs config.node)) _ w3 h3 in
      let (documents, w5, e5, h5) = bind-eq-ok ((wired u).connect text) _ w4 h4 in
      let made =
        new_engine-Made chain.1 shard' chain.0 documents config.node.fork w5 w' engine h5 in
      let same : w5.chains ≡ w.chains =
        chains-of ((wired u).connect text) w4 w5 documents (connect-chains text w4) e5
        ∙ (chains-of (lift (document_db_config (wired u).configs config.node)) w3 w4 text refl e4
            ∙ (chains-of (lift (shard_ident (wired u).configs config.node.shard_id)) w2 w3 shard'
                  refl e3
                ∙ (chains-of (blockchain_of (wired u) config.node.fork config) w1 w2 chain
                      (blockchain_of-chains config.node.fork config w1) e2
                    ∙ chains-of (wired u).open_storage w w1 tt (open_storage-chains w) e1))) in
      let is_shard : shard' ≡ shard = ok-injective (sym (ap (λ p. p.0) e3) ∙ named') in
      subst (λ chains. Made u shard chains engine) same
        (subst (λ i. Made u i w5.chains engine) is_shard made)

  no_index-StartsFresh :
      (s : S) → u.services.kv.get blocks_finality_info_key s ≡ err not_found → StartsFresh u s
  unfolding load StartsFresh
  no_index-StartsFresh s gone start here = rw (here, gone) refl

  -- After a reset that succeeds, the node's engine is one that was made from storages on which both
  -- chains start as new ones, from the zerostate where one is there, whatever the storages held before.
  -- The storages keep the laws of a storage, and the configuration names a shard.
  pub reset-StartsFresh :
      (m m' : Manager (wired u)) (shard : e.ShardIdent)
      → shard_ident u.configs m.original_config.node.shard_id ≡ ok shard
      → reset (wired u) m ≡ (ok tt, m')
      → (chains : e.ShardIdent → S) × Made u shard chains m'.engine
        × StartsFresh u (chains u.lib.masterchain)
        × StartsFresh u (chains shard)
  unfolding reset clear_all stop replace_and_start start
  reset-StartsFresh m m' shard named done =
      let (_, m1, cleared, h1) =
        bind-eq-ok (clear_all (wired u)) (λ _. replace_and_start (wired u) m.original_config)
          (stop (wired u) m) done in
      let config = m.original_config in
      let emptied : clear_outside (wired u) config (stop (wired u) m).outside
          ≡ (ok tt, m1.outside) =
        ap (λ p. (p.0, p.1.outside)) cleared in
      let (none_there, no_master) =
        clear_outside-NoIndex config shard (stop (wired u) m).outside m1.outside emptied named in
      let (engine, m2, made, h2) =
        bind-eq-ok (on_outside (wired u) (create_engine (wired u) config)) _ m1 h1 in
      let engine_made : create_engine (wired u) config m1.outside ≡ (ok engine, m2.outside) =
        ap (λ p. (p.0, p.1.outside)) made in
      let same : engine ≡ m'.engine = ap (λ p. p.1.engine) h2 in
      (
        m1.outside.chains,
        subst (Made u shard m1.outside.chains) same
            (create_engine-Made config shard m1.outside m2.outside engine named engine_made),
        no_index-StartsFresh (m1.outside.chains u.lib.masterchain) no_master,
        no_index-StartsFresh (m1.outside.chains shard) none_there,
      )
