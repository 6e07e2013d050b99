-- ===== src/Block/Finality/Cleared.antt =====
-- A chain that is started on a storage that `FSStorage::clear_db` has reset.
use evernode_se.Common.{◌≡◌, refl, ap, ◌∙◌, subst, if◌then◌else◌}
use evernode_se.Common.Bytes.{bytes_eqb}
use evernode_se.Common.Result.{NodeResult, ok, err, panic, not_found}
use evernode_se.Common.Exec.{Exec, continue, ◌>>◌}
use evernode_se.Data.Kv.{StorageKey, KvStorage, IsKv}
use evernode_se.Data.FsStorage.{clear_db}
use evernode_se.Data.ShardStorage.{
  blocks_finality_info_key, shard_info_key, shard_state_block_key, zerostate_key,
}
use evernode_se.Block.Ever.{EverBlock}
use evernode_se.Block.Finality.{BlockFinality, Services}
use evernode_se.Block.Finality.Disk.{load, load_fresh}

continue-ok {ℓ} :
    {S A B : Type ℓ} (r : NodeResult A) (next : A → Exec S B) (s : S) {b : B}
    → (continue r next s).0 ≡ ok b
    → (a : A) × (r ≡ ok a) × (continue r next s ≡ next a s)
continue-ok (ok a) next s h = (a, refl, refl)
continue-ok (err error) next s h = cc
continue-ok panic next s h = cc

module _ {S : Type 0} (kv : KvStorage S) (kvl : IsKv kv) where
  -- What a key holds after a removal with other actions behind it.
  remove_then :
      (a k : StorageKey) (next : Exec S (Unit {0})) (s : S)
      → ((kv.remove a >> next) s).0 ≡ ok tt
      → ((kv.remove a >> next) s ≡ next (kv.remove a s).1)
        × (kv.get k (kv.remove a s).1 ≡ (if bytes_eqb a k then err not_found else kv.get k s))
  remove_then a k next s done =
      let (_, first, rest) = continue-ok (kv.remove a s).0 (λ _. next) (kv.remove a s).1 done in
      (rest, kvl.get-remove a k s first)

  -- What a key holds after three removals.
  get-remove_three :
      (a b c k : StorageKey) (s : S)
      → ((kv.remove a >> (kv.remove b >> kv.remove c)) s).0 ≡ ok tt
      → kv.get k ((kv.remove a >> (kv.remove b >> kv.remove c)) s).1 ≡ (
          if bytes_eqb c k
          then err not_found
          else if bytes_eqb b k
          then err not_found
          else if bytes_eqb a k
          then err not_found
          else kv.get k s)
  get-remove_three a b c k s done =
      let (rest, first) = remove_then a k (kv.remove b >> kv.remove c) s done in
      let done' : ((kv.remove b >> kv.remove c) (kv.remove a s).1).0 ≡ ok tt =
        subst (λ (p : NodeResult (Unit {0}) × S). p.0 ≡ ok tt) rest done in
      let (rest', second) = remove_then b k (kv.remove c) (kv.remove a s).1 done' in
      let done'' : (kv.remove c (kv.remove b (kv.remove a s).1).1).0 ≡ ok tt =
        subst (λ (p : NodeResult (Unit {0}) × S). p.0 ≡ ok tt) rest' done' in
      let third = kvl.get-remove c k (kv.remove b (kv.remove a s).1).1 done'' in
      ap (λ (p : NodeResult (Unit {0}) × S). kv.get k p.1) (rest ∙ rest')
      ∙ (third ∙ (rw (second, first) refl))

  -- After a reset no block is indexed.
  pub clear_db-no_index :
      (s : S)
      → (clear_db kv s).0 ≡ ok tt
      → kv.get blocks_finality_info_key (clear_db kv s).1 ≡ err not_found
  unfolding clear_db bytes_eqb
  clear_db-no_index s done =
      get-remove_three blocks_finality_info_key shard_info_key shard_state_block_key
        blocks_finality_info_key s done

module _ (e : EverBlock) {S D : Type 0} (sv : Services e S D) where
  -- If the reset of a shard's storage succeeds, a chain that is started on the storage that it leaves
  -- has no blocks from before: it is loaded as a new chain from the zerostate that the storage holds,
  -- where it holds one, and is left as it is where it holds none.
  pub clear_db-load :
      (kvl : IsKv sv.kv) (s : S) (start : BlockFinality e S D)
      → (clear_db sv.kv s).0 ≡ ok tt
      → start.storage ≡ (clear_db sv.kv s).1
      → load e sv start ≡ load_fresh e sv (sv.kv.get zerostate_key s) start
  unfolding load clear_db bytes_eqb
  clear_db-load kvl s start done here =
      let gone : sv.kv.get blocks_finality_info_key start.storage ≡ err not_found =
        ap (sv.kv.get blocks_finality_info_key) here ∙ clear_db-no_index sv.kv kvl s done in
      let left : sv.kv.get zerostate_key start.storage ≡ sv.kv.get zerostate_key s =
        ap (sv.kv.get zerostate_key) here
        ∙ get-remove_three sv.kv kvl blocks_finality_info_key shard_info_key shard_state_block_key
            zerostate_key s done in
      rw (gone, left) refl
