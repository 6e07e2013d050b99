-- ===== src/Block/Finality/Kept.antt =====
-- What a save of the finality leaves on the disk.
use evernode_se.Common.{ℕ, ◌≡◌, refl, sym, ap, ◌∙◌, subst, true, false, [], ◌++◌, arith}
use evernode_se.Common.Assoc.{ℕ_key}
use evernode_se.Common.Bytes.{Bytes, bytes_eqb, bytes_eqb_iff}
use evernode_se.Common.Result.{NodeResult, ok}
use evernode_se.Common.Exec.{Exec}
use evernode_se.Common.Post.{Post, Post-intro, Post-then, Post-lift}
use evernode_se.Data.Kv.{StorageKey, IsKv, kept}
use evernode_se.Data.ShardStorage.{
  blocks_finality_info_key, block_finality_hash_key, save_non_finalized_block,
}
use evernode_se.Block.Ever.{EverBlock}
use evernode_se.Block.ShardBlock.{ShardBlock, Traces, FinalityBlock, loaded, with_block_and_state}
use evernode_se.Block.ShardBlock
use evernode_se.Block.ShardBlock.RoundTrip.{without_traces}
use evernode_se.Block.Finality.{BlockFinality, Services}
use evernode_se.Block.Finality.Disk.{entry_bytes, serialize, save_block, save_index, save_finality}
use evernode_se.Block.Finality.Saved.{keys-differ, on_storage-Stored}

bytes_eqb_refl : (k : Bytes) → bytes_eqb k k ≡ true
bytes_eqb_refl k = (bytes_eqb_iff k k).1 refl

module _ (e : EverBlock) {S D : Type 0} (sv : Services e S D) where
  abbrev pub file_of : ℕ → S → NodeResult Bytes
  file_of h s = sv.kv.get (block_finality_hash_key sv.to_hex_string h) s

  abbrev the_key : ShardBlock e → StorageKey
  the_key sb = block_finality_hash_key sv.to_hex_string sb.root_hash

  -- The file of a block that was missing, or was written by an earlier save of the block.
  abbrev pub Ready : ShardBlock e → S → Type 0
  Ready sb s =
      (bytes : Bytes)
      → ShardBlock.serialize e sb ≡ ok bytes
      → kept (file_of sb.root_hash s) bytes ≡ ok bytes

  -- The file holds the block.
  abbrev pub Holds : ShardBlock e → S → Type 0
  Holds sb s =
      (bytes : Bytes) × (ShardBlock.serialize e sb ≡ ok bytes) × (file_of sb.root_hash s ≡ ok bytes)

  module _ (kvl : IsKv sv.kv) where
    save_block-Holds :
        (sb : ShardBlock e) (bf : BlockFinality e S D)
        → Ready sb bf.storage
        → Post
            (λ _ bf'. (s : S) × (bf' ≡ record bf { storage = s }) × Holds sb s)
            (save_block e sv sb bf)
    unfolding save_block save_non_finalized_block
    save_block-Holds sb bf ready = Post-lift _ (ShardBlock.serialize e sb) _ bf λ bytes written.
        on_storage-Stored e sv (Holds sb) (sv.kv.set (the_key sb) bytes false) bf (
          Post-intro _ (sv.kv.set (the_key sb) bytes false bf.storage).0 _ λ u done. (
            bytes,
            written,
            rw
                (
                  kvl.get-set (the_key sb) (the_key sb) bytes false bf.storage done,
                  bytes_eqb_refl (the_key sb),
                )
                (ready bytes written),
          ))

    save_index-Post :
        (sb : ShardBlock e) (bf : BlockFinality e S D)
        → Holds sb bf.storage
        → Post
            (λ _ bf'.
              (s : S) × (bf' ≡ record bf { storage = s })
              × (Holds sb s × (sv.kv.get blocks_finality_info_key s ≡ ok (serialize bf))))
            (save_index e sv bf)
    unfolding save_index block_finality_hash_key
    save_index-Post sb bf (bytes, written, there) =
        on_storage-Stored e sv
          (λ s. Holds sb s × (sv.kv.get blocks_finality_info_key s ≡ ok (serialize bf))) put bf
          (Post-intro _ (put bf.storage).0 _ λ u done. (
            (
              bytes,
              written,
              rw
                  (
                    kvl.get-set blocks_finality_info_key (the_key sb) (serialize bf) true bf.storage
                        done,
                    keys-differ blocks_finality_info_key (the_key sb) (omega arith),
                  )
                  there,
            ),
            rw (
              kvl.get-set blocks_finality_info_key blocks_finality_info_key (serialize bf) true
                  bf.storage done,
              bytes_eqb_refl blocks_finality_info_key,
            ),
          ))
      where
        put : Exec S (Unit {0})
        put = sv.kv.set blocks_finality_info_key (serialize bf) true

    Holds-Ready : (sb : ShardBlock e) (s : S) → Holds sb s → Ready sb s
    Holds-Ready sb s (bytes, written, there) again w = rw there (sym written ∙ w)

    -- The traces are not written.
    pub Holds-same :
        (a b : ShardBlock e) (s : S) → without_traces a ≡ without_traces b → Holds a s → Holds b s
    unfolding ShardBlock.serialize
    Holds-same a b s same holds = subst (λ x. Holds x s) same holds

    pub save_finality-Post :
        (bf : BlockFinality e S D)
        → without_traces bf.current_block ≡ without_traces bf.last_finalized_block
        → Ready bf.current_block bf.storage
        → Post
            (λ _ bf'.
              (s : S) × (bf' ≡ record bf { storage = s })
              × (Holds bf.current_block s
                  × (sv.kv.get blocks_finality_info_key s ≡ ok (serialize bf))))
            (save_finality e sv bf)
    unfolding save_finality
    save_finality-Post bf same ready =
        Post-then _ _ (save_block e sv bf.current_block bf) _
          (save_block-Holds bf.current_block bf ready)
          λ _ bf1 (s1, e1, holds1). rw e1 (
            Post-then _ _ (save_block e sv bf.last_finalized_block (record bf { storage = s1 })) _
              (save_block-Holds bf.last_finalized_block (record bf { storage = s1 })
                (Holds-Ready _ s1
                  (Holds-same bf.current_block bf.last_finalized_block s1 same holds1)))
              λ _ bf2 (s2, e2, holds2). rw e2 (
                save_index-Post bf.current_block (record bf { storage = s2 })
                  (Holds-same bf.last_finalized_block bf.current_block s2 (sym same) holds2)))

  -- The index of a chain whose one block is finalized.
  pub serialize-single :
      (bf : BlockFinality e S D) (sb : ShardBlock e) {traces : Traces}
      → bf.current_block ≡ record sb { transaction_traces = traces }
      → without_traces bf.last_finalized_block ≡ without_traces sb
      → bf.blocks_by_hash ≡ []
      → serialize bf
        ≡ entry_bytes sb.root_hash sb.seq_no ++ (entry_bytes sb.root_hash sb.seq_no ++ [])
  unfolding serialize
  serialize-single bf sb current last none_left =
      rw (current, none_left)
        (ap
          (λ (x : ShardBlock e).
            entry_bytes sb.root_hash sb.seq_no ++ (entry_bytes x.root_hash x.seq_no ++ []))
          last)
