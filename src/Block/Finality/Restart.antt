-- ===== src/Block/Finality/Restart.antt =====
-- A node that is started again continues from the block that it saved last.
use evernode_se.Common.{ℕ, ◌≡◌, ◌≢◌, sym, ap, ◌∙◌, true, [], ◌++◌, arith}
use evernode_se.Common.Assoc.{Assoc, ℕ_key, eqb_refl, get-insert_self}
use evernode_se.Common.Assoc
use evernode_se.Common.Result.{ok, err, not_found}
use evernode_se.Common.Post.{Post, Post-run, Post-then, Post-map, Post-lift}
use evernode_se.Data.Kv.{IsKv}
use evernode_se.Data.ShardStorage.{blocks_finality_info_key}
use evernode_se.Block.Ever.{EverBlock, IsEverBlock}
use evernode_se.Block.ShardBlock.{ShardBlock, Traces, FinalityBlock, loaded, with_block_and_state}
use evernode_se.Block.ShardBlock.RoundTrip.{without_traces, Fits, deserialize-serialize}
use evernode_se.Block.Finality.{BlockFinality, Services, finality_blocks}
use evernode_se.Block.Finality.Disk.{entry_bytes, save_finality, load, put_block_with_info}
use evernode_se.Block.Finality.Saved.{Finalized, finality_blocks-Finalized}
use evernode_se.Block.Finality.Loaded.{OnDisk, load-OnDisk}
use evernode_se.Block.Finality.Kept.{
  file_of, Holds, Holds-same, save_finality-Post, serialize-single,
}

remove-insert-nil : {V : Type 0} (k : ℕ) (v : V) → Assoc.remove (Assoc.insert [] k v) k ≡ []
unfolding Assoc.remove Assoc.insert
remove-insert-nil k v = ground (arith, eqb_refl k)

module _ (e : EverBlock) {S D : Type 0} (sv : Services e S D) where
  -- What is asked of a block that is put: its file is not there yet, its numbers fit, and its
  -- number is not 0, which stands for the start of a chain.
  pub record IsNew (bf : BlockFinality e S D) (sb : ShardBlock e) : Type 0 where
    pub missing : file_of e sv sb.root_hash bf.storage ≡ err not_found
    pub fits : Fits sb
    pub later : sb.seq_no ≢ 0

  -- What a put leaves.
  pub record IsPut (bf : BlockFinality e S D) (traces : Traces) (sb : ShardBlock e)
      (bf' : BlockFinality e S D) : Type 0 where
    pub shard_ident : bf'.shard_ident ≡ bf.shard_ident
    pub current : bf'.current_block ≡ record sb { transaction_traces = traces }
    pub last : without_traces bf'.last_finalized_block ≡ without_traces sb
    pub no_hash : bf'.blocks_by_hash ≡ []
    pub no_number : bf'.blocks_by_no ≡ []
    pub holds : Holds e sv sb bf'.storage
    pub index :
        sv.kv.get blocks_finality_info_key bf'.storage
        ≡ ok (entry_bytes sb.root_hash sb.seq_no ++ (entry_bytes sb.root_hash sb.seq_no ++ []))

  module _ (kvl : IsKv sv.kv) (mc : ℕ) (traces : Traces) (bf : BlockFinality e S D) where
    abbrev put_value : ShardBlock e → FinalityBlock e
    put_value sb = loaded (record sb { transaction_traces = traces })

    abbrev after_put : ShardBlock e → BlockFinality e S D
    after_put sb = record bf {
      current_block = record sb { transaction_traces = traces };
      blocks_by_hash =
          Assoc.insert bf.blocks_by_hash sb.root_hash
            (loaded (record sb { transaction_traces = traces }));
      blocks_by_no =
          Assoc.insert bf.blocks_by_no sb.seq_no
            (loaded (record sb { transaction_traces = traces }));
    }

    saved-IsPut :
        (sb : ShardBlock e) (bf1 : BlockFinality e S D)
        → bf.blocks_by_hash ≡ []
        → bf.blocks_by_no ≡ []
        → IsNew bf sb
        → Finalized e sv (after_put sb) (record sb { transaction_traces = traces }) bf1
        → Post (λ _ bf'. IsPut bf traces sb bf') (save_finality e sv bf1)
    saved-IsPut sb bf1 no_hash no_number new f =
        let cleared : bf1.blocks_by_hash ≡ [] =
          f.by_hash
          ∙ ap (λ m. Assoc.remove (Assoc.insert m sb.root_hash (put_value sb)) sb.root_hash) no_hash
          ∙ remove-insert-nil sb.root_hash (put_value sb) in
        Post-map _ _ (save_finality e sv bf1)
          (save_finality-Post e sv kvl bf1 (ap without_traces f.current ∙ sym f.last)
            λ bytes w. rw (f.current, f.files sb.root_hash, new.missing))
          λ _ bf2 (s, e2, files). rw e2 (record {
            shard_ident = f.shard_ident;
            current = f.current;
            last = f.last;
            no_hash = cleared;
            no_number =
                f.by_no
                ∙ ap (λ m. Assoc.remove (Assoc.insert m sb.seq_no (put_value sb)) sb.seq_no)
                    no_number
                ∙ remove-insert-nil sb.seq_no (put_value sb);
            holds =
                Holds-same e sv kvl bf1.current_block sb s (ap without_traces f.current) files.0;
            index = files.1 ∙ ap ok (serialize-single e sv bf1 sb f.current f.last cleared);
          })

    pub put_block_with_info-IsPut :
        (block : e.Block) (state : e.State)
        → bf.blocks_by_hash ≡ []
        → bf.blocks_by_no ≡ []
        → ((sb : ShardBlock e) → with_block_and_state e block state ≡ ok sb → IsNew bf sb)
        → Post
            (λ _ bf'.
              (sb : ShardBlock e) × (with_block_and_state e block state ≡ ok sb)
              × IsPut bf traces sb bf')
            (put_block_with_info e sv mc block state traces bf)
    unfolding put_block_with_info
    put_block_with_info-IsPut block state no_hash no_number new =
        Post-lift _ (e.read_info block) _ bf λ _ _.
          Post-lift _ (with_block_and_state e block state) _ bf λ sb built.
            Post-then _ _ (finality_blocks e sv mc sb.root_hash (after_put sb)) _
              (finality_blocks-Finalized e sv kvl mc (record sb { transaction_traces = traces })
                (after_put sb) (get-insert_self bf.blocks_by_hash sb.root_hash _))
              λ _ bf1 f.
                Post-map _ _ (save_finality e sv bf1)
                  (saved-IsPut sb bf1 no_hash no_number (new sb built) f)
                  λ _ bf2 done. (sb, built, done)

    pub IsPut-OnDisk :
        (laws : IsEverBlock e) (sb : ShardBlock e) (s : S)
        → Fits sb
        → sb.seq_no ≢ 0
        → Holds e sv sb s
        → OnDisk e sv s sb.root_hash sb.seq_no (without_traces sb)
    IsPut-OnDisk laws sb s fits later (bytes, written, there) = record {
      hash_fits = fits.root_hash;
      seq_no_fits = fits.seq_no;
      later = later;
      bytes = bytes;
      file = there;
      read = deserialize-serialize e laws sb bytes fits written;
    }

    -- If a put into a chain with nothing pending succeeds, a chain that is started on the storage that it
    -- left loads the block as its current and as its last finalized block, without its traces. The
    -- storage and the library keep their laws, and the block is new to the storage.
    pub put-load :
        (laws : IsEverBlock e) (block : e.Block) (state : e.State) (start : BlockFinality e S D)
        → bf.blocks_by_hash ≡ []
        → bf.blocks_by_no ≡ []
        → ((sb : ShardBlock e) → with_block_and_state e block state ≡ ok sb → IsNew bf sb)
        → (put_block_with_info e sv mc block state traces bf).0 ≡ ok tt
        → start.storage ≡ (put_block_with_info e sv mc block state traces bf).1.storage
        → (sb : ShardBlock e) × (with_block_and_state e block state ≡ ok sb)
          × (load e sv start ≡ (
            ok true,
            record start {
              current_block = without_traces sb;
              last_finalized_block = without_traces sb;
            },
          ))
    put-load laws block state start no_hash no_number new done kept_storage =
        let (sb, built, put) =
          Post-run _ (put_block_with_info e sv mc block state traces bf) tt
            (put_block_with_info-IsPut block state no_hash no_number new) done in
        let disk : OnDisk e sv start.storage sb.root_hash sb.seq_no (without_traces sb) =
          rw kept_storage
            (IsPut-OnDisk laws sb _ (new sb built).fits (new sb built).later put.holds) in
        (
          sb,
          built,
          load-OnDisk e sv start sb.root_hash sb.seq_no sb.root_hash sb.seq_no (without_traces sb)
              (without_traces sb) (rw kept_storage put.index) disk disk,
        )
