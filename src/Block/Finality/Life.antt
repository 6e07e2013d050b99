-- ===== src/Block/Finality/Life.antt =====
-- The life of a chain: successful puts and restarts, one after another.
use evernode_se.Common.{ℕ, ◌≡◌, ◌≢◌, refl, sym, ap, ◌∙◌, subst, true, [], ◌++◌}
use evernode_se.Common.Result.{ok, ok-injective}
use evernode_se.Common.Post.{Post}
use evernode_se.Data.Kv.{IsKv}
use evernode_se.Data.ShardStorage.{blocks_finality_info_key}
use evernode_se.Block.Ever.{EverBlock, IsEverBlock}
use evernode_se.Block.ShardBlock.{ShardBlock, Traces, with_block_and_state}
use evernode_se.Block.ShardBlock.RoundTrip.{without_traces, Fits}
use evernode_se.Block.Finality.{BlockFinality, Services}
use evernode_se.Block.Finality.Disk.{entry_bytes, load, put_block_with_info}
use evernode_se.Block.Finality.Loaded.{OnDisk, load-OnDisk}
use evernode_se.Block.Finality.Kept.{Holds}
use evernode_se.Block.Finality.Restart.{IsNew, put_block_with_info-IsPut, IsPut-OnDisk}

module _ (e : EverBlock) {S D : Type 0} (sv : Services e S D) where
  -- A chain whose one block is `sb`, in memory and on disk, with nothing pending.
  pub record IsSynced (bf : BlockFinality e S D) (sb : ShardBlock e) : Type 0 where
    pub current : without_traces bf.current_block ≡ without_traces sb
    pub last : without_traces bf.last_finalized_block ≡ without_traces sb
    pub no_hash : bf.blocks_by_hash ≡ []
    pub no_number : bf.blocks_by_no ≡ []
    pub fits : Fits sb
    pub later : sb.seq_no ≢ 0
    pub holds : Holds e sv sb bf.storage
    pub index :
        sv.kv.get blocks_finality_info_key bf.storage
        ≡ ok (entry_bytes sb.root_hash sb.seq_no ++ (entry_bytes sb.root_hash sb.seq_no ++ []))

  -- A chain and the block that was put last: a put that succeeds with a block that is new to the
  -- storage, or a start of another chain on the storage that is there.
  pub data Step (bf : BlockFinality e S D) (sb : ShardBlock e)
      : BlockFinality e S D → ShardBlock e → Type 0 where
    put :
        {bf' : BlockFinality e S D} {sb' : ShardBlock e} (mc : ℕ) (block : e.Block)
        (state : e.State) (traces : Traces)
        → with_block_and_state e block state ≡ ok sb'
        → IsNew e sv bf sb'
        → put_block_with_info e sv mc block state traces bf ≡ (ok tt, bf')
        → Step bf sb bf' sb'
    restart :
        {bf' : BlockFinality e S D} (start : BlockFinality e S D)
        → start.storage ≡ bf.storage
        → start.blocks_by_hash ≡ []
        → start.blocks_by_no ≡ []
        → (load e sv start).1 ≡ bf'
        → Step bf sb bf' sb

  pub data Life (bf : BlockFinality e S D) (sb : ShardBlock e)
      : BlockFinality e S D → ShardBlock e → Type 0 where
    here : Life bf sb bf sb
    next :
        {bf1 bf2 : BlockFinality e S D} {sb1 sb2 : ShardBlock e}
        → Life bf sb bf1 sb1
        → Step bf1 sb1 bf2 sb2
        → Life bf sb bf2 sb2

  module _ (kvl : IsKv sv.kv) (laws : IsEverBlock e) where
    -- A chain that is started on the storage of a synced one has its block.
    pub load-IsSynced :
        (bf start : BlockFinality e S D) (sb : ShardBlock e)
        → IsSynced bf sb
        → start.storage ≡ bf.storage
        → load e sv start ≡ (
          ok true,
          record start {
            current_block = without_traces sb;
            last_finalized_block = without_traces sb;
          },
        )
    load-IsSynced bf start sb s kept =
        let disk : OnDisk e sv start.storage sb.root_hash sb.seq_no (without_traces sb) =
          rw kept (IsPut-OnDisk e sv kvl 0 [] bf laws sb _ s.fits s.later s.holds) in
        load-OnDisk e sv start sb.root_hash sb.seq_no sb.root_hash sb.seq_no (without_traces sb)
          (without_traces sb) (rw kept s.index) disk disk

    -- A put into a chain with nothing pending.
    pub put-IsSynced :
        (mc : ℕ) (block : e.Block) (state : e.State) (traces : Traces)
        (bf bf' : BlockFinality e S D)
        → bf.blocks_by_hash ≡ []
        → bf.blocks_by_no ≡ []
        → ((sb : ShardBlock e) → with_block_and_state e block state ≡ ok sb → IsNew e sv bf sb)
        → put_block_with_info e sv mc block state traces bf ≡ (ok tt, bf')
        → (sb : ShardBlock e) × (with_block_and_state e block state ≡ ok sb) × IsSynced bf' sb
    put-IsSynced mc block state traces bf bf' no_hash no_number new done =
        let (sb, built, p) =
          subst (Post _) done
            (put_block_with_info-IsPut e sv kvl mc traces bf block state no_hash no_number new) in
        (
          sb,
          built,
          record {
            current = ap without_traces p.current;
            last = p.last;
            no_hash = p.no_hash;
            no_number = p.no_number;
            fits = (new sb built).fits;
            later = (new sb built).later;
            holds = p.holds;
            index = p.index;
          },
        )

    put_known-IsSynced :
        (mc : ℕ) (block : e.Block) (state : e.State) (traces : Traces)
        (bf bf' : BlockFinality e S D) (sb : ShardBlock e)
        → bf.blocks_by_hash ≡ []
        → bf.blocks_by_no ≡ []
        → with_block_and_state e block state ≡ ok sb
        → IsNew e sv bf sb
        → put_block_with_info e sv mc block state traces bf ≡ (ok tt, bf')
        → IsSynced bf' sb
    put_known-IsSynced mc block state traces bf bf' sb no_hash no_number built new done =
        let (sb1, built1, s) =
          put-IsSynced mc block state traces bf bf' no_hash no_number
            (λ x made. subst (IsNew e sv bf) (ok-injective (sym built ∙ made)) new) done in
        subst (IsSynced bf') (ok-injective (sym built1 ∙ built)) s

    pub Step-IsSynced :
        {bf bf' : BlockFinality e S D} {sb sb' : ShardBlock e}
        → Step bf sb bf' sb'
        → IsSynced bf sb
        → IsSynced bf' sb'
    Step-IsSynced {bf} {bf'} {sb} {sb'} (put mc block state traces built new done) s =
        put_known-IsSynced mc block state traces bf bf' sb' s.no_hash s.no_number built new done
    Step-IsSynced {bf} {bf'} {sb} (restart start kept no_hash no_number loads) s =
        let there : record start {
          current_block = without_traces sb;
          last_finalized_block = without_traces sb;
        }
            ≡ bf' =
          sym (ap (λ p. p.1) (load-IsSynced bf start sb s kept)) ∙ loads in
        subst (λ b. IsSynced b sb) there
          (record {
            current = refl;
            last = refl;
            no_hash = no_hash;
            no_number = no_number;
            fits = s.fits;
            later = s.later;
            holds = subst (Holds e sv sb) (sym kept) s.holds;
            index = ap (sv.kv.get blocks_finality_info_key) kept ∙ s.index;
          })

    Life-IsSynced :
        {bf : BlockFinality e S D} {sb : ShardBlock e} {bf' : BlockFinality e S D}
        {sb' : ShardBlock e}
        → IsSynced bf sb
        → Life bf sb bf' sb'
        → IsSynced bf' sb'
    Life-IsSynced s here = s
    Life-IsSynced s (next life step) = Step-IsSynced step (Life-IsSynced s life)

    -- A chain with nothing pending puts its first block, and then lives through any puts of new blocks
    -- that succeed and any restarts. At the end its current and its last finalized block are the block
    -- that was put last, but for the traces, nothing is pending, and a chain that is started on its
    -- storage loads this block. The storage and the library keep their laws.
    pub Life-load :
        (mc : ℕ) (block : e.Block) (state : e.State) (traces : Traces)
        (bf bf1 bf2 start : BlockFinality e S D) (sb1 sb2 : ShardBlock e)
        → bf.blocks_by_hash ≡ []
        → bf.blocks_by_no ≡ []
        → with_block_and_state e block state ≡ ok sb1
        → IsNew e sv bf sb1
        → put_block_with_info e sv mc block state traces bf ≡ (ok tt, bf1)
        → Life bf1 sb1 bf2 sb2
        → start.storage ≡ bf2.storage
        → (without_traces bf2.current_block ≡ without_traces sb2)
          × (without_traces bf2.last_finalized_block ≡ without_traces sb2)
          × (bf2.blocks_by_hash ≡ [])
          × (bf2.blocks_by_no ≡ [])
          × (load e sv start ≡ (
            ok true,
            record start {
              current_block = without_traces sb2;
              last_finalized_block = without_traces sb2;
            },
          ))
    Life-load mc block state traces bf bf1 bf2 start sb1 sb2 no_hash no_number built new done life
          kept =
        let s =
          Life-IsSynced
            (put_known-IsSynced mc block state traces bf bf1 sb1 no_hash no_number built new done)
            life in
        (s.current, s.last, s.no_hash, s.no_number, load-IsSynced bf2 start sb2 s kept)
