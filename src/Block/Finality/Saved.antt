-- ===== src/Block/Finality/Saved.antt =====
-- What a finalized block leaves behind: the chain's record, and the files of other blocks.
use evernode_se.Common.{
  ℕ, ◌≡◌, ◌≢◌, refl, ap, ◌∙◌, Bool, true, false, Option, none, some, arith, get_elem?, Bool-cases,
  inl, inr, ◌==◌,
}
use mathlib.Core.Option.{get_or}
use evernode_se.Common.Assoc.{Assoc, ℕ_key, eqb_refl}
use evernode_se.Common.Assoc
use evernode_se.Common.Bytes.{Bytes, bytes_eqb, bytes_eqb_iff}
use evernode_se.Common.Result.{NodeResult, ok, err, panic}
use evernode_se.Common.Exec.{Exec, continue, ◌>>◌}
use evernode_se.Common.Post.{Post, Post-intro, Post-run, Post-then, Post-map, Post-lift, Post-all}
use evernode_se.Data.Kv.{StorageKey, KvStorage, IsKv}
use evernode_se.Data.ShardStorage.{
  ShardStateInfo, shard_state_block_key, shard_info_key, block_key, block_finality_hash_key,
  save_serialized_shardstate_ex, save_raw_block, serialize_info,
}
use evernode_se.Block.Ever.{EverBlock}
use evernode_se.Block.ShardBlock.{ShardBlock, FinalityBlock, loaded}
use evernode_se.Block.ShardBlock.RoundTrip.{without_traces}
use evernode_se.Block.Finality.{
  BlockFinality, Services, Act, on_storage, reflected, finalized, expect_by_no, finality_found,
  finality_blocks, save_state, save_raw,
}

-- The seventh character of a key tells the kinds of files apart.
abbrev pub seventh : StorageKey → ℕ
seventh k = get_or (get_elem? k 6) 0

pub keys-differ : (k j : StorageKey) → seventh k ≢ seventh j → bytes_eqb k j ≡ false
keys-differ k j h = elim (Bool-cases (bytes_eqb k j)) [
  | inl same ↦ absurd (h (ap seventh ((bytes_eqb_iff k j).0 same)))
  | inr other ↦ other
]

module _ {S : Type 0} (kv : KvStorage S) (laws : IsKv kv) where
  -- A file is as it was after a write under another key.
  pub set-keeps :
      (k j : StorageKey) (d : Bytes) (over : Bool) (s : S)
      → bytes_eqb k j ≡ false
      → Post (λ _ s'. kv.get j s' ≡ kv.get j s) (kv.set k d over s)
  set-keeps k j d over s other =
      Post-intro _ (kv.set k d over s).0 (kv.set k d over s).1
        λ u done. rw (laws.get-set k j d over s done, other) refl

module _ {S : Type 0} (kv : KvStorage S) (laws : IsKv kv) (hex : ℕ → StorageKey) (h : ℕ) where
  abbrev the_file : S → NodeResult Bytes
  the_file s = kv.get (block_finality_hash_key hex h) s

  state-keeps :
      (w : NodeResult Bytes) (bytes : Bytes) (hash : ℕ) (info : ShardStateInfo) (s : S)
      → Post
          (λ _ s'. the_file s' ≡ the_file s)
          (save_serialized_shardstate_ex kv hex w (some bytes) hash info s)
  unfolding save_serialized_shardstate_ex block_finality_hash_key
  state-keeps w bytes hash info s = elim (Bool-cases (hash == 0)) [
    | inl zero_hash ↦ rw zero_hash tt
    | inr nonzero ↦ rw nonzero (
        Post-then (λ _ s'. the_file s' ≡ the_file s) (λ _ s'. the_file s' ≡ the_file s)
          (kv.set shard_state_block_key bytes true s) _
          (set-keeps kv laws _ _ _ _ s (keys-differ _ _ (omega arith)))
          λ _ s1 first.
            Post-map (λ _ s'. the_file s' ≡ the_file s1) (λ _ s'. the_file s' ≡ the_file s)
              (kv.set shard_info_key (serialize_info info) true s1)
              (set-keeps kv laws _ _ _ _ s1 (keys-differ _ _ (omega arith)))
              λ _ s2 second. second ∙ first)
  ]

  block-keeps :
      (s_no v_no : ℕ) (bytes : Bytes) (w : NodeResult Bytes) (s : S)
      → Post (λ _ s'. the_file s' ≡ the_file s) (save_raw_block kv hex s_no v_no (some bytes) w s)
  unfolding save_raw_block block_key block_finality_hash_key
  block-keeps s_no v_no bytes w s = set-keeps kv laws _ _ _ _ s (keys-differ _ _ (omega arith))

module _ (e : EverBlock) {S D : Type 0} (sv : Services e S D) where
  -- An action on the storage changes nothing else.
  pub on_storage-Post :
      (P : S → Type 0) (Q : Unit {0} → BlockFinality e S D → Type 0) (m : Exec S (Unit {0}))
      (bf : BlockFinality e S D) (f : Act e sv (Unit {0}))
      → Post (λ _ s. P s) (m bf.storage)
      → ((s : S) → P s → Post Q (f (record bf { storage = s })))
      → Post Q (continue (m bf.storage).0 (λ _. f) (record bf { storage = (m bf.storage).1 }))
  on_storage-Post P Q m bf f p h = go (m bf.storage).0 (m bf.storage).1 p
    where
      go :
          (r : NodeResult (Unit {0})) (s : S)
          → Post {A = Unit {0}} (λ _ s'. P s') (r, s)
          → Post Q (continue r (λ _. f) (record bf { storage = s }))
      go (ok u) s q = h s q
      go (err x) s q = tt
      go panic s q = tt

  pub on_storage-Stored :
      (P : S → Type 0) (m : Exec S (Unit {0})) (bf : BlockFinality e S D)
      → Post (λ _ s. P s) (m bf.storage)
      → Post (λ _ bf'. (s : S) × (bf' ≡ record bf { storage = s }) × P s) (on_storage e sv m bf)
  on_storage-Stored P m bf p =
      Post-intro _ (m bf.storage).0 (record bf { storage = (m bf.storage).1 })
        λ u done. ((m bf.storage).1, refl, Post-run (λ _ s. P s) (m bf.storage) u p done)

  -- What finality leaves of a block `sb` that waits in both maps.
  pub record Finalized (bf : BlockFinality e S D) (sb : ShardBlock e) (bf' : BlockFinality e S D)
      : Type 0 where
    pub shard_ident : bf'.shard_ident ≡ bf.shard_ident
    pub current : bf'.current_block ≡ bf.current_block
    pub by_hash : bf'.blocks_by_hash ≡ Assoc.remove bf.blocks_by_hash sb.root_hash
    pub by_no : bf'.blocks_by_no ≡ Assoc.remove bf.blocks_by_no sb.seq_no
    pub last : without_traces bf'.last_finalized_block ≡ without_traces sb
    pub files :
        (h : ℕ)
        → sv.kv.get (block_finality_hash_key sv.to_hex_string h) bf'.storage
          ≡ sv.kv.get (block_finality_hash_key sv.to_hex_string h) bf.storage

  module _ (laws : IsKv sv.kv) (mc : ℕ) (sb : ShardBlock e) (bf : BlockFinality e S D) where
    abbrev removed : BlockFinality e S D
    removed = record bf { blocks_by_hash = Assoc.remove bf.blocks_by_hash sb.root_hash }

    abbrev SameFile : ℕ → S → Type 0
    SameFile h s =
        sv.kv.get (block_finality_hash_key sv.to_hex_string h) s
        ≡ sv.kv.get (block_finality_hash_key sv.to_hex_string h) bf.storage

    abbrev Same : S → Type 0
    Same s = (h : ℕ) → SameFile h s

    without_traces-reflected :
        (d : Option D) → without_traces (reflected e sv d mc sb).0 ≡ without_traces sb
    without_traces-reflected none = refl
    without_traces-reflected (some d) = refl

    last_step :
        (b : Option (FinalityBlock e)) (s : S)
        → Same s
        → Post
            (λ _ bf'. Finalized bf sb bf')
            ((expect_by_no e sv b sb.seq_no >> finalized e sv mc sb)
              (record removed { storage = s }))
    last_step none s same = tt
    last_step (some b) s same = record {
      shard_ident = refl;
      current = refl;
      by_hash = refl;
      by_no = refl;
      last = without_traces-reflected bf.db;
      files = same;
    }

    finality_found-Finalized :
        Post (λ _ bf'. Finalized bf sb bf') (finality_found e sv mc (loaded sb) removed)
    unfolding finality_found
    finality_found-Finalized = Post-lift Q (e.read_info sb.block) _ removed λ info _.
        Post-lift Q (e.write_state sb.shard_state) _ removed λ shard _.
          Post-lift Q (e.state_update_new_hash sb.block) _ removed λ new_hash _.
            on_storage-Post Same Q (save_state e sv sb info shard new_hash) removed _
              (Post-all (λ h _ s. SameFile h s) _
                λ h.
                  state-keeps sv.kv laws sv.to_hex_string h (e.write_state e.default_state) shard
                    new_hash _ bf.storage)
              λ s1 same1.
                Post-lift Q (e.read_info sb.block) _ (record removed { storage = s1 })
                  λ raw _.
                    on_storage-Post Same Q (save_raw e sv sb raw) (record removed { storage = s1 })
                      _
                      (Post-all (λ h _ s. SameFile h s) (save_raw e sv sb raw s1)
                        λ h.
                          Post-map _ _ (save_raw e sv sb raw s1)
                            (block-keeps sv.kv laws sv.to_hex_string h raw.seq_no raw.vert_seq_no
                              sb.serialized_block (e.write_block sb.block) s1)
                            λ _ s2 kept. kept ∙ same1 h)
                      λ s2 same2. last_step (Assoc.get bf.blocks_by_no sb.seq_no) s2 same2
      where
        Q : Unit {0} → BlockFinality e S D → Type 0
        Q _ bf' = Finalized bf sb bf'

    -- A loaded block that waits in the maps is finalized: where this succeeds, it is the last
    -- finalized block and has left both maps, and no block file has changed.
    pub finality_blocks-Finalized :
        Assoc.get bf.blocks_by_hash sb.root_hash ≡ some (loaded sb)
        → Post (λ _ bf'. Finalized bf sb bf') (finality_blocks e sv mc sb.root_hash bf)
    unfolding finality_blocks
    finality_blocks-Finalized found = rw (found, finality_blocks) finality_found-Finalized
