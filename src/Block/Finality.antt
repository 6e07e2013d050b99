-- ===== src/Block/Finality.antt =====
-- node/src/block/finality.rs: the chain's current block, the blocks that wait for finality, the last
-- finalized block, and what of them is on disk. The shard's storage, the print of hashes and
-- `reflect_block_in_db` are parameters; the database is `none` where the source has `None`. The
-- arguments of the log lines are evaluated where they can fail.
pub mod Disk
pub mod Saved
pub mod Loaded
pub mod Kept
pub mod Restart
pub mod Life
pub mod Cleared
mod Examples
use evernode_se.Common.{
  ℕ, zero, suc, Bool, true, false, not, ◌&&◌, Option, none, some, List, [], ◌∷◌, ◌++◌, length, ◌==◌,
  if◌then◌else◌,
}
use evernode_se.Common.Int.{ℤ}
use evernode_se.Common.Assoc.{Assoc, ℕ_key}
use evernode_se.Common.Assoc
use evernode_se.Common.Bytes.{Bytes, le_bytes, hash_bytes, read_le, read_u256}
use evernode_se.Common.Result.{
  NodeResult, ok, err, panic, ◌>>=◌ as bind, NodeError, io, unexpected_eof, not_found,
  finality_error,
}
use evernode_se.Common.Exec.{Exec, pure, lift, gets, modify, ◌>>=◌, ◌>>◌}
use evernode_se.Data.Kv.{StorageKey, KvStorage}
use evernode_se.Data.ShardStorage.{
  ShardStateInfo, blocks_finality_info_key, zerostate_key, block_finality_hash_key,
  save_non_finalized_block, save_serialized_shardstate_ex, save_raw_block,
}
use evernode_se.Block.Ever.{EverBlock, BlockInfo}
use evernode_se.Block.ShardBlock
use evernode_se.Block.ShardBlock.{
  ShardBlock, FinalityBlock, loaded, stored, ShardBlockHash, Traces, key_by_seqno, finality_seq_no,
  with_hash, with_block_and_state,
}

pub record BlockFinality (e : EverBlock) (S D : Type 0) : Type 0 where
  pub shard_ident : e.ShardIdent
  pub storage : S
  pub db : Option D
  pub current_block : ShardBlock e
  pub blocks_by_hash : Assoc ℕ (FinalityBlock e)
  pub blocks_by_no : Assoc ℕ (FinalityBlock e)
  pub last_finalized_block : ShardBlock e

-- `BlkPrevInfo::Block`
pub record BlkPrevInfo : Type 0 where
  pub end_lt : ℕ
  pub seq_no : ℕ
  pub root_hash : ℕ
  pub file_hash : ℕ

-- What this module uses beside its own code.
pub record Services (e : EverBlock) (S D : Type 0) : Type 0 where
  pub kv : KvStorage S
  pub to_hex_string : ℕ → StorageKey
  -- the traces that are left in the block, and the database
  pub reflect_block_in_db : ℕ → ShardBlock e → D → Traces × D

module _ (e : EverBlock) {S D : Type 0} (sv : Services e S D) where
  open sv use {kv, to_hex_string, reflect_block_in_db}

  abbrev pub Act {ℓ} : Type ℓ → Type ℓ
  Act A = BlockFinality e S D → NodeResult A × BlockFinality e S D

  unfoldable pub with_params : ℤ → e.ShardIdent → S → Option D → BlockFinality e S D
  with_params global_id shard_ident storage db = record {
    shard_ident = shard_ident;
    storage = storage;
    db = db;
    current_block = ShardBlock.new e global_id shard_ident;
    blocks_by_hash = [];
    blocks_by_no = [];
    last_finalized_block = ShardBlock.new e global_id shard_ident;
  }

  abbrev pub on_storage : Exec S (Unit {0}) → Exec (BlockFinality e S D) (Unit {0})
  on_storage m bf = let (r, s) = m bf.storage in (r, record bf { storage = s })

  abbrev or_true : NodeResult Bool → Bool
  or_true (ok b) = b
  or_true _ = true

  unfoldable pub out_message_queue_is_empty : BlockFinality e S D → Bool
  out_message_queue_is_empty bf = or_true (e.out_msg_queue_is_empty bf.current_block.shard_state)

  unfoldable pub get_last_block_info : BlockFinality e S D → NodeResult BlkPrevInfo
  get_last_block_info bf = bind (e.read_info bf.current_block.block) λ info. ok (record {
    end_lt = info.end_lt;
    seq_no = info.seq_no;
    root_hash = bf.current_block.root_hash;
    file_hash = bf.current_block.file_hash;
  })

  unfoldable pub get_last_info : BlockFinality e S D → NodeResult (e.State × BlkPrevInfo)
  unfolding get_last_block_info
  get_last_info bf = bind (get_last_block_info bf) λ info. ok (bf.current_block.shard_state, info)

  unfoldable pub read_one_sb_from_key : StorageKey → S → NodeResult (ShardBlock e)
  read_one_sb_from_key key s = bind (kv.get key s) λ bytes. ShardBlock.deserialize e bytes

  unfoldable pub stored_to_loaded : FinalityBlock e → S → NodeResult (ShardBlock e)
  unfolding read_one_sb_from_key
  stored_to_loaded (stored sb) s =
      read_one_sb_from_key (block_finality_hash_key to_hex_string sb.root_hash) s
  stored_to_loaded (loaded sb) s = ok sb

  -- `remove(..).expect(..)` on `blocks_by_no`
  abbrev pub expect_by_no : Option (FinalityBlock e) → ℕ → Act (Unit {0})
  expect_by_no none seq_no bf = (panic, bf)
  expect_by_no (some b) seq_no bf =
      (ok tt, record bf { blocks_by_no = Assoc.remove bf.blocks_by_no seq_no })

  abbrev pub remove_by_no : ℕ → Act (Unit {0})
  remove_by_no seq_no bf = expect_by_no (Assoc.get bf.blocks_by_no seq_no) seq_no bf

  -- An error of `reflect_block_in_db` is only logged.
  abbrev pub reflected : Option D → ℕ → ShardBlock e → ShardBlock e × Option D
  reflected none mc_seq_no sb = (sb, none)
  reflected (some d) mc_seq_no sb =
      let (traces, d') = reflect_block_in_db mc_seq_no sb d in
      (record sb { transaction_traces = traces }, some d')

  abbrev pub finalized : ℕ → ShardBlock e → Act (Unit {0})
  finalized mc_seq_no sb bf =
      let (sb', db') = reflected bf.db mc_seq_no sb in
      (ok tt, record bf { last_finalized_block = sb'; db = db' })

  abbrev pub save_state : ShardBlock e → BlockInfo → Bytes → ℕ → Exec S (Unit {0})
  save_state sb info shard new_hash =
      save_serialized_shardstate_ex kv to_hex_string (e.write_state e.default_state) (some shard)
        new_hash
        (record {
          seq_no = key_by_seqno info.seq_no info.vert_seq_no;
          lt = info.end_lt;
          hash = sb.root_hash;
        })

  abbrev pub save_raw : ShardBlock e → BlockInfo → Exec S (Unit {0})
  save_raw sb info =
      save_raw_block kv to_hex_string info.seq_no info.vert_seq_no (some sb.serialized_block)
        (e.write_block sb.block)

  finality_found : ℕ → FinalityBlock e → Act (Unit {0})
  unfolding stored_to_loaded save_serialized_shardstate_ex save_raw_block
  finality_found mc_seq_no fin_sb = do
    sb ← (λ bf. (stored_to_loaded fin_sb bf.storage, bf))
    info ← lift (e.read_info sb.block)
    shard ← lift (e.write_state sb.shard_state)
    new_hash ← lift (e.state_update_new_hash sb.block)
    on_storage (save_state sb info shard new_hash)
    raw ← lift (e.read_info sb.block)
    on_storage (save_raw sb raw)
    remove_by_no sb.seq_no
    finalized mc_seq_no sb

  unfoldable pub finality_blocks : ℕ → ℕ → Act (Unit {0})
  unfolding finality_found
  finality_blocks mc_seq_no root_hash bf = elim (Assoc.get bf.blocks_by_hash root_hash) [
    | some fin_sb ↦
        finality_found mc_seq_no fin_sb
          (record bf { blocks_by_hash = Assoc.remove bf.blocks_by_hash root_hash })
    | none ↦
        if not (root_hash == 0) && not (root_hash == bf.last_finalized_block.root_hash)
        then (err finality_error, bf)
        else (ok tt, bf)
  ]
