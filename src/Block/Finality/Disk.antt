-- ===== src/Block/Finality/Disk.antt =====
-- node/src/block/finality.rs: what is saved after each block, and how it is loaded at a start.
use evernode_se.Common.{ℕ, zero, suc, Bool, true, false, [], ◌∷◌, ◌++◌, length, ◌==◌, if◌then◌else◌}
use evernode_se.Common.Assoc.{Assoc, ℕ_key}
use evernode_se.Common.Assoc
use evernode_se.Common.Bytes.{Bytes, le_bytes, hash_bytes, read_le, read_u256}
use evernode_se.Common.Result.{
  NodeResult, ok, err, panic, ◌>>=◌ as bind, io, unexpected_eof, not_found,
}
use evernode_se.Common.Exec.{lift, modify, ◌>>=◌, ◌>>◌}
use evernode_se.Data.ShardStorage.{
  blocks_finality_info_key, zerostate_key, block_finality_hash_key, save_non_finalized_block,
}
use evernode_se.Block.Ever.{EverBlock}
use evernode_se.Block.ShardBlock
use evernode_se.Block.ShardBlock.{
  ShardBlock, FinalityBlock, loaded, stored, Traces, finality_seq_no, with_hash,
  with_block_and_state,
}
use evernode_se.Block.Finality.{
  BlockFinality, Services, Act, on_storage, read_one_sb_from_key, finality_blocks,
}

-- One entry of the index: a hash and a number.
abbrev pub entry_bytes : ℕ → ℕ → Bytes
entry_bytes hash seq_no = hash_bytes hash ++ le_bytes 8 seq_no

unfoldable pub entries_bytes : {e : EverBlock} → Assoc ℕ (FinalityBlock e) → Bytes
unfolding finality_seq_no
entries_bytes [] = []
entries_bytes ((key, sb) ∷ rest) = entry_bytes key (finality_seq_no sb) ++ entries_bytes rest

unfoldable pub serialize : {e : EverBlock} {S D : Type 0} → BlockFinality e S D → Bytes
unfolding entries_bytes
serialize bf =
    entry_bytes bf.current_block.root_hash bf.current_block.seq_no
    ++ (entry_bytes bf.last_finalized_block.root_hash bf.last_finalized_block.seq_no
        ++ entries_bytes bf.blocks_by_hash)

unfoldable pub read_one_sb_hash : Bytes → NodeResult ((ℕ × ℕ) × Bytes)
read_one_sb_hash rdr = bind (read_u256 rdr) λ h. bind (read_le 8 h.1) λ s. ok ((s.0, h.0), s.1)

module _ (e : EverBlock) {S D : Type 0} (sv : Services e S D) where
  open sv use {kv, to_hex_string}

  unfoldable pub save_index : Act e sv (Unit {0})
  unfolding serialize
  save_index bf = on_storage e sv (kv.set blocks_finality_info_key (serialize bf) true) bf

  unfoldable pub save_block : ShardBlock e → Act e sv (Unit {0})
  unfolding save_non_finalized_block
  save_block sb = do
    bytes ← lift (ShardBlock.serialize e sb)
    on_storage e sv (save_non_finalized_block kv to_hex_string sb.root_hash bytes)

  unfoldable pub save_finality : Act e sv (Unit {0})
  unfolding save_index save_block
  save_finality = do
    (λ bf. save_block bf.current_block bf)
    (λ bf. save_block bf.last_finalized_block bf)
    save_index

  unfoldable pub load_zerostate : Bytes → Act e sv (Unit {0})
  load_zerostate bytes = do
    read ← lift (e.state_of_bytes bytes)
    (λ bf.
        let zerostate = e.set_global_id (e.block_global_id bf.current_block.block) read in
        (
          ok tt,
          record bf {
            current_block = record bf.current_block { shard_state = zerostate };
            last_finalized_block = record bf.last_finalized_block { shard_state = zerostate };
          },
        ))

  -- A block and the rest of the index. Number 0 stands for the start of a chain.
  unfoldable pub read_one_sb : Bytes → BlockFinality e S D → NodeResult (ShardBlock e × Bytes)
  unfolding read_one_sb_hash read_one_sb_from_key
  read_one_sb rdr bf = bind (read_one_sb_hash rdr) λ x.
      if x.0.0 == 0
      then ok (ShardBlock.new e (e.block_global_id bf.current_block.block) bf.shard_ident, x.1)
      else bind (read_one_sb_from_key e sv (block_finality_hash_key to_hex_string x.0.1) bf.storage)
          λ sb. ok (sb, x.1)

  abbrev pub add_stored : ℕ → ℕ → BlockFinality e S D → BlockFinality e S D
  add_stored seq_no hash bf = record bf {
    blocks_by_hash = Assoc.insert bf.blocks_by_hash hash (stored (with_hash seq_no hash));
    blocks_by_no = Assoc.insert bf.blocks_by_no seq_no (stored (with_hash seq_no hash));
  }

  -- The `loop` over the index's entries, with fuel for the rounds. The end of the file ends it.
  unfoldable pub read_entries : ℕ → Bytes → Act e sv (Unit {0})
  unfolding read_one_sb_hash with_hash
  read_entries zero rdr bf = (panic, bf)
  read_entries (suc fuel) rdr bf = elim (read_one_sb_hash rdr) [
    | ok x ↦ read_entries fuel x.1 (add_stored x.0.0 x.0.1 bf)
    | err (io unexpected_eof) ↦ (ok tt, bf)
    | err other ↦ (err other, bf)
    | panic ↦ (panic, bf)
  ]

  unfoldable pub deserialize : Bytes → Act e sv (Unit {0})
  unfolding read_one_sb read_entries
  deserialize rdr = do
    current ← (λ bf. (read_one_sb rdr bf, bf))
    modify (λ bf. record bf { current_block = current.0 })
    last ← (λ bf. (read_one_sb current.1 bf, bf))
    modify (λ bf. record bf { last_finalized_block = last.0 })
    read_entries (suc (length last.1)) last.1

  -- The zerostate of the storage, if there is one.
  unfoldable pub load_fresh : NodeResult Bytes → Act e sv Bool
  unfolding load_zerostate
  load_fresh (ok zerostate) bf = (do load_zerostate zerostate; (λ bf'. (ok false, bf'))) bf
  load_fresh (err not_found) bf = (ok false, bf)
  load_fresh (err other) bf = (err other, bf)
  load_fresh panic bf = (panic, bf)

  load_from : NodeResult Bytes → Act e sv Bool
  unfolding deserialize load_fresh
  load_from (ok bytes) bf = (do deserialize bytes; (λ bf'. (ok true, bf'))) bf
  load_from (err error) bf = load_fresh (kv.get zerostate_key bf.storage) bf
  load_from panic bf = (panic, bf)

  unfoldable pub load : Act e sv Bool
  unfolding load_from
  load bf = load_from (kv.get blocks_finality_info_key bf.storage) bf

  -- The first log line reads the block's header, where the level info is logged, as the node's
  -- configuration of the log does.
  unfoldable pub put_block_with_info : ℕ → e.Block → e.State → Traces → Act e sv (Unit {0})
  unfolding finality_blocks save_finality
  put_block_with_info mc_seq_no block shard_state transaction_traces = do
    info ← lift (e.read_info block)
    built ← lift (with_block_and_state e block shard_state)
    (λ bf.
        let sb : ShardBlock e = record built { transaction_traces = transaction_traces } in
        (
          ok tt,
          record bf {
            current_block = sb;
            blocks_by_hash = Assoc.insert bf.blocks_by_hash sb.root_hash (loaded sb);
            blocks_by_no = Assoc.insert bf.blocks_by_no sb.seq_no (loaded sb);
          },
        ))
    finality_blocks e sv mc_seq_no built.root_hash
    save_finality
