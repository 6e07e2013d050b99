-- ===== src/Block/ShardBlock.antt =====
-- node/src/block/finality_block.rs: a block with its shard state, and its form on disk.
pub mod SeqNo
pub mod RoundTrip
mod Examples
use Prim.Native.Nat.{bit_or}
use evernode_se.Common.{ℕ, zero, suc, ◌*◌, ◌%◌, ◌^◌, String, List, [], ◌++◌, length}
use evernode_se.Common.Int.{ℤ, pos}
use evernode_se.Common.Assoc.{Assoc}
use evernode_se.Common.Bytes.{Bytes, le_bytes, hash_bytes, read_le, read_upto, read_u256}
use evernode_se.Common.Result.{NodeResult, ok, err, panic, ◌>>=◌}
use evernode_se.Block.Ever.{EverBlock, BlockInfo}

-- `EngineTraceInfoData` of node/src/block/builder.rs: one command of the virtual machine.
pub record EngineTraceInfoData : Type 0 where
  pub info_type : String
  pub step : ℕ
  pub cmd_str : String
  pub stack : List String
  pub gas_used : String
  pub gas_cmd : String
  pub cmd_code_rem_bits : ℕ
  pub cmd_code_hex : String
  pub cmd_code_cell_hash : String
  pub cmd_code_offset : ℕ

abbrev pub Traces : Type 0
Traces = Assoc ℕ (List EngineTraceInfoData)

-- `((vert_seq_no as u64) << 32) | (seq_no as u64)`
unfoldable pub key_by_seqno : ℕ → ℕ → ℕ
key_by_seqno seq_no vert_seq_no = bit_or (vert_seq_no * 2 ^ 32) seq_no

pub record ShardBlockHash : Type 0 where
  pub seq_no : ℕ
  pub root_hash : ℕ

unfoldable pub with_hash : ℕ → ℕ → ShardBlockHash
with_hash seq_no hash = record { seq_no = seq_no; root_hash = hash }

-- `expect`, `unwrap`: an error becomes a panic.
abbrev pub unwrap {ℓ} : {A : Type ℓ} → NodeResult A → NodeResult A
unwrap (ok a) = ok a
unwrap (err e) = panic
unwrap panic = panic

pub record ShardBlock (e : EverBlock) : Type 0 where
  pub seq_no : ℕ
  pub serialized_block : Bytes
  pub root_hash : ℕ
  pub file_hash : ℕ
  pub block : e.Block
  pub shard_state : e.State
  pub transaction_traces : Traces

pub data FinalityBlock (e : EverBlock) : Type 0 where
  loaded : ShardBlock e → FinalityBlock e
  stored : ShardBlockHash → FinalityBlock e

unfoldable pub finality_seq_no : {e : EverBlock} → FinalityBlock e → ℕ
finality_seq_no (stored sb) = sb.seq_no
finality_seq_no (loaded sb) = sb.seq_no

module _ (e : EverBlock) where
  open e use {
    Block, State, ShardIdent, default_state, set_shard, set_global_id, default_block,
    set_block_global_id, serialize_block, repr_hash, write_boc, calc_file_hash, read_info,
    write_state, write_block, read_boc, state_of_cell, block_of_cell,
  }

  unfoldable pub new : ℤ → ShardIdent → ShardBlock e
  new global_id shard = record {
    seq_no = 0;
    serialized_block = [];
    root_hash = 0;
    file_hash = 0;
    block = set_block_global_id global_id default_block;
    shard_state = set_shard shard (set_global_id global_id default_state);
    transaction_traces = [];
  }

  unfoldable pub with_block_and_state : Block → State → NodeResult (ShardBlock e)
  with_block_and_state block shard_state = do
    cell ← unwrap (serialize_block block)
    serialized_block ← unwrap (write_boc cell)
    info ← unwrap (read_info block)
    ok (record {
      seq_no = key_by_seqno info.seq_no info.vert_seq_no;
      serialized_block = serialized_block;
      root_hash = repr_hash cell;
      file_hash = calc_file_hash serialized_block;
      block = block;
      shard_state = shard_state;
      transaction_traces = [];
    })

  -- The length is cut to a u32.
  unfoldable pub serialize : ShardBlock e → NodeResult Bytes
  serialize sb = do
    state_bytes ← write_state sb.shard_state
    block_bytes ← write_block sb.block
    ok (
        le_bytes 8 sb.seq_no
        ++ (le_bytes 4 (length sb.serialized_block % 2 ^ 32)
            ++ (sb.serialized_block
                ++ (hash_bytes sb.root_hash
                    ++ (hash_bytes sb.file_hash ++ (state_bytes ++ block_bytes))))))

  -- The block is read into a fresh one, so it has no traces.
  unfoldable pub deserialize : Bytes → NodeResult (ShardBlock e)
  deserialize bs = do
    (seq_no, r1) ← read_le 8 bs
    (sb_len, r2) ← read_le 4 r1
    let (serialized_block, r3) = read_upto sb_len r2
    (root_hash, r4) ← read_u256 r3
    (file_hash, r5) ← read_u256 r4
    (state_cell, r6) ← read_boc r5
    shard_state ← state_of_cell state_cell
    (block_cell, r7) ← read_boc r6
    block ← block_of_cell block_cell
    ok (record {
      seq_no = seq_no;
      serialized_block = serialized_block;
      root_hash = root_hash;
      file_hash = file_hash;
      block = block;
      shard_state = shard_state;
      transaction_traces = [];
    })
