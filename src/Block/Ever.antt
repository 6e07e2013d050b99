-- ===== src/Block/Ever.antt =====
-- What node/src/block takes from the ever_block library: its types, the operations that the code
-- calls, and (apart) the documented behaviour that theorems rely on.
use evernode_se.Common.{ℕ, ◌^◌, ◌<◌, ◌≡◌, ◌++◌, Bool}
use evernode_se.Common.Int.{ℤ}
use evernode_se.Common.Bytes.{Bytes}
use evernode_se.Common.Result.{NodeResult, ok}

-- What the code reads of a block's header.
pub record BlockInfo : Type 0 where
  pub seq_no : ℕ
  pub vert_seq_no : ℕ
  pub start_lt : ℕ
  pub end_lt : ℕ
  pub gen_utime : ℕ

pub record EverBlock : Type 1 where
  pub Cell : Type 0
  pub Block : Type 0
  -- ShardStateUnsplit
  pub State : Type 0
  pub ShardIdent : Type 0
  pub repr_hash : Cell → ℕ
  pub write_boc : Cell → NodeResult Bytes
  -- `BocReader::read` and `withdraw_single_root`: the root, and what follows its bag of cells
  pub read_boc : Bytes → NodeResult (Cell × Bytes)
  pub calc_file_hash : Bytes → ℕ
  pub default_block : Block
  pub set_block_global_id : ℤ → Block → Block
  pub block_global_id : Block → ℤ
  pub serialize_block : Block → NodeResult Cell
  pub write_block : Block → NodeResult Bytes
  pub block_of_cell : Cell → NodeResult Block
  pub read_info : Block → NodeResult BlockInfo
  -- `read_state_update()?.new_hash`
  pub state_update_new_hash : Block → NodeResult ℕ
  pub default_state : State
  pub set_global_id : ℤ → State → State
  pub set_shard : ShardIdent → State → State
  pub state_seq_no : State → ℕ
  pub write_state : State → NodeResult Bytes
  pub state_of_cell : Cell → NodeResult State
  -- `ShardStateUnsplit::construct_from_bytes`
  pub state_of_bytes : Bytes → NodeResult State
  -- `read_out_msg_queue_info()`, and whether its queue is empty
  pub out_msg_queue_is_empty : State → NodeResult Bool

-- What is written is read back, whatever follows it; hashes have 32 bytes.
pub record IsEverBlock (e : EverBlock) : Type 1 where
  pub repr_hash-lt : (c : e.Cell) → e.repr_hash c < 256 ^ 32
  pub calc_file_hash-lt : (bs : Bytes) → e.calc_file_hash bs < 256 ^ 32
  pub read-write_block :
      (b : e.Block) (bs rest : Bytes)
      → e.write_block b ≡ ok bs
      → (c : e.Cell) × (e.read_boc (bs ++ rest) ≡ ok (c, rest)) × (e.block_of_cell c ≡ ok b)
  pub read-write_state :
      (s : e.State) (bs rest : Bytes)
      → e.write_state s ≡ ok bs
      → (c : e.Cell) × (e.read_boc (bs ++ rest) ≡ ok (c, rest)) × (e.state_of_cell c ≡ ok s)
