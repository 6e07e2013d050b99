-- ===== src/Data/ShardStorage.antt =====
-- node/src/data/shard_storage.rs: the files of one shard over a key-value storage. `to_hex_string`
-- is the library's print of a hash, and so a parameter.
pub mod Keys
mod Examples
use evernode_se.Common.{
  ℕ, ◌≡◌, Bool, true, false, Option, none, some, List, [], ◌∷◌, ◌++◌, map, ltb, ◌==◌, ◌+◌, ◌-◌,
  if◌then◌else◌,
}
use evernode_se.Common.Bytes.{Bytes, digits, be_bytes, hash_bytes}
use evernode_se.Common.Result.{NodeResult, ok, err, panic}
use evernode_se.Common.Exec.{Exec, ◌>>=◌, ◌>>◌}
use evernode_se.Data.Kv.{StorageKey, KvStorage, codes}
use mathlib.Core.List.{reverse}

abbrev pub blocks_finality_info_key : StorageKey
blocks_finality_info_key = codes "blocks_finality.info"

abbrev pub shard_info_key : StorageKey
shard_info_key = codes "shard.info"

abbrev pub shard_state_block_key : StorageKey
shard_state_block_key = codes "shard_state.block"

abbrev pub zerostate_key : StorageKey
zerostate_key = codes "zerostate"

abbrev pub upper_hex_digit : ℕ → ℕ
upper_hex_digit d = if ltb d 10 then d + 48 else d + 55

-- `{:08X}` of a u32
unfoldable pub hex8 : ℕ → StorageKey
hex8 x = map upper_hex_digit (reverse (digits 16 8 x))

unfoldable pub block_key : ℕ → ℕ → StorageKey
block_key seq_no vert_seq_no =
    codes "blocks/block_" ++ (hex8 seq_no ++ (codes "_" ++ (hex8 vert_seq_no ++ codes ".block")))

module _ (to_hex_string : ℕ → StorageKey) where
  unfoldable pub block_finality_hash_key : ℕ → StorageKey
  block_finality_hash_key hash = codes "block_finality/" ++ to_hex_string hash

pub record ShardStateInfo : Type 0 where
  pub seq_no : ℕ
  pub lt : ℕ
  pub hash : ℕ

unfoldable pub serialize_info : ShardStateInfo → Bytes
serialize_info i = be_bytes 8 i.seq_no ++ (be_bytes 8 i.lt ++ hash_bytes i.hash)

module _ {S : Type 0} (kv : KvStorage S) (to_hex_string : ℕ → StorageKey) where
  unfoldable pub save_non_finalized_block : ℕ → Bytes → Exec S (Unit {0})
  save_non_finalized_block hash block_data =
      kv.set (block_finality_hash_key to_hex_string hash) block_data false

  -- The caller always gives the state's bytes. The assertion is that the hash is not zero.
  unfoldable pub save_serialized_shardstate_ex :
      NodeResult Bytes → Option Bytes → ℕ → ShardStateInfo → Exec S (Unit {0})
  save_serialized_shardstate_ex state_bytes shard_data shard_hash info s =
      if shard_hash == 0
      then (panic, s)
      else (do
        bytes ← (λ s'. (elim shard_data [ some bytes ↦ ok bytes | none ↦ state_bytes ], s'))
        kv.set shard_state_block_key bytes true
        kv.set shard_info_key (serialize_info info) true)
          s

  -- The block's numbers, its bytes if they are at hand, and what `write_to_bytes` gives else.
  unfoldable pub save_raw_block : ℕ → ℕ → Option Bytes → NodeResult Bytes → Exec S (Unit {0})
  save_raw_block seq_no vert_seq_no (some block_data) written =
      kv.set (block_key seq_no vert_seq_no) block_data true
  save_raw_block seq_no vert_seq_no none written = do
    block_data ← (λ s. (written, s))
    kv.set (block_key seq_no vert_seq_no) block_data true
