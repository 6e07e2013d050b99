-- ===== src/Block/Finality/Loaded.antt =====
-- What `load` makes of an index that names the current and the last finalized block and no other.
use evernode_se.Common.{ℕ, ◌^◌, ◌<◌, ◌≡◌, ◌≢◌, true, false, [], ◌++◌, arith, ◌==◌}
use evernode_se.Common.Bytes.{
  Bytes, hash_bytes, le_bytes, read_u256, read_exact, read_u256-append, read_le-append,
}
use evernode_se.Common.Result.{ok}
use evernode_se.Data.ShardStorage.{blocks_finality_info_key, block_finality_hash_key}
use evernode_se.Block.Ever.{EverBlock}
use evernode_se.Block.ShardBlock.{ShardBlock}
use evernode_se.Block.ShardBlock
use evernode_se.Block.Finality.{BlockFinality, Services, read_one_sb_from_key}
use evernode_se.Block.Finality.Disk.{
  entry_bytes, read_one_sb_hash, read_one_sb, read_entries, deserialize, load,
}
use mathlib.Core.List.{append_assoc}

read_one_sb_hash-append :
    (hash seq_no : ℕ) (rest : Bytes)
    → hash < 256 ^ 32
    → seq_no < 2 ^ 64
    → read_one_sb_hash (entry_bytes hash seq_no ++ rest) ≡ ok ((seq_no, hash), rest)
unfolding read_one_sb_hash
read_one_sb_hash-append hash seq_no rest hh hs = rw (
  append_assoc (hash_bytes hash) (le_bytes 8 seq_no) rest,
  read_u256-append hash (le_bytes 8 seq_no ++ rest) hh,
  read_le-append 8 seq_no rest hs,
)

module _ (e : EverBlock) {S D : Type 0} (sv : Services e S D) where
  -- A block of the index whose file can be read.
  pub record OnDisk (s : S) (hash seq_no : ℕ) (sb : ShardBlock e) : Type 0 where
    pub hash_fits : hash < 256 ^ 32
    pub seq_no_fits : seq_no < 2 ^ 64
    pub later : seq_no ≢ 0
    pub bytes : Bytes
    pub file : sv.kv.get (block_finality_hash_key sv.to_hex_string hash) s ≡ ok bytes
    pub read : ShardBlock.deserialize e bytes ≡ ok sb

  read_one_sb-OnDisk :
      (bf : BlockFinality e S D) (hash seq_no : ℕ) (sb : ShardBlock e) (rest : Bytes)
      → OnDisk bf.storage hash seq_no sb
      → read_one_sb e sv (entry_bytes hash seq_no ++ rest) bf ≡ ok (sb, rest)
  unfolding read_one_sb read_one_sb_from_key
  read_one_sb-OnDisk bf hash seq_no sb rest d =
      let nonzero : (seq_no == 0) ≡ false = ground (arith, d.later) in
      rw (
        read_one_sb_hash-append hash seq_no rest d.hash_fits d.seq_no_fits,
        nonzero,
        d.file,
        d.read,
      )

  -- Such an index is loaded: both blocks are there, and the maps are as they were.
  pub load-OnDisk :
      (bf : BlockFinality e S D) (h n h' n' : ℕ) (current last : ShardBlock e)
      → sv.kv.get blocks_finality_info_key bf.storage
        ≡ ok (entry_bytes h n ++ (entry_bytes h' n' ++ []))
      → OnDisk bf.storage h n current
      → OnDisk bf.storage h' n' last
      → load e sv bf ≡ (ok true, record bf { current_block = current; last_finalized_block = last })
  unfolding load deserialize read_entries read_one_sb_hash read_u256 read_exact
  load-OnDisk bf h n h' n' current last index c l = rw (
    index,
    load,
    read_one_sb-OnDisk bf h n current (entry_bytes h' n' ++ []) c,
    read_one_sb-OnDisk (record bf { current_block = current }) h' n' last [] l,
  )
