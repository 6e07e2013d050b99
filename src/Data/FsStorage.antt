-- ===== src/Data/FsStorage.antt =====
-- node/src/data/fs_storage.rs: the folders of the shards' storages, and their reset. A shard is given
-- by whether it is of the masterchain, its workchain and its prefix with the tag.
pub mod Folders
mod Examples
use evernode_se.Common.{
  ℕ, zero, suc, ◌+◌, ◌/◌, ◌%◌, Bool, true, false, List, [], ◌∷◌, ◌++◌, map, ltb, if◌then◌else◌,
}
use evernode_se.Common.Int.{ℤ, pos, negsuc}
use evernode_se.Common.Bytes.{digits}
use evernode_se.Common.Result.{NodeResult, ok}
use evernode_se.Common.Exec.{Exec, ◌>>=◌, ◌>>◌}
use evernode_se.Data.Kv.{StorageKey, KvStorage, codes}
use evernode_se.Data.ShardStorage.{blocks_finality_info_key, shard_info_key, shard_state_block_key}
use mathlib.Core.List.{reverse}

-- `{}` of a number, by the rounds that are left for its digits.
decimal_digits : ℕ → ℕ → StorageKey
decimal_digits zero n = []
decimal_digits (suc fuel) n =
    let rest = decimal_digits fuel (n / 10) ++ (n % 10 + 48) ∷ [] in
    if ltb n 10 then (n + 48) ∷ [] else rest

-- `{}` of an i32
unfoldable pub decimal : ℤ → StorageKey
unfolding decimal_digits
decimal (pos n) = decimal_digits (suc n) n
decimal (negsuc n) = codes "-" ++ decimal_digits (suc (suc n)) (suc n)

abbrev pub lower_hex_digit : ℕ → ℕ
lower_hex_digit d = if ltb d 10 then d + 48 else d + 87

-- `{:016x}` of a u64
unfoldable pub hex16 : ℕ → StorageKey
hex16 x = map lower_hex_digit (reverse (digits 16 16 x))

unfoldable pub workchain_name : Bool → ℤ → StorageKey
workchain_name true workchain_id = codes "MC"
workchain_name false workchain_id = codes "WC" ++ decimal workchain_id

unfoldable pub shard_name : ℕ → StorageKey
shard_name prefix = codes "shard_" ++ hex16 prefix

-- `workchains_path.join(workchain_name).join(shard_name)`
unfoldable pub root_path : StorageKey → Bool → ℤ → ℕ → StorageKey
root_path workchains_path masterchain workchain_id prefix =
    workchains_path
    ++ (codes "/" ++ (workchain_name masterchain workchain_id ++ (codes "/" ++ shard_name prefix)))

-- `Path::exists` and `create_dir_all`
pub record Directories (F : Type 0) : Type 0 where
  pub dir_exists : StorageKey → F → Bool
  pub create_dir_all : StorageKey → Exec F (Unit {0})

module _ {F : Type 0} (folders : Directories F) where
  ensure_dir : StorageKey → Exec F (Unit {0})
  ensure_dir path f =
      if folders.dir_exists path f then (ok tt, f) else folders.create_dir_all path f

  unfoldable pub new : StorageKey → Exec F StorageKey
  unfolding ensure_dir
  new root = do
    ensure_dir (root ++ codes "/workchains")
    (λ f. (ok (root ++ codes "/workchains"), f))

  unfoldable pub with_path : Bool → ℤ → ℕ → StorageKey → Exec F StorageKey
  unfolding ensure_dir
  with_path masterchain workchain_id prefix workchains_path =
      let path = root_path workchains_path masterchain workchain_id prefix in
      do
        ensure_dir (path ++ codes "/blocks")
        ensure_dir (path ++ codes "/block_finality")
        (λ f. (ok path, f))

-- `FSStorage::clear_db` on the storage of the shard.
module _ {S : Type 0} (kv : KvStorage S) where
  unfoldable pub clear_db : Exec S (Unit {0})
  clear_db = do
    kv.remove blocks_finality_info_key
    kv.remove shard_info_key
    kv.remove shard_state_block_key
