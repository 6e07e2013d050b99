-- ===== src/Data/FsStorage/Examples.antt =====
-- Tests of the folders of shards, and their theorem at the folder of workchain 0.
use evernode_se.Common.{ℕ, ◌≡◌, refl, ◌^◌, false, arith}
use evernode_se.Common.Int.{pos, negsuc}
use evernode_se.Common.Bytes.{digits}
use evernode_se.Data.Kv.{codes}
use evernode_se.Data.FsStorage.{decimal, hex16, workchain_name, shard_name, root_path}
use evernode_se.Data.FsStorage.Folders.{root_path-injective}
use mathlib.Core.List.{reverse}

root_path_of_zero :
    root_path (codes ".") false (pos 0) (2 ^ 63) ≡ codes "./WC0/shard_8000000000000000"
unfolding root_path workchain_name decimal shard_name hex16 digits reverse
root_path_of_zero = refl

decimal_of_negative : decimal (negsuc 122) ≡ codes "-123"
unfolding decimal
decimal_of_negative = refl

root_path-injective_example : (pos 0 ≡ pos 0) × (◌≡◌ {A = ℕ} 8 8)
root_path-injective_example =
    root_path-injective (codes ".") false false (pos 0) (pos 0) 8 8 refl refl (omega arith)
      (omega arith) refl
