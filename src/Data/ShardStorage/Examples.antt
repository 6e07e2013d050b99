-- ===== src/Data/ShardStorage/Examples.antt =====
-- Tests of the keys of a shard's storage, and their theorem at concrete blocks.
use evernode_se.Common.{◌≡◌, refl, [], ◌∷◌, arith}
use evernode_se.Common.Bytes.{digits}
use evernode_se.Data.Kv.{codes}
use evernode_se.Data.ShardStorage.{hex8, block_key}
use evernode_se.Data.ShardStorage.Keys.{block, key_of-injective}

block_key_test : block_key 4660 255 ≡ codes "blocks/block_00001234_000000FF.block"
unfolding block_key hex8 digits
block_key_test = refl

key_of-injective_example : block 4660 255 ≡ block 4660 255
key_of-injective_example =
    key_of-injective (λ h. h ∷ []) (λ a b e. cc) (block 4660 255) (block 4660 255) (omega arith)
      (omega arith) refl
