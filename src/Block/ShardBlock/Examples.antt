-- ===== src/Block/ShardBlock/Examples.antt =====
-- Tests of a shard block's form on disk, and its theorems at a concrete block.
use evernode_se.Common.{ℕ, ◌+◌, ◌*◌, ◌^◌, ◌<◌, ◌≡◌, refl, [], ◌∷◌, arith}
use evernode_se.Common.Bytes.{Bytes}
use evernode_se.Common.Result.{NodeResult, ok}
use evernode_se.Block.Sample.{sample, sample-IsEverBlock}
use evernode_se.Block.ShardBlock.{ShardBlock, key_by_seqno, serialize, deserialize}
use evernode_se.Block.ShardBlock.SeqNo.{key_by_seqno-injective}
use evernode_se.Block.ShardBlock.RoundTrip.{without_traces, deserialize-serialize}

key_by_seqno_test : key_by_seqno 5 3 ≡ 3 * 2 ^ 32 + 5
unfolding key_by_seqno
key_by_seqno_test = refl

key_by_seqno-injective_example :
    (key_by_seqno 5 3 < 2 ^ 64)
    × (key_by_seqno 5 3 ≡ key_by_seqno 5 3 → ◌≡◌ {A = ℕ} 5 5 × ◌≡◌ {A = ℕ} 3 3)
key_by_seqno-injective_example =
    key_by_seqno-injective 5 3 5 3 (omega arith) (omega arith) (omega arith) (omega arith)

abbrev small_block : ShardBlock sample
small_block = record {
  seq_no = 9;
  serialized_block = 9 ∷ [];
  root_hash = 258;
  file_hash = 77;
  block = 9;
  shard_state = 4;
  transaction_traces = [];
}

abbrev the_bytes : NodeResult Bytes → Bytes
the_bytes (ok bs) = bs
the_bytes _ = []

deserialize-serialize_example :
    deserialize sample (the_bytes (serialize sample small_block)) ≡ ok (without_traces small_block)
unfolding serialize
deserialize-serialize_example =
    deserialize-serialize sample sample-IsEverBlock small_block
      (the_bytes (serialize sample small_block))
      (record {
        seq_no = omega arith;
        size = omega arith;
        root_hash = omega arith;
        file_hash = omega arith;
      })
      refl
