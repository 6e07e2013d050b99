-- ===== src/Block/Finality/Examples.antt =====
-- Tests of finality over the storage in memory, and its theorems at a concrete chain.
use evernode_se.Common.{ℕ, ◌≡◌, refl, subst, true, false, some, List, [], ◌∷◌, arith}
use evernode_se.Common.Int.{pos}
use evernode_se.Common.Assoc
use evernode_se.Common.Result.{ok, ok-injective}
use evernode_se.Data.Kv.Mem.{MemKvStorage, mem_kv, mem_kv-IsKv}
use evernode_se.Data.Kv.Mem
use evernode_se.Common.Bytes.{
  bytes_eqb, read_u256, read_exact, be_bytes, digits, le_bytes, read_le, of_le_bytes, of_digits,
  of_be_bytes, read_upto,
}
use evernode_se.Data.ShardStorage.{block_key, block_finality_hash_key}
use evernode_se.Block.Sample.{sample, sample-IsEverBlock}
use evernode_se.Block.ShardBlock
use evernode_se.Block.ShardBlock.{ShardBlock, with_block_and_state, key_by_seqno}
use evernode_se.Block.ShardBlock.RoundTrip.{without_traces}
use evernode_se.Block.Finality.{BlockFinality, Services, with_params, read_one_sb_from_key}
use evernode_se.Block.Finality.Disk.{
  deserialize, read_entries, read_one_sb_hash, read_one_sb, load, load_fresh, put_block_with_info,
}
use evernode_se.Block.Finality.Restart.{IsNew, put-load}
use evernode_se.Block.Finality.Life.{Life, here, next, put, restart, Life-load}
use evernode_se.Data.FsStorage.{clear_db}

abbrev services : Services sample MemKvStorage (List ℕ)
services = record {
  kv = mem_kv;
  to_hex_string = λ h. h ∷ [];
  reflect_block_in_db = λ mc sb d. ([], sb.block ∷ d);
}

abbrev chain : BlockFinality sample MemKvStorage (List ℕ)
chain = with_params sample services (pos 0) (pos 0) [] (some [])

abbrev after_nine : BlockFinality sample MemKvStorage (List ℕ)
after_nine = (put_block_with_info sample services 1 9 4 [] chain).1

abbrev nine : ShardBlock sample
nine = record {
  seq_no = 9;
  serialized_block = 9 ∷ [];
  root_hash = 1009;
  file_hash = 77;
  block = 9;
  shard_state = 4;
  transaction_traces = [];
}

nine-IsNew :
    (sb : ShardBlock sample)
    → with_block_and_state sample 9 4 ≡ ok sb
    → IsNew sample services chain sb
unfolding with_block_and_state key_by_seqno with_params Mem.get Assoc.get
nine-IsNew sb built = subst (IsNew sample services chain) (ok-injective built) (record {
  missing = refl;
  fits = record {
    seq_no = omega arith;
    size = omega arith;
    root_hash = omega arith;
    file_hash = omega arith;
  };
  later = omega arith;
})

put_succeeds : (put_block_with_info sample services 1 9 4 [] chain).0 ≡ ok tt
unfolding put_block_with_info with_params with_block_and_state key_by_seqno Mem.get Mem.set
    Assoc.get Assoc.insert Assoc.remove ShardBlock.serialize
put_succeeds = refl

put-load_example :
    (sb : ShardBlock sample) × (with_block_and_state sample 9 4 ≡ ok sb)
    × (load sample services (record chain { storage = after_nine.storage }) ≡ (
      ok true,
      record chain {
        storage = after_nine.storage;
        current_block = without_traces sb;
        last_finalized_block = without_traces sb;
      },
    ))
unfolding with_params
put-load_example =
    put-load sample services mem_kv-IsKv 1 [] chain sample-IsEverBlock 9 4
      (record chain { storage = after_nine.storage }) refl refl nine-IsNew put_succeeds refl

-- The chain's storage, reset after block nine.
abbrev emptied : BlockFinality sample MemKvStorage (List ℕ)
emptied = record chain { storage = (clear_db mem_kv after_nine.storage).1 }

starts_empty : load sample services emptied ≡ (ok false, emptied)
unfolding load load_fresh clear_db bytes_eqb block_key block_finality_hash_key Mem.remove
    put_block_with_info with_params with_block_and_state key_by_seqno Mem.get Mem.set Assoc.get
    Assoc.insert Assoc.remove ShardBlock.serialize
starts_empty = refl

-- The chain is started again after block nine, and then puts block eleven.
abbrev restarted : BlockFinality sample MemKvStorage (List ℕ)
restarted = (load sample services (record chain { storage = after_nine.storage })).1

abbrev after_eleven : BlockFinality sample MemKvStorage (List ℕ)
after_eleven = (put_block_with_info sample services 1 11 5 [] restarted).1

abbrev eleven : ShardBlock sample
eleven = record {
  seq_no = 11;
  serialized_block = 11 ∷ [];
  root_hash = 1011;
  file_hash = 77;
  block = 11;
  shard_state = 5;
  transaction_traces = [];
}

two_blocks : Life sample services after_nine nine after_eleven eleven
unfolding with_block_and_state key_by_seqno with_params Mem.get Mem.set Assoc.get Assoc.insert
    Assoc.remove put_block_with_info load ShardBlock.serialize ShardBlock.deserialize bytes_eqb
    block_key block_finality_hash_key deserialize read_entries read_one_sb_hash read_one_sb
    read_one_sb_from_key read_u256 read_exact be_bytes digits le_bytes read_le of_le_bytes of_digits
    of_be_bytes read_upto
two_blocks =
    next (next here (restart (record chain { storage = after_nine.storage }) refl refl refl refl)) (
      put 1 11 5 [] refl
        (record {
          missing = refl;
          fits = record {
            seq_no = omega arith;
            size = omega arith;
            root_hash = omega arith;
            file_hash = omega arith;
          };
          later = omega arith;
        })
        refl)

put_nine : put_block_with_info sample services 1 9 4 [] chain ≡ (ok tt, after_nine)
unfolding put_block_with_info with_params with_block_and_state key_by_seqno Mem.get Mem.set
    Assoc.get Assoc.insert Assoc.remove ShardBlock.serialize
put_nine = refl

Life-load_example :
    (without_traces after_eleven.current_block ≡ without_traces eleven)
    × (without_traces after_eleven.last_finalized_block ≡ without_traces eleven)
    × (after_eleven.blocks_by_hash ≡ [])
    × (after_eleven.blocks_by_no ≡ [])
    × (load sample services (record chain { storage = after_eleven.storage }) ≡ (
      ok true,
      record chain {
        storage = after_eleven.storage;
        current_block = without_traces eleven;
        last_finalized_block = without_traces eleven;
      },
    ))
unfolding with_params with_block_and_state key_by_seqno
Life-load_example =
    Life-load sample services mem_kv-IsKv sample-IsEverBlock 1 9 4 [] chain after_nine after_eleven
      (record chain { storage = after_eleven.storage }) nine eleven refl refl refl
      (nine-IsNew nine refl) put_nine two_blocks refl
