-- ===== src/Block/ShardBlock/RoundTrip.antt =====
-- A shard block that was written is read back.
use evernode_se.Common.{◌%◌, ◌^◌, ◌<◌, ◌≡◌, subst, [], ◌++◌, arith, length}
use evernode_se.Common.Bytes.{
  Bytes, le_bytes, hash_bytes, read_le-append, read_upto-append, read_u256-append,
}
use evernode_se.Common.Result.{ok, >>=-eq-ok, ok-injective}
use evernode_se.Block.Ever.{EverBlock, IsEverBlock}
use evernode_se.Block.ShardBlock.{ShardBlock, serialize, deserialize}
use mathlib.Core.List.{append-nil}

-- The numbers fit their fields.
pub record Fits {e : EverBlock} (sb : ShardBlock e) : Type 0 where
  pub seq_no : sb.seq_no < 2 ^ 64
  pub size : length sb.serialized_block < 2 ^ 32
  pub root_hash : sb.root_hash < 256 ^ 32
  pub file_hash : sb.file_hash < 256 ^ 32

abbrev pub without_traces : {e : EverBlock} → ShardBlock e → ShardBlock e
without_traces sb = record sb { transaction_traces = [] }

module _ (e : EverBlock) (laws : IsEverBlock e) where
  read_layout :
      (sb : ShardBlock e) (state_bytes block_bytes : Bytes)
      → Fits sb
      → e.write_state sb.shard_state ≡ ok state_bytes
      → e.write_block sb.block ≡ ok block_bytes
      → deserialize e (
          le_bytes 8 sb.seq_no
          ++ (le_bytes 4 (length sb.serialized_block % 2 ^ 32)
              ++ (sb.serialized_block
                  ++ (hash_bytes sb.root_hash
                      ++ (hash_bytes sb.file_hash ++ (state_bytes ++ block_bytes))))))
        ≡ ok (without_traces sb)
  unfolding deserialize
  read_layout sb state_bytes block_bytes fits ws wb =
      let size_fits : length sb.serialized_block % 2 ^ 32 ≡ length sb.serialized_block =
        omega arith in
      let (state_cell, rs, ss) = laws.read-write_state sb.shard_state state_bytes block_bytes ws in
      let (block_cell, rb, bb) = laws.read-write_block sb.block block_bytes [] wb in
      rw (
        read_le-append 8 sb.seq_no _ fits.seq_no,
        size_fits,
        read_le-append 4 (length sb.serialized_block) _ fits.size,
        read_upto-append sb.serialized_block _,
        read_u256-append sb.root_hash _ fits.root_hash,
        read_u256-append sb.file_hash _ fits.file_hash,
        rs,
        ss,
        subst (λ bs. e.read_boc bs ≡ ok (block_cell, [])) (append-nil block_bytes) rb,
        bb,
      )

  -- What `serialize` writes, `deserialize` reads back, but for the traces, which are not stored.
  pub deserialize-serialize :
      (sb : ShardBlock e) (bs : Bytes)
      → Fits sb
      → serialize e sb ≡ ok bs
      → deserialize e bs ≡ ok (without_traces sb)
  unfolding serialize
  deserialize-serialize sb bs fits h =
      let (state_bytes, ws, h') = >>=-eq-ok (e.write_state sb.shard_state) _ h in
      let (block_bytes, wb, h'') = >>=-eq-ok (e.write_block sb.block) _ h' in
      subst (λ written. deserialize e written ≡ ok (without_traces sb)) (ok-injective h'')
        (read_layout sb state_bytes block_bytes fits ws wb)
