-- ===== src/Block/Sample.antt =====
-- A small library in place of ever_block, for tests: a cell, a block and a state are a byte each, a
-- bag of cells is that byte, and a block's number is its byte.
use evernode_se.Common.{ℕ, ◌+◌, ◌%◌, ◌^◌, ◌≡◌, refl, true, [], ◌∷◌, ◌++◌, arith}
use evernode_se.Common.Int.{ℤ, pos}
use evernode_se.Common.Bytes.{Bytes}
use evernode_se.Common.Result.{NodeResult, ok, err, io, unexpected_eof}
use evernode_se.Block.Ever.{EverBlock, IsEverBlock}

abbrev pub split_byte : Bytes → NodeResult (ℕ × Bytes)
split_byte [] = err (io unexpected_eof)
split_byte (b ∷ bs) = ok (b, bs)

abbrev pub first_byte : Bytes → NodeResult ℕ
first_byte [] = err (io unexpected_eof)
first_byte (b ∷ bs) = ok b

abbrev pub sample : EverBlock
sample = record {
  Cell = ℕ;
  Block = ℕ;
  State = ℕ;
  ShardIdent = ℤ;
  repr_hash = λ c. (c + 1000) % 256 ^ 32;
  write_boc = λ c. ok (c ∷ []);
  read_boc = split_byte;
  calc_file_hash = λ bs. 77;
  default_block = 0;
  set_block_global_id = λ g b. b;
  block_global_id = λ b. pos 0;
  serialize_block = ok;
  write_block = λ b. ok (b ∷ []);
  block_of_cell = ok;
  read_info =
      λ b. ok (record { seq_no = b; vert_seq_no = 0; start_lt = 10; end_lt = 20; gen_utime = 5 });
  state_update_new_hash = λ b. ok 1;
  default_state = 0;
  set_global_id = λ g s. s;
  set_shard = λ i s. s;
  state_seq_no = λ s. s;
  write_state = λ s. ok (s ∷ []);
  state_of_cell = ok;
  state_of_bytes = first_byte;
  out_msg_queue_is_empty = λ s. ok true;
}

sample-read :
    (b : ℕ) (bs rest : Bytes)
    → ok (b ∷ []) ≡ ok bs
    → (c : ℕ) × (split_byte (bs ++ rest) ≡ ok (c, rest)) × (◌≡◌ {A = NodeResult ℕ} (ok c) (ok b))
sample-read b [] rest h = cc
sample-read b (x ∷ []) rest h = (x, refl, cc)
sample-read b (x ∷ y ∷ bs) rest h = cc

pub sample-IsEverBlock : IsEverBlock sample
sample-IsEverBlock = record {
  repr_hash-lt = λ c. omega arith;
  calc_file_hash-lt = λ bs. omega arith;
  read-write_block = sample-read;
  read-write_state = sample-read;
}
