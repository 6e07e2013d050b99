-- ===== src/Engine/Shardchain/Linked/Sample.antt =====
-- A small library whose blocks keep their headers, for tests. A cell is a number or a header.
use evernode_se.Common.{
  ℕ, zero, suc, ◌+◌, ◌%◌, ◌^◌, ◌≡◌, refl, sym, ap, subst, true, [], ◌∷◌, ◌++◌, arith,
}
use evernode_se.Common.Int.{ℤ, pos}
use evernode_se.Common.Bytes.{Bytes}
use evernode_se.Common.Result.{NodeResult, ok, err, io, unexpected_eof, ok-injective}
use evernode_se.Block.Ever.{EverBlock, IsEverBlock}
use evernode_se.Block.Executor.{ExecLib}
use evernode_se.Block.Finality.{BlkPrevInfo}
use evernode_se.Block.Builder.SampleExec.{exec_over}
use evernode_se.Block.Builder.Header.{IsHeaderLib}

pub record Headed : Type 0 where
  pub seq_no : ℕ
  pub start_lt : ℕ
  pub end_lt : ℕ
  pub gen_utime : ℕ
  pub prev : BlkPrevInfo

pub data Cell : Type 0 where
  number : ℕ → Cell
  headed : Headed → Cell

abbrev pub number_of : Cell → ℕ
number_of (number n) = n
number_of (headed h) = h.seq_no

abbrev pub bytes_of : Cell → Bytes
bytes_of (number n) = 0 ∷ n ∷ []
bytes_of (headed h) =
    1 ∷ h.seq_no ∷ h.start_lt ∷ h.end_lt ∷ h.gen_utime ∷ h.prev.end_lt ∷ h.prev.seq_no
    ∷ h.prev.root_hash ∷ h.prev.file_hash ∷ []

abbrev pub read_cell : Bytes → NodeResult (Cell × Bytes)
read_cell (zero ∷ n ∷ rest) = ok (number n, rest)
read_cell (suc tag ∷ a ∷ b ∷ c ∷ d ∷ f ∷ g ∷ h ∷ i ∷ rest) = ok (
  headed (record {
    seq_no = a;
    start_lt = b;
    end_lt = c;
    gen_utime = d;
    prev = record { end_lt = f; seq_no = g; root_hash = h; file_hash = i };
  }),
  rest,
)
read_cell _ = err (io unexpected_eof)

abbrev pub header_of : Cell → NodeResult Headed
header_of (headed h) = ok h
header_of (number n) = err (io unexpected_eof)

abbrev pub state_of : Cell → NodeResult ℕ
state_of (number n) = ok n
state_of (headed h) = err (io unexpected_eof)

abbrev pub first_state : Bytes → NodeResult ℕ
first_state (zero ∷ n ∷ rest) = ok n
first_state _ = err (io unexpected_eof)

abbrev pub linked : EverBlock
linked = record {
  Cell = Cell;
  Block = Headed;
  State = ℕ;
  ShardIdent = ℤ;
  repr_hash = λ c. (number_of c + 1000) % 256 ^ 32;
  write_boc = λ c. ok (bytes_of c);
  read_boc = read_cell;
  calc_file_hash = λ bs. 77;
  default_block = record {
    seq_no = 0;
    start_lt = 0;
    end_lt = 0;
    gen_utime = 0;
    prev = record { end_lt = 0; seq_no = 0; root_hash = 0; file_hash = 0 };
  };
  set_block_global_id = λ g b. b;
  block_global_id = λ b. pos 0;
  serialize_block = λ b. ok (headed b);
  write_block = λ b. ok (bytes_of (headed b));
  block_of_cell = header_of;
  read_info = λ b. ok (record {
    seq_no = b.seq_no;
    vert_seq_no = 0;
    start_lt = b.start_lt;
    end_lt = b.end_lt;
    gen_utime = b.gen_utime;
  });
  state_update_new_hash = λ b. ok 1;
  default_state = 0;
  set_global_id = λ g s. s;
  set_shard = λ i s. s;
  state_seq_no = λ s. s;
  write_state = λ s. ok (bytes_of (number s));
  state_of_cell = state_of;
  state_of_bytes = first_state;
  out_msg_queue_is_empty = λ s. ok true;
}

pub linked-IsEverBlock : IsEverBlock linked
linked-IsEverBlock = record {
  repr_hash-lt = λ c. omega arith;
  calc_file_hash-lt = λ bs. omega arith;
  read-write_block = λ b bs rest h.
      subst (λ bs. (c : Cell) × (read_cell (bs ++ rest) ≡ ok (c, rest)) × (header_of c ≡ ok b))
        (ok-injective h) (headed b, refl, refl);
  read-write_state = λ s bs rest h.
      subst (λ bs. (c : Cell) × (read_cell (bs ++ rest) ≡ ok (c, rest)) × (state_of c ≡ ok s))
        (ok-injective h) (number s, refl, refl);
}

abbrev pub linked_exec : ExecLib linked
linked_exec =
    exec_over linked number number_of (pos 0) (λ n s. n)
      λ i. record {
        seq_no = i.seq_no;
        start_lt = i.start_lt;
        end_lt = i.end_lt;
        gen_utime = i.gen_utime;
        prev = i.prev_ref;
      }

abbrev pub prev_of : Headed → BlkPrevInfo
prev_of h = h.prev

pub linked-IsHeaderLib : IsHeaderLib linked linked_exec prev_of
linked-IsHeaderLib = record {
  seq_no-set_seq_no = λ n s. refl;
  seq_no-write_accounts = λ a s s' h. sym (ok-injective h);
  seq_no-write_out_msg_queue = λ q s s' h. sym (ok-injective h);
  header-block_with_params = λ s info flow ins outs accounts seed block h.
      (ap (linked.read_info) (sym (ok-injective h)), ap prev_of (sym (ok-injective h)));
}
