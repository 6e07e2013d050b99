-- ===== src/Data/Documents/Examples.antt =====
-- Tests of the databases over a small JSON: an object prints as its size, and the number 0 is no
-- object.
use evernode_se.Common.{
  ℕ, suc, ◌≡◌, refl, String, true, false, none, some, List, [], ◌∷◌, ◌++◌, arith, ◌==◌, map, length,
  All, ◌↔◌, if◌then◌else◌,
}
use evernode_se.Common.Assoc
use evernode_se.Common.Assoc.{Assoc}
use evernode_se.Common.Result.{ok}
use evernode_se.Block.Sample.{sample}
use evernode_se.Block.ShardBlock.{Traces, ShardBlock}
use evernode_se.Data.Documents
use evernode_se.Data.Documents.{
  JsonLib, SerializedItem, Put, account, block, message, transaction, put_all, string_key,
}
use evernode_se.Data.Documents.Mem.{
  MemDocumentsDb, new, mem_db, account_after, put_all-documents, put_account, put_block,
  put_message, put_transaction,
}
use evernode_se.Data.Documents.Arango.{
  ArangoHelperConfig, ArangoHelper, Reply, no_answer, status, arango_db, first_timeout, is_error,
}
use evernode_se.Data.Documents.Arango.Post.{
  is_success, post_loop, post_to_arango, post_to_arango-sleeps,
}
use evernode_se.Data.Documents.Arango.Worker.{
  requests, record_of, put_records_worker, put_all-delivered, put_all-in_order,
}
use evernode_se.Data.Documents.Arango.Clear.{clear_db, clear_db_lem, until_failure, address}
use evernode_se.Data.Documents.Reflect.{
  ParsedEntry, ParsedBlock, ParserLib, reflect_block_in_db, reflect_block_in_db_lem, Reflected,
  puts,
}

abbrev json : JsonLib
json = record {
  Value = ℕ;
  as_object = λ v. if v == 0 then none else some [];
  object = λ m. suc (length m);
  text = λ s. 7;
  to_pretty = λ v. "{}";
}

abbrev item : ℕ → SerializedItem ℕ
item v = record { id = "a"; body = v }

abbrev calls : List (Put ℕ)
calls = block (item 3) ∷ account (item 4) ∷ transaction (item 0) ∷ account (item 5) ∷ []

put_all-documents_example :
    ((put_all mem_db calls new).blocks ≡ [] ++ 3 ∷ [])
    × ((put_all mem_db calls new).messages ≡ [] ++ [])
    × ((put_all mem_db calls new).transactions ≡ [] ++ 0 ∷ [])
    × ((id : String)
        → Assoc.get (put_all mem_db calls new).accounts id
          ≡ account_after id (Assoc.get [] id) calls)
unfolding new
put_all-documents_example = put_all-documents calls new

abbrev config : ArangoHelperConfig
config = record {
  server = "s";
  database = "d";
  blocks_collection = "blocks";
  messages_collection = "messages";
  transactions_collection = "transactions";
  accounts_collection = "accounts";
}

abbrev handle : ArangoHelper ℕ
handle = record { config = config; channel = []; worker_lives = true; delivery_problems = false }

-- The server fails, refuses, and then takes everything.
abbrev answers : List Reply
answers =
    no_answer ∷ status 503 ∷ status 201 ∷ status 202 ∷ status 404 ∷ status 200 ∷ status 200 ∷ []

post_to_arango-sleeps_example : All (λ t. t ≡ first_timeout) (post_to_arango false answers).sleeps
post_to_arango-sleeps_example = post_to_arango-sleeps false answers

sleeps : (post_to_arango false answers).sleeps ≡ 1000 ∷ 1000 ∷ []
unfolding post_to_arango post_loop is_success is_error
sleeps = refl

put_all-delivered_example :
    let d = put_records_worker json config (put_all arango_db calls handle).channel false answers in
    (d.delivered ≡ requests json config (map record_of calls))
    × (d.left ≡ [])
    × (d.problems ≡ false)
unfolding is_success is_error
put_all-delivered_example =
    put_all-delivered json config calls handle answers refl refl (omega arith)

put_all-in_order_example :
    (put_records_worker json config (put_all arango_db calls handle).channel false []).delivered
      ++ requests json config
          (put_records_worker json config (put_all arango_db calls handle).channel false []).left
    ≡ requests json config (map record_of calls)
put_all-in_order_example = put_all-in_order json config calls handle [] refl refl

abbrev reply : String → Reply
reply url = status 200

clear_db_lem_example :
    let (r, sent) = clear_db config reply (λ c r. c) in
    let at = address config reply (λ c r. c) in
    ((r ≡ ok tt) ↔ (
      (is_success (reply (at config.accounts_collection)) ≡ true)
      × (is_success (reply (at config.blocks_collection)) ≡ true)
      × (is_success (reply (at config.messages_collection)) ≡ true)
      × (is_success (reply (at config.transactions_collection)) ≡ true)))
    × (sent
        ≡ until_failure reply (
            at config.accounts_collection
            ∷ at config.blocks_collection
            ∷ at config.messages_collection
            ∷ at config.transactions_collection
            ∷ []))
clear_db_lem_example = clear_db_lem config reply (λ c r. c)

abbrev entry : String → ParsedEntry ℕ
entry id = record { id = id; body = ("id", 1) ∷ [] }

abbrev parsed : ParsedBlock ℕ
parsed = record {
  block = some (entry "b");
  accounts = [];
  transactions = entry "t" ∷ entry "u" ∷ [];
  messages = entry "m" ∷ [];
}

abbrev parser : ParserLib sample json
parser = record {
  parse = λ mc sb. ok parsed;
  hash_from_str = λ id. ok 7;
  traces_to_value = λ ts. ok 9;
}

abbrev finalized_block : ShardBlock sample
finalized_block = record {
  seq_no = 1;
  serialized_block = [];
  root_hash = 1;
  file_hash = 1;
  block = 1;
  shard_state = 1;
  transaction_traces = (7, []) ∷ [];
}

mem_takes : (q : Put ℕ) (d : MemDocumentsDb ℕ) → (Documents.put mem_db q d).0 ≡ ok tt
unfolding put_account put_block put_message put_transaction
mem_takes (account i) d = refl
mem_takes (block i) d = refl
mem_takes (message i) d = refl
mem_takes (transaction i) d = refl

reflect_block_in_db_lem_example :
    (qs : List (Put ℕ)) × (left : Traces) × Reflected sample json parser parsed.transactions
      ((7, []) ∷ [])
      qs
      left
    × (reflect_block_in_db sample json parser mem_db 5 finalized_block new ≡ (
      ok tt,
      (
        left,
        put_all mem_db
            (puts sample json parser block (entry "b" ∷ [])
              ++ (puts sample json parser account []
                  ++ (qs ++ puts sample json parser message (entry "m" ∷ []))))
            new,
      ),
    ))
reflect_block_in_db_lem_example =
    reflect_block_in_db_lem sample json parser mem_db mem_takes (λ t. (9, refl)) 5 finalized_block
      new parsed refl (((7, refl), ((7, refl), tt)))
