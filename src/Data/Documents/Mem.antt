-- ===== src/Data/Documents/Mem.antt =====
-- node/src/data/mem_documents_db.rs: the documents in memory, and node/src/data/documents_db_mock.rs.
use evernode_se.Common.{
  String, ◌≡◌, refl, ap, sym, ◌∙◌, false, Option, some, List, [], ◌∷◌, ◌++◌, if◌then◌else◌,
}
use evernode_se.Common.Assoc
use evernode_se.Common.Assoc.{Assoc, eqb, get-insert}
use evernode_se.Common.Result.{ok}
use evernode_se.Common.Exec.{Exec}
use evernode_se.Data.Documents.{
  SerializedItem, DocumentsDb, Put, account, block, message, transaction, put_all, string_key,
}
use mathlib.Core.List.{append_assoc, append-nil}

pub record MemDocumentsDb (V : Type 0) : Type 0 where
  pub accounts : Assoc String V
  pub blocks : List V
  pub transactions : List V
  pub messages : List V

module _ {V : Type 0} where
  unfoldable pub new : MemDocumentsDb V
  new = record { accounts = []; blocks = []; transactions = []; messages = [] }

  unfoldable pub put_account : SerializedItem V → Exec (MemDocumentsDb V) (Unit {0})
  put_account acc d = (ok tt, record d { accounts = Assoc.insert d.accounts acc.id acc.body })

  unfoldable pub put_block : SerializedItem V → Exec (MemDocumentsDb V) (Unit {0})
  put_block item d = (ok tt, record d { blocks = d.blocks ++ item.body ∷ [] })

  unfoldable pub put_message : SerializedItem V → Exec (MemDocumentsDb V) (Unit {0})
  put_message item d = (ok tt, record d { messages = d.messages ++ item.body ∷ [] })

  unfoldable pub put_transaction : SerializedItem V → Exec (MemDocumentsDb V) (Unit {0})
  put_transaction item d = (ok tt, record d { transactions = d.transactions ++ item.body ∷ [] })

  abbrev pub mem_db : DocumentsDb V (MemDocumentsDb V)
  mem_db = record {
    put_account = put_account;
    put_block = put_block;
    put_message = put_message;
    put_transaction = put_transaction;
    has_delivery_problems = λ d. false;
  }

  -- `DocumentsDbMock`: it keeps nothing.
  abbrev pub mock_db : DocumentsDb V (Unit {0})
  mock_db = record {
    put_account = λ item d. (ok tt, d);
    put_block = λ item d. (ok tt, d);
    put_message = λ item d. (ok tt, d);
    put_transaction = λ item d. (ok tt, d);
    has_delivery_problems = λ d. false;
  }

  -- What a list of calls puts of each kind, in order.
  abbrev pub blocks_of : List (Put V) → List V
  blocks_of [] = []
  blocks_of (block item ∷ ps) = item.body ∷ blocks_of ps
  blocks_of (account item ∷ ps) = blocks_of ps
  blocks_of (message item ∷ ps) = blocks_of ps
  blocks_of (transaction item ∷ ps) = blocks_of ps

  abbrev pub messages_of : List (Put V) → List V
  messages_of [] = []
  messages_of (message item ∷ ps) = item.body ∷ messages_of ps
  messages_of (account item ∷ ps) = messages_of ps
  messages_of (block item ∷ ps) = messages_of ps
  messages_of (transaction item ∷ ps) = messages_of ps

  abbrev pub transactions_of : List (Put V) → List V
  transactions_of [] = []
  transactions_of (transaction item ∷ ps) = item.body ∷ transactions_of ps
  transactions_of (account item ∷ ps) = transactions_of ps
  transactions_of (block item ∷ ps) = transactions_of ps
  transactions_of (message item ∷ ps) = transactions_of ps

  -- The last account that is put under an id, else what was there.
  abbrev pub account_after : String → Option V → List (Put V) → Option V
  account_after id v [] = v
  account_after id v (account item ∷ ps) =
      account_after id (if eqb item.id id then some item.body else v) ps
  account_after id v (block item ∷ ps) = account_after id v ps
  account_after id v (message item ∷ ps) = account_after id v ps
  account_after id v (transaction item ∷ ps) = account_after id v ps

  -- After any calls the database holds the blocks, the messages and the transactions that were put, in
  -- the order of the calls, behind those that were there, and for each id the last account put.
  pub put_all-documents :
      (ps : List (Put V)) (d : MemDocumentsDb V)
      → ((put_all mem_db ps d).blocks ≡ d.blocks ++ blocks_of ps)
        × ((put_all mem_db ps d).messages ≡ d.messages ++ messages_of ps)
        × ((put_all mem_db ps d).transactions ≡ d.transactions ++ transactions_of ps)
        × ((id : String)
            → Assoc.get (put_all mem_db ps d).accounts id
              ≡ account_after id (Assoc.get d.accounts id) ps)
  unfolding put_account put_block put_message put_transaction
  put_all-documents [] d = (
    sym (append-nil d.blocks),
    sym (append-nil d.messages),
    sym (append-nil d.transactions),
    λ id. refl,
  )
  put_all-documents (account item ∷ ps) d =
      let (b, m, t, a) = put_all-documents ps (put_account item d).1 in
      (
        b,
        m,
        t,
        λ id. a id ∙ ap (λ v. account_after id v ps) (get-insert d.accounts item.id id item.body),
      )
  put_all-documents (block item ∷ ps) d =
      let (b, m, t, a) = put_all-documents ps (put_block item d).1 in
      (b ∙ append_assoc d.blocks (item.body ∷ []) (blocks_of ps), m, t, a)
  put_all-documents (message item ∷ ps) d =
      let (b, m, t, a) = put_all-documents ps (put_message item d).1 in
      (b, m ∙ append_assoc d.messages (item.body ∷ []) (messages_of ps), t, a)
  put_all-documents (transaction item ∷ ps) d =
      let (b, m, t, a) = put_all-documents ps (put_transaction item d).1 in
      (b, m, t ∙ append_assoc d.transactions (item.body ∷ []) (transactions_of ps), a)
