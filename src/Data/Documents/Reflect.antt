-- ===== src/Data/Documents/Reflect.antt =====
-- node/src/block/json.rs: the documents of a finalized block are put into the database. The parser of
-- the library ever_block_json and the forms of hashes and traces in JSON are parameters.
use evernode_se.Common.{
  ℕ, ◌≡◌, refl, ap, sym, ◌∙◌, String, false, Option, none, some, List, [], ◌∷◌, ◌++◌,
}
use evernode_se.Common.Assoc
use evernode_se.Common.Assoc.{Assoc, ℕ_key, eqb, get-insert}
use evernode_se.Common.Result.{NodeResult, ok, err, panic}
use evernode_se.Common.Exec.{Exec, lift, continue, ◌>>=◌, ◌>>◌}
use evernode_se.Block.Ever.{EverBlock}
use evernode_se.Block.ShardBlock.{EngineTraceInfoData, ShardBlock, Traces}
use evernode_se.Data.Documents.{
  JsonLib, SerializedItem, DocumentsDb, Put, account, block, message, transaction, put, put_all,
  string_key,
}

-- `ParsedEntry` and `ParsedBlock`
pub record ParsedEntry (V : Type 0) : Type 0 where
  pub id : String
  pub body : Assoc String V

pub record ParsedBlock (V : Type 0) : Type 0 where
  pub block : Option (ParsedEntry V)
  pub accounts : List (ParsedEntry V)
  pub transactions : List (ParsedEntry V)
  pub messages : List (ParsedEntry V)

pub record ParserLib (e : EverBlock) (json : JsonLib) : Type 0 where
  -- the reads of the block's cells and `parser.parse`
  pub parse : ℕ → ShardBlock e → NodeResult (ParsedBlock json.Value)
  pub hash_from_str : String → NodeResult ℕ
  pub traces_to_value : List EngineTraceInfoData → NodeResult json.Value

module _ (e : EverBlock) (json : JsonLib) (p : ParserLib e json) where
  open json use {Value, object}

  unfoldable pub serialize_entry : ParsedEntry Value → SerializedItem Value
  serialize_entry entry = record { id = entry.id; body = object entry.body }

  -- A transaction's entry with its trace, and the traces without it.
  unfoldable pub with_trace :
      Option (List EngineTraceInfoData) → ParsedEntry Value → NodeResult (ParsedEntry Value)
  with_trace none tr = ok tr
  with_trace (some trace) tr = elim (p.traces_to_value trace) [
    | ok v ↦ ok (record tr { body = Assoc.insert tr.body "trace" v })
    | err error ↦ err error
    | panic ↦ panic
  ]

  module _ {D : Type 0} (db : DocumentsDb Value D) where
    unfoldable pub put_entries :
        (SerializedItem Value → Put Value) → List (ParsedEntry Value) → Exec D (Unit {0})
    put_entries kind [] d = (ok tt, d)
    put_entries kind (entry ∷ entries) d =
        continue (put db (kind (serialize_entry entry)) d).0 (λ _. put_entries kind entries)
          (put db (kind (serialize_entry entry)) d).1

    unfoldable pub put_transactions : List (ParsedEntry Value) → Exec (Traces × D) (Unit {0})
    put_transactions [] s = (ok tt, s)
    put_transactions (tr ∷ trs) s =
        (do
          hash ← lift (p.hash_from_str tr.id)
          tr' ← (λ s'. (with_trace (Assoc.get s'.0 hash) tr, (Assoc.remove s'.0 hash, s'.1)))
          (λ s'. let (r, d) = put db (transaction (serialize_entry tr')) s'.1 in (r, (s'.0, d)))
          put_transactions trs)
          s

    -- An action on the database beside the traces.
    abbrev on_db : Exec D (Unit {0}) → Exec (Traces × D) (Unit {0})
    on_db m s = let (r, d) = m s.1 in (r, (s.0, d))

    abbrev pub of_option : Option (ParsedEntry Value) → List (ParsedEntry Value)
    of_option none = []
    of_option (some entry) = entry ∷ []

    -- The traces that are left in the block come back beside the database.
    unfoldable pub reflect_block_in_db : ℕ → ShardBlock e → D → NodeResult (Unit {0}) × (Traces × D)
    reflect_block_in_db mc_seq_no sb d =
        (do
          parsed ← lift (p.parse mc_seq_no sb)
          on_db (put_entries block (of_option parsed.block))
          on_db (put_entries account parsed.accounts)
          put_transactions parsed.transactions
          on_db (put_entries message parsed.messages))
          (sb.transaction_traces, d)

  -- What is put for the transactions with these traces, and which traces are left. A transaction's
  -- trace is the one under the hash that its identifier names, and leaves the map. The document has the
  -- transaction's identifier; with a trace its object has the trace's value as the member "trace", and
  -- all other members are the transaction's own.
  pub data Reflected : List (ParsedEntry Value) → Traces → List (Put Value) → Traces → Type 0 where
    no_more : (traces : Traces) → Reflected [] traces [] traces
    untraced :
        (tr : ParsedEntry Value) (hash : ℕ) {trs : List (ParsedEntry Value)} {traces left : Traces}
        {qs : List (Put Value)}
        → p.hash_from_str tr.id ≡ ok hash
        → Assoc.get traces hash ≡ none
        → Reflected trs (Assoc.remove traces hash) qs left
        → Reflected
            (tr ∷ trs)
            traces
            (transaction (record { id = tr.id; body = object tr.body }) ∷ qs)
            left
    traced :
        (tr : ParsedEntry Value) (hash : ℕ) (trace : List EngineTraceInfoData) (value : Value)
        (members : Assoc String Value) {trs : List (ParsedEntry Value)} {traces left : Traces}
        {qs : List (Put Value)}
        → p.hash_from_str tr.id ≡ ok hash
        → Assoc.get traces hash ≡ some trace
        → p.traces_to_value trace ≡ ok value
        → Assoc.get members "trace" ≡ some value
        → ((k : String) → eqb "trace" k ≡ false → Assoc.get members k ≡ Assoc.get tr.body k)
        → Reflected trs (Assoc.remove traces hash) qs left
        → Reflected
            (tr ∷ trs)
            traces
            (transaction (record { id = tr.id; body = object members }) ∷ qs)
            left

  -- The identifiers are hashes.
  abbrev pub Readable : List (ParsedEntry Value) → Type 0
  Readable [] = Unit
  Readable (tr ∷ trs) = ((hash : ℕ) × (p.hash_from_str tr.id ≡ ok hash)) × Readable trs

  -- A put of each entry: its identifier and the object of its members.
  abbrev pub puts : (SerializedItem Value → Put Value) → List (ParsedEntry Value) → List (Put Value)
  puts kind [] = []
  puts kind (entry ∷ entries) =
      kind (record { id = entry.id; body = object entry.body }) ∷ puts kind entries

  with_trace-told :
      (tr : ParsedEntry Value) (trace : List EngineTraceInfoData) (value : Value)
      → p.traces_to_value trace ≡ ok value
      → with_trace (some trace) tr ≡ ok (record tr { body = Assoc.insert tr.body "trace" value })
  unfolding with_trace
  with_trace-told tr trace value told = rw (with_trace, told) refl

  module _ {D : Type 0} (db : DocumentsDb Value D)
      (takes : (q : Put Value) (d : D) → (put db q d).0 ≡ ok tt) where
    put_entries-puts :
        (kind : SerializedItem Value → Put Value) (entries : List (ParsedEntry Value)) (d : D)
        → put_entries db kind entries d ≡ (ok tt, put_all db (puts kind entries) d)
    unfolding put_entries serialize_entry
    put_entries-puts kind [] d = refl
    put_entries-puts kind (entry ∷ entries) d =
        rw (takes (kind (record { id = entry.id; body = object entry.body })) d) (
          put_entries-puts kind entries
            (put db (kind (record { id = entry.id; body = object entry.body })) d).1)

    module _
        (tells : (t : List EngineTraceInfoData)
          → (value : Value) × (p.traces_to_value t ≡ ok value)) where
      abbrev Puts : List (ParsedEntry Value) → Traces → D → Type 0
      Puts trs traces d =
          (qs : List (Put Value)) × (left : Traces) × Reflected trs traces qs left
          × (put_transactions db trs (traces, d) ≡ (ok tt, (left, put_all db qs d)))

      put_transactions-Reflected :
          (trs : List (ParsedEntry Value)) (traces : Traces) (d : D)
          → Readable trs
          → Puts trs traces d
      unfolding put_transactions with_trace serialize_entry
      put_transactions-Reflected [] traces d h = ([], traces, no_more traces, refl)
      put_transactions-Reflected (entry ∷ trs) traces d ((hash, eh), h) =
          go (Assoc.get traces hash) refl
            λ d'. put_transactions-Reflected trs (Assoc.remove traces hash) d' h
        where
          go :
              (o : Option (List EngineTraceInfoData))
              → Assoc.get traces hash ≡ o
              → ((d' : D) → Puts trs (Assoc.remove traces hash) d')
              → Puts (entry ∷ trs) traces d
          go none looked rest =
              let q : Put Value =
                transaction (record { id = entry.id; body = object entry.body }) in
              let (qs, left, is, run) = rest (put db q d).1 in
              (q ∷ qs, left, untraced entry hash eh looked is, rw (eh, looked, takes q d) run)
          go (some trace) looked rest =
              let (value, told) = tells trace in
              let members : Assoc String Value = Assoc.insert entry.body "trace" value in
              let q : Put Value = transaction (record { id = entry.id; body = object members }) in
              let (qs, left, is, run) = rest (put db q d).1 in
              (
                q ∷ qs,
                left,
                traced entry hash trace value members eh looked told
                    (get-insert entry.body "trace" "trace" value)
                    (λ k other. get-insert entry.body "trace" k value ∙ rw other refl) is,
                rw (eh, looked, with_trace-told entry trace value told, takes q d) run,
              )

      put_all-append :
          (ps qs : List (Put Value)) (d : D)
          → put_all db (ps ++ qs) d ≡ put_all db qs (put_all db ps d)
      put_all-append [] qs d = refl
      put_all-append (q ∷ ps) qs d = put_all-append ps qs (put db q d).1

      -- If the block parses and its transactions' identifiers are hashes, the call succeeds and is the
      -- puts of the block, the accounts, the transactions and the messages, in this order. Each
      -- transaction carries the trace under its hash, and the traces of no transaction are left. That
      -- each list of traces has a value in JSON and that puts always succeed is assumed.
      pub reflect_block_in_db_lem :
          (mc_seq_no : ℕ) (sb : ShardBlock e) (d : D) (parsed : ParsedBlock Value)
          → p.parse mc_seq_no sb ≡ ok parsed
          → Readable parsed.transactions
          → (qs : List (Put Value)) × (left : Traces) × Reflected parsed.transactions
              sb.transaction_traces qs left
            × (reflect_block_in_db db mc_seq_no sb d ≡ (
              ok tt,
              (
                left,
                put_all db
                    (puts block (of_option db parsed.block)
                      ++ (puts account parsed.accounts ++ (qs ++ puts message parsed.messages)))
                    d,
              ),
            ))
      unfolding reflect_block_in_db
      reflect_block_in_db_lem mc_seq_no sb d parsed parses h =
          let d1 : D = put_all db (puts block (of_option db parsed.block)) d in
          let d2 : D = put_all db (puts account parsed.accounts) d1 in
          let (qs, left, is, run) =
            put_transactions-Reflected parsed.transactions sb.transaction_traces d2 h in
          (
            qs,
            left,
            is,
            rw
                (
                  parses,
                  put_entries-puts block (of_option db parsed.block) d,
                  put_entries-puts account parsed.accounts d1,
                  run,
                  put_entries-puts message parsed.messages (put_all db qs d2),
                )
                (ap (λ z. (ok tt, (left, z)))
                  (sym (
                    put_all-append (puts block (of_option db parsed.block)) _ d
                    ∙ (put_all-append (puts account parsed.accounts) _ d1
                        ∙ put_all-append qs (puts message parsed.messages) d2)))),
          )
