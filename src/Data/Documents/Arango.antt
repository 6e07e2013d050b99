-- ===== src/Data/Documents/Arango.antt =====
-- node/src/data/arango.rs: the documents go over a channel to a worker thread, which posts them to an
-- ArangoDB server and tries again until the server takes them. The server's answers are a list, one
-- for each request; where it ends, the worker waits.
pub mod Post
pub mod Worker
pub mod Clear
use Prim.Native.String.{◌++◌ as concat}
use evernode_se.Common.{
  ℕ, ◌*◌, ◌/◌, ◌≤◌, ◌<◌, min, String, Bool, true, false, ◌&&◌, ◌||◌, Option, none, some, List, [],
  ◌∷◌, ◌++◌, ltb, leb, if◌then◌else◌,
}
use evernode_se.Common.Assoc
use evernode_se.Common.Assoc.{Assoc}
use evernode_se.Common.Result.{NodeResult, ok, err, panic, ◌>>=◌, invalid_data}
use evernode_se.Common.Exec.{Exec}
use evernode_se.Data.Documents.{JsonLib, SerializedItem, DocumentsDb, string_key}

abbrev pub first_timeout : ℕ
first_timeout = 1000

abbrev pub max_timeout : ℕ
max_timeout = 20000

-- `TIMEOUT_BACKOFF_MULTIPLIER as u64`: the cast of 1.2 to an integer drops the fraction.
abbrev pub timeout_backoff_multiplier : ℕ
timeout_backoff_multiplier = 12 / 10

pub data ArangoOverwriteMode : Type 0 where
  ignore : ArangoOverwriteMode
  replace : ArangoOverwriteMode
  update : ArangoOverwriteMode

unfoldable pub as_str : ArangoOverwriteMode → String
as_str ignore = "ignore"
as_str replace = "replace"
as_str update = "update"

pub data ArangoRecord (V : Type 0) : Type 0 where
  block : SerializedItem V → ArangoRecord V
  transaction : SerializedItem V → ArangoRecord V
  account : SerializedItem V → ArangoRecord V
  message : SerializedItem V → ArangoRecord V

pub record ArangoHelperConfig : Type 0 where
  pub server : String
  pub database : String
  pub blocks_collection : String
  pub messages_collection : String
  pub transactions_collection : String
  pub accounts_collection : String

-- What `send` gives: no answer, or an answer with its status.
pub data Reply : Type 0 where
  no_answer : Reply
  status : ℕ → Reply

-- `is_server_error() || is_client_error()`
unfoldable pub is_error : ℕ → Bool
is_error code = (leb 500 code && ltb code 600) || (leb 400 code && ltb code 500)

-- A request: the address, the overwrite mode and the document.
pub record Request : Type 0 where
  pub url : String
  pub overwrite_mode : String
  pub doc : String

module _ (json : JsonLib) where
  open json use {Value, as_object, object, text, to_pretty}

  -- The member "id" is taken out, and the item's id becomes the member "_key".
  keyed : Option (Assoc String Value) → String → NodeResult String
  keyed (some map) id =
      ok (to_pretty (object (Assoc.insert (Assoc.remove map "id") "_key" (text id))))
  keyed none id = err (invalid_data "serialized item is not an object")

  unfoldable pub replace_key : SerializedItem Value → NodeResult String
  unfolding keyed
  replace_key item = keyed (as_object item.body) item.id

  unfoldable pub document_url : ArangoHelperConfig → String → String
  document_url config collection = concat "http://" (
      concat config.server
        (concat "/_db/" (concat config.database (concat "/_api/document/" collection))))

  -- The collection, the item and the mode of a record.
  unfoldable pub route :
      ArangoHelperConfig → ArangoRecord Value → String × SerializedItem Value × ArangoOverwriteMode
  route config (block item) = (config.blocks_collection, item, replace)
  route config (transaction item) = (config.transactions_collection, item, replace)
  route config (account item) = (config.accounts_collection, item, replace)
  route config (message item) = (config.messages_collection, item, update)

  -- The request that a record leads to, if its item is an object.
  unfoldable pub request_of : ArangoHelperConfig → ArangoRecord Value → NodeResult Request
  unfolding route replace_key document_url as_str
  request_of config r = do
    doc ← replace_key (route config r).1
    ok (record {
      url = document_url config (route config r).0;
      overwrite_mode = as_str (route config r).2;
      doc = doc;
    })

-- The handle: the records that the worker has not taken, whether its end of the channel is there, and
-- the flag that the worker sets.
pub record ArangoHelper (V : Type 0) : Type 0 where
  pub config : ArangoHelperConfig
  pub channel : List (ArangoRecord V)
  pub worker_lives : Bool
  pub delivery_problems : Bool

module _ {V : Type 0} where
  unfoldable pub from_config : NodeResult ArangoHelperConfig → NodeResult (ArangoHelper V)
  from_config parsed = do
    config ← parsed
    ok (record { config = config; channel = []; worker_lives = true; delivery_problems = false })

  -- A record that cannot be sent is only logged.
  unfoldable pub send : ArangoRecord V → Exec (ArangoHelper V) (Unit {0})
  send r h = (ok tt, if h.worker_lives then record h { channel = h.channel ++ r ∷ [] } else h)

  abbrev pub arango_db : DocumentsDb V (ArangoHelper V)
  arango_db = record {
    put_account = λ item. send (account item);
    put_block = λ item. send (block item);
    put_message = λ item. send (message item);
    put_transaction = λ item. send (transaction item);
    has_delivery_problems = λ h. h.delivery_problems;
  }
