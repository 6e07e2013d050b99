-- ===== src/Data/Fork.antt =====
-- node/src/data/fork_provider.rs: the provider of accounts and of the blockchain configuration from
-- the GraphQL endpoint of another network. The HTTP client, JSON, base64 and the libraries for blocks
-- are parameters; what the endpoint does between the requests is their state W.
pub mod Served
pub mod Failures
mod Examples
use evernode_se.Common.{ℕ, String, Option, none, some, List, [], ◌∷◌, ◌++◌}
use evernode_se.Common.Assoc.{Assoc}
use evernode_se.Common.Bytes.{Bytes}
use evernode_se.Common.Int.{ℤ}
use evernode_se.Common.Result.{
  NodeResult, NodeError, ok, err, fork_endpoint_fetch_error, LibResult, done, failed, map_err,
  ◌>>=◌,
}
use evernode_se.Common.Exec.{Exec, lift}
use evernode_se.Common.Exec
use evernode_se.Config.{ForkConfig}

-- A POST request.
pub record HttpRequest : Type 0 where
  pub url : String
  pub headers : Assoc String String
  pub body : String

pub record ForkLib (W Config : Type 0) : Type 1 where
  -- `RequestBuilder::send` and `Response::text`
  pub Response : Type 0
  pub send : HttpRequest → W → LibResult Response × W
  pub text_of : Response → W → LibResult String × W
  -- `serde_json::Value`, its constructors and its readers
  pub Value : Type 0
  pub null : Value
  pub text : String → Value
  pub object : Assoc String Value → Value
  pub to_string : Value → String
  pub from_str : String → LibResult Value
  pub get : Value → String → Option Value
  pub pointer : Value → String → Option Value
  pub as_str : Value → Option String
  -- ever_block and ever_executor
  pub Block : Type 0
  pub Extra : Type 0
  pub McExtra : Type 0
  pub Params : Type 0
  pub construct_from_base64 : String → LibResult Block
  pub read_extra : Block → LibResult Extra
  pub read_custom : Extra → LibResult (Option McExtra)
  pub config : McExtra → Option Params
  pub with_config : Params → LibResult Config
  pub global_id : Block → ℤ
  pub Address : Type 0
  pub address_text : Address → String
  pub base64_decode : String → LibResult Bytes
  pub Cell : Type 0
  pub read_single_root_boc : Bytes → LibResult Cell
  pub ShardAccount : Type 0
  -- the root cell, the last transaction's hash and its logical time
  pub with_account_root : Cell → ℕ → ℕ → ShardAccount

-- `client` has no state of its own here.
pub record ForkProvider : Type 0 where
  pub url : String
  pub secret : Option String

unfoldable pub new : ForkConfig → ForkProvider
new config = record { url = config.endpoint; secret = config.auth }

abbrev pub fetch_error : {A : Type 0} → LibResult A → NodeResult A
fetch_error r = map_err fork_endpoint_fetch_error r

abbrev pub and_then : {A B : Type 0} → LibResult A → (A → LibResult B) → LibResult B
and_then (done a) f = f a
and_then (failed e) f = failed e

-- `opt.ok_or_else(|| ..)`
abbrev pub found : {A : Type 0} → Option A → String → NodeResult A
found (some a) text = ok a
found none text = err (fork_endpoint_fetch_error text)

abbrev pub key_block_query : String
key_block_query = "query{blockchain{key_blocks(last:1){edges{node{boc}}}}}"

abbrev pub account_query : String
account_query = "query account($address:String!){blockchain{account(address:$address){info{boc}}}}"

abbrev pub key_block_pointer : String
key_block_pointer = "/data/blockchain/key_blocks/edges/0/node/boc"

abbrev pub account_pointer : String
account_pointer = "/data/blockchain/account/info/boc"

module _ {W Config : Type 0} (lib : ForkLib W Config) where
  open lib use {
    Value, Address, ShardAccount, null, text, object, to_string, from_str, get, pointer, as_str,
  }

  abbrev errors_in : Option Value → Value → Option Value
  errors_in (some payload) value = get payload "errors"
  errors_in none value = get value "errors"

  abbrev printed : Option Value → Option String
  printed (some e) = some (to_string e)
  printed none = none

  unfoldable pub try_extract_graphql_error : Value → Option String
  try_extract_graphql_error value = printed (errors_in (get value "payload") value)

  abbrev pub body_of : String → Value → Value
  body_of text_of_query variables =
      object (("query", text text_of_query) ∷ ("variables", variables) ∷ [])

  abbrev authorization : Option String → Assoc String String
  authorization (some secret) = ("Authorization", secret) ∷ []
  authorization none = []

  unfoldable pub request_for : ForkProvider → String → Value → HttpRequest
  request_for provider text_of_query variables = record {
    url = provider.url;
    headers = ("content-type", "application/json") ∷ authorization provider.secret;
    body = to_string (body_of text_of_query variables);
  }

  abbrev fetch : {A : Type 0} → (W → LibResult A × W) → Exec W A
  fetch act w = let (r, w') = act w in (fetch_error r, w')

  abbrev without_errors : Value → Option String → NodeResult Value
  without_errors response (some e) = err (fork_endpoint_fetch_error e)
  without_errors response none = ok response

  unfoldable pub read_response : String → NodeResult Value
  unfolding try_extract_graphql_error
  read_response body = do
    response ← fetch_error (from_str body)
    without_errors response (try_extract_graphql_error response)

  unfoldable pub query : ForkProvider → String → Value → Exec W Value
  unfolding request_for read_response
  query provider text_of_query variables =
      Exec.◌>>=◌ (fetch (lib.send (request_for provider text_of_query variables)))
        λ response. Exec.◌>>=◌ (fetch (lib.text_of response)) λ body. lift (read_response body)

  abbrev text_at : Value → String → Option String
  text_at value path = elim (pointer value path) [ none ↦ none | some v ↦ as_str v ]

  unfoldable pub config_of : Value → NodeResult (Config × ℤ)
  config_of response = do
    boc ← found (text_at response key_block_pointer) "No key block found"
    block ← fetch_error (lib.construct_from_base64 boc)
    custom ← fetch_error (and_then (lib.read_extra block) lib.read_custom)
    mc_extra ← found custom "Key block is not master block"
    params ← found (lib.config mc_extra) "Key block without config"
    config ← fetch_error (lib.with_config params)
    ok (config, lib.global_id block)

  unfoldable pub get_blockchain_config : ForkProvider → Exec W (Config × ℤ)
  unfolding query config_of
  get_blockchain_config provider =
      Exec.◌>>=◌ (query provider key_block_query null) λ response. lift (config_of response)

  unfoldable pub account_from : Option String → NodeResult (Option ShardAccount)
  account_from none = ok none
  account_from (some boc) = do
    bytes ← fetch_error (lib.base64_decode boc)
    cell ← fetch_error (lib.read_single_root_boc bytes)
    ok (some (lib.with_account_root cell 0 0))

  unfoldable pub get_account : ForkProvider → Address → Exec W (Option ShardAccount)
  unfolding query account_from
  get_account provider address =
      Exec.◌>>=◌
        (query provider account_query (object (("address", text (lib.address_text address)) ∷ [])))
        λ response. lift (account_from (text_at response account_pointer))
