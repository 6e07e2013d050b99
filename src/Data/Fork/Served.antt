-- ===== src/Data/Fork/Served.antt =====
-- What the provider gets from an endpoint that serves the accounts of a network, and how it fails.
use evernode_se.Common.{◌≡◌, refl, ap, ◌∙◌, String, Option, none, some, [], ◌∷◌}
use mathlib.Core.Option.{map as map_option}
use evernode_se.Common.Assoc.{Assoc, eqb, eqb_refl}
use evernode_se.Common.Assoc
use evernode_se.Common.Bytes.{Bytes}
use evernode_se.Common.Result.{ok, done}
use evernode_se.Common.Exec.{Exec, lift}
use evernode_se.Common.Exec
use evernode_se.Config.{ForkConfig}
use evernode_se.Data.Documents.{string_key}
use evernode_se.Data.Fork.{
  ForkLib, HttpRequest, ForkProvider, new, account_query, account_pointer, body_of, read_response,
  try_extract_graphql_error, query, request_for, get_account, account_from, text_at,
}

module _ {W Config : Type 0} (lib : ForkLib W Config) where
  open lib use {
    Value, Address, ShardAccount, Cell, null, text, object, to_string, from_str, get, pointer,
    as_str,
  }

  abbrev member : String → Value → Value
  member key value = object ((key, value) ∷ [])

  abbrev boc_value : Option String → Value
  boc_value none = null
  boc_value (some boc) = text boc

  -- The answer for an account with this boc, if there is one.
  abbrev pub account_reply : Option String → Value
  account_reply boc =
      member "data"
        (member "blockchain" (member "account" (member "info" (member "boc" (boc_value boc)))))

  -- Documented behaviour of serde_json's values.
  pub record IsJson : Type 0 where
    pub get-object : (m : Assoc String Value) (key : String) → get (object m) key ≡ Assoc.get m key
    pub as_str-text : (s : String) → as_str (text s) ≡ some s
    pub as_str-null : as_str null ≡ none
    pub pointer-account :
        (a b c d e : Value)
        → get a "data" ≡ some b
        → get b "blockchain" ≡ some c
        → get c "account" ≡ some d
        → get d "info" ≡ some e
        → pointer a account_pointer ≡ get e "boc"

  -- An endpoint for the accounts of a network, each under its address, as its root cell. It answers a
  -- request with the right authorization whose body asks for an account.
  pub record IsEndpoint (config : ForkConfig) (accounts : String → Option Cell)
      (boc : Cell → String) : Type 0 where
    pub answers :
        (r : HttpRequest) (v vars : Value) (address : String) (w : W)
        → r.url ≡ config.endpoint
        → Assoc.get r.headers "Authorization" ≡ config.auth
        → from_str r.body ≡ done v
        → get v "query" ≡ some (text account_query)
        → get v "variables" ≡ some vars
        → get vars "address" ≡ some (text address)
        → (response : lib.Response) × (body : String) × (w1 w2 : W) × (lib.send r w
            ≡ (done response, w1))
          × (lib.text_of response w1 ≡ (done body, w2))
          × (from_str body ≡ done (account_reply (map_option boc (accounts address))))
    pub boc-reads :
        (cell : Cell)
        → (bytes : Bytes) × (lib.base64_decode (boc cell) ≡ done bytes)
          × (lib.read_single_root_boc bytes ≡ done cell)

  abbrev variables_of : Address → Value
  variables_of address = member "address" (text (lib.address_text address))

  abbrev pub account_request : Address → Value
  account_request address = body_of lib account_query (variables_of address)

  -- The header of the provider's requests is that of its configuration.
  request-authorization :
      (url : String) (auth : Option String) (text_of_query : String) (variables : Value)
      → Assoc.get
          (request_for lib
            (new (record { endpoint = url; auth = auth }))
            text_of_query
            variables).headers
          "Authorization"
        ≡ auth
  unfolding request_for new Assoc.get
  request-authorization url none text_of_query variables = refl
  request-authorization url (some secret) text_of_query variables = refl

  get-member : IsJson → (key : String) (value : Value) → get (member key value) key ≡ some value
  unfolding Assoc.get
  get-member json key value = rw (json.get-object, eqb_refl key) refl

  as_str-boc_value : IsJson → (boc : Option String) → as_str (boc_value boc) ≡ boc
  as_str-boc_value json none = json.as_str-null
  as_str-boc_value json (some boc) = json.as_str-text boc

  account_reply-text :
      IsJson → (boc : Option String) → text_at lib (account_reply boc) account_pointer ≡ boc
  account_reply-text json boc =
      let found : pointer (account_reply boc) account_pointer ≡ some (boc_value boc) =
        json.pointer-account _ _ _ _ _ (get-member json _ _) (get-member json _ _)
          (get-member json _ _) (get-member json _ _)
        ∙ get-member json _ _ in
      rw (text_at, found) (as_str-boc_value json boc)

  account_reply-errors :
      IsJson → (boc : Option String) → try_extract_graphql_error lib (account_reply boc) ≡ none
  unfolding try_extract_graphql_error Assoc.get
  account_reply-errors json boc = simp (json.get-object) refl

  read-account_reply :
      IsJson
      → (body : String) (boc : Option String) → from_str body ≡ done (account_reply boc)
      → read_response lib body ≡ ok (account_reply boc)
  unfolding read_response
  read-account_reply json body boc parsed = rw (parsed, account_reply-errors json boc) refl

  account_from-boc :
      (config : ForkConfig) (accounts : String → Option Cell) (boc : Cell → String)
      → IsEndpoint config accounts boc
      → (cell : Option Cell)
      → account_from lib (map_option boc cell)
        ≡ ok (map_option (λ c. lib.with_account_root c 0 0) cell)
  unfolding account_from
  account_from-boc config accounts boc endpoint none = refl
  account_from-boc config accounts boc endpoint (some cell) =
      let (bytes, decoded, is_read) = endpoint.boc-reads cell in rw (decoded, is_read) refl

  -- A query to an endpoint that answers.
  query-answered :
      (provider : ForkProvider) (text_of_query : String) (variables : Value) (w w1 w2 : W)
      (response : lib.Response) (body : String)
      → lib.send (request_for lib provider text_of_query variables) w ≡ (done response, w1)
      → lib.text_of response w1 ≡ (done body, w2)
      → query lib provider text_of_query variables w ≡ (read_response lib body, w2)
  unfolding query
  query-answered provider text_of_query variables w w1 w2 response body sent received =
      rw (sent, received) refl

  get-account_request :
      IsJson
      → (address : Address)
      → (get (account_request address) "query" ≡ some (text account_query))
        × (get (account_request address) "variables" ≡ some (variables_of address))
  unfolding Assoc.get
  get-account_request json address = (simp (json.get-object) refl, simp (json.get-object) refl)

  -- An endpoint that serves the accounts of a network: the provider that is made for its address and
  -- secret gives, for each address, the network's account, as an account root without a last
  -- transaction, and nothing where the network has no account. The JSON library reads back the
  -- request that it printed.
  pub get_account-served :
      (config : ForkConfig) (accounts : String → Option Cell) (boc : Cell → String)
      → IsJson
      → IsEndpoint config accounts boc
      → (address : Address) (w : W)
      → from_str (to_string (account_request address)) ≡ done (account_request address)
      → (get_account lib (new config) address w).0
        ≡ ok (map_option (λ c. lib.with_account_root c 0 0) (accounts (lib.address_text address)))
  unfolding get_account new request_for
  get_account-served config accounts boc json endpoint address w printed =
      let provider = new config in
      let vars = variables_of address in
      let (asked, given) = get-account_request json address in
      let (response, body, w1, w2, sent, received, parsed) =
        endpoint.answers (request_for lib provider account_query vars) (account_request address)
          vars (lib.address_text address) w refl
          (request-authorization config.endpoint config.auth account_query vars) printed asked given
          (get-member json _ _) in
      let reply = map_option boc (accounts (lib.address_text address)) in
      let q : query lib provider account_query vars w ≡ (ok (account_reply reply), w2) =
        query-answered provider account_query vars w w1 w2 response body sent received
        ∙ ap (λ r. (r, w2)) (read-account_reply json body reply parsed) in
      ap
        (λ r.
          (Exec.◌>>=◌ (λ (v : W). r) (λ v. lift (account_from lib (text_at lib v account_pointer)))
            w).0)
        q
      ∙ (ap (account_from lib) (account_reply-text json reply)
          ∙ account_from-boc config accounts boc endpoint (accounts (lib.address_text address)))
