-- ===== src/Data/Documents/Arango/Clear.antt =====
-- `ArangoHelper::clear_db`: the four collections are truncated in turn. The server's answer to each
-- request is an argument, and so is how an answer is told in the error's text.
use Prim.Native.String.{◌++◌ as concat}
use evernode_se.Common.{◌≡◌, ◌↔◌, refl, true, String, List, [], ◌∷◌, map, arith, All, if◌then◌else◌}
use evernode_se.Common.Result.{NodeResult, ok, err, document_db_error}
use evernode_se.Data.Documents.Arango.{ArangoHelperConfig, Reply}
use evernode_se.Data.Documents.Arango.Post.{is_success}

unfoldable pub truncate_url : ArangoHelperConfig → String → String
truncate_url config collection = concat "http://" (
    concat config.server (
      concat "/_db/"
        (concat config.database (concat "/_api/collection/" (concat collection "/truncate")))))

abbrev pub collections : ArangoHelperConfig → List String
collections config =
    config.accounts_collection ∷ config.blocks_collection ∷ config.messages_collection
    ∷ config.transactions_collection ∷ []

-- The addresses up to the first whose answer is no success.
abbrev pub until_failure : (String → Reply) → List String → List String
until_failure answer [] = []
until_failure answer (url ∷ urls) =
    if is_success (answer url) then url ∷ until_failure answer urls else url ∷ []

abbrev pub Truncated : ArangoHelperConfig → (String → Reply) → String → Type 0
Truncated config answer c = is_success (answer (truncate_url config c)) ≡ true

module _ (config : ArangoHelperConfig) (answer : String → Reply)
    (told : String → Reply → String) where
  -- The loop over the collections, with the addresses that were requested.
  truncate_all : List String → NodeResult (Unit {0}) × List String
  unfolding truncate_url
  truncate_all [] = (ok tt, [])
  truncate_all (c ∷ cs) =
      let url = truncate_url config c in
      let (r, sent) = truncate_all cs in
      if is_success (answer url)
      then (r, url ∷ sent)
      else (err (document_db_error (told c (answer url))), url ∷ [])

  unfoldable pub clear_db : NodeResult (Unit {0}) × List String
  unfolding truncate_all
  clear_db = truncate_all (collections config)

  truncate_all_iff :
      (cs : List String) → ((truncate_all cs).0 ≡ ok tt) ↔ All (Truncated config answer) cs
  unfolding truncate_all
  truncate_all_iff [] = (λ h. tt, λ h. refl)
  truncate_all_iff (c ∷ cs) = ground (arith, truncate_all_iff cs)

  truncate_all-sent :
      (cs : List String) → (truncate_all cs).1 ≡ until_failure answer (map (truncate_url config) cs)
  unfolding truncate_all
  truncate_all-sent [] = refl
  truncate_all-sent (c ∷ cs) = ground (arith, truncate_all-sent cs)

  -- The address for the truncation of a collection.
  abbrev pub address : String → String
  address collection = concat "http://" (
      concat config.server (
        concat "/_db/"
          (concat config.database (concat "/_api/collection/" (concat collection "/truncate")))))

  -- The call succeeds exactly if the collections of accounts, blocks, messages and transactions are all
  -- truncated, and the requests for them are made in this order up to the first that fails.
  pub clear_db_lem :
      ((clear_db.0 ≡ ok tt) ↔ (
        (is_success (answer (address config.accounts_collection)) ≡ true)
        × (is_success (answer (address config.blocks_collection)) ≡ true)
        × (is_success (answer (address config.messages_collection)) ≡ true)
        × (is_success (answer (address config.transactions_collection)) ≡ true)))
      × (clear_db.1
          ≡ until_failure answer (
              address config.accounts_collection
              ∷ address config.blocks_collection
              ∷ address config.messages_collection
              ∷ address config.transactions_collection
              ∷ []))
  unfolding clear_db truncate_url
  clear_db_lem = (
    (
      λ h.
          let all = (truncate_all_iff (collections config)).0 h in
          (all.0, all.1.0, all.1.1.0, all.1.1.1.0),
      λ h. (truncate_all_iff (collections config)).1 (h.0, (h.1, (h.2, (h.3, tt)))),
    ),
    truncate_all-sent (collections config),
  )
