-- ===== src/Data/Fork/Failures.antt =====
-- How the provider of a fork fails.
use evernode_se.Common.{String, Option, none, some}
use evernode_se.Common.Result.{
  NodeResult, ok, err, fork_endpoint_fetch_error, LibResult, done, failed, ◌>>=◌,
}
use evernode_se.Common.Exec.{Exec}
use evernode_se.Common.Exec
use evernode_se.Data.Fork.{
  ForkLib, ForkProvider, fetch_error, found, and_then, try_extract_graphql_error, without_errors,
  read_response, request_for, query, text_at, config_of, get_blockchain_config, account_from,
  get_account, account_query, account_pointer, key_block_query, key_block_pointer,
}

-- A value, or the error that an endpoint could not be read.
pub data Fetches {A : Type 0} : NodeResult A → Type 0 where
  fetched : (a : A) → Fetches (ok a)
  refused : (text : String) → Fetches (err (fork_endpoint_fetch_error text))

fetch_error-Fetches : {A : Type 0} (r : LibResult A) → Fetches (fetch_error r)
fetch_error-Fetches (done a) = fetched a
fetch_error-Fetches (failed text) = refused text

found-Fetches : {A : Type 0} (o : Option A) (text : String) → Fetches (found o text)
found-Fetches (some a) text = fetched a
found-Fetches none text = refused text

bind-Fetches :
    {A B : Type 0} (r : NodeResult A) (f : A → NodeResult B)
    → Fetches r
    → ((a : A) → Fetches (f a))
    → Fetches (r >>= f)
bind-Fetches r f (fetched a) h = h a
bind-Fetches r f (refused text) h = refused text

continue-Fetches :
    {W A B : Type 0} (r : NodeResult A) (f : A → Exec W B) (w : W)
    → Fetches r
    → ((a : A) (w' : W) → Fetches (f a w').0)
    → Fetches (Exec.continue r f w).0
continue-Fetches r f w (fetched a) h = h a w
continue-Fetches r f w (refused text) h = refused text

module _ {W Config : Type 0} (lib : ForkLib W Config) where
  without_errors-Fetches :
      (response : lib.Value) (e : Option String) → Fetches (without_errors lib response e)
  without_errors-Fetches response none = fetched response
  without_errors-Fetches response (some e) = refused e

  read_response-Fetches : (body : String) → Fetches (read_response lib body)
  unfolding read_response
  read_response-Fetches body =
      bind-Fetches _ _ (fetch_error-Fetches (lib.from_str body))
        (λ v. without_errors-Fetches v (try_extract_graphql_error lib v))

  query-Fetches :
      (provider : ForkProvider) (text_of_query : String) (variables : lib.Value) (w : W)
      → Fetches (query lib provider text_of_query variables w).0
  unfolding query
  query-Fetches provider text_of_query variables w =
      let sent = lib.send (request_for lib provider text_of_query variables) w in
      continue-Fetches _ _ sent.1 (fetch_error-Fetches sent.0) (λ response w1.
        continue-Fetches _ _ (lib.text_of response w1).1
          (fetch_error-Fetches (lib.text_of response w1).0) (λ body w2. read_response-Fetches body))

  config_of-Fetches : (response : lib.Value) → Fetches (config_of lib response)
  unfolding config_of
  config_of-Fetches response =
      bind-Fetches _ _ (found-Fetches (text_at lib response key_block_pointer) _) λ boc.
        bind-Fetches _ _ (fetch_error-Fetches (lib.construct_from_base64 boc)) λ block.
          bind-Fetches _ _ (fetch_error-Fetches (and_then (lib.read_extra block) lib.read_custom))
            λ custom. bind-Fetches _ _ (found-Fetches custom _) λ mc_extra.
              bind-Fetches _ _ (found-Fetches (lib.config mc_extra) _) λ params.
                bind-Fetches _ _ (fetch_error-Fetches (lib.with_config params)) λ config. fetched _

  account_from-Fetches : (boc : Option String) → Fetches (account_from lib boc)
  unfolding account_from
  account_from-Fetches none = fetched none
  account_from-Fetches (some boc) =
      bind-Fetches _ _ (fetch_error-Fetches (lib.base64_decode boc)) λ bytes.
        bind-Fetches _ _ (fetch_error-Fetches (lib.read_single_root_boc bytes)) λ cell. fetched _

  -- Whatever the endpoint sends, the provider does not panic: each of its two operations gives a
  -- value, or fails with the error of a fork's endpoint.
  pub provider-Fetches :
      (provider : ForkProvider) (address : lib.Address) (w : W)
      → Fetches (get_account lib provider address w).0
        × Fetches (get_blockchain_config lib provider w).0
  unfolding get_account get_blockchain_config
  provider-Fetches provider address w = (
    continue-Fetches _ _ _ (query-Fetches provider account_query _ w)
        (λ v w'. account_from-Fetches (text_at lib v account_pointer)),
    continue-Fetches _ _ _ (query-Fetches provider key_block_query _ w)
        (λ v w'. config_of-Fetches v),
  )
