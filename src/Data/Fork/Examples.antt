-- ===== src/Data/Fork/Examples.antt =====
-- An endpoint with one account, over a small JSON whose reader knows a request and an answer.
use evernode_se.Common.{
  ℕ, ◌≡◌, refl, sym, ap, ◌∙◌, String, Option, none, some, [], ◌∷◌, ◌⊎◌, inl, inr, if◌then◌else◌,
  arith,
}
use evernode_se.Common.Assoc.{Assoc, eqb}
use evernode_se.Common.Assoc
use evernode_se.Common.Int.{pos}
use evernode_se.Common.Result.{ok, LibResult, done, failed}
use evernode_se.Config.{ForkConfig}
use evernode_se.Data.Documents.{string_key}
use evernode_se.Data.Fork.{
  ForkLib, account_query, account_pointer, get_account, get_blockchain_config, new,
}
use evernode_se.Data.Fork.Served.{IsJson, IsEndpoint, get_account-served}
use evernode_se.Data.Fork.Failures.{Fetches, provider-Fetches}

mutual
  data Json : Type 0 where
    nothing : Json
    txt : String → Json
    obj : Members → Json

  data Members : Type 0 where
    end : Members
    member : String → Json → Members → Members

members : Assoc String Json → Members
members [] = end
members ((key, value) ∷ m) = member key value (members m)

member_of : Members → String → Option Json
member_of end key = none
member_of (member k value m) key = if eqb k key then some value else member_of m key

member_of-members :
    (m : Assoc String Json) (key : String) → member_of (members m) key ≡ Assoc.get m key
unfolding member_of members Assoc.get
member_of-members [] key = refl
member_of-members ((k, value) ∷ m) key = rw (member_of-members m key) refl

abbrev get_in : Json → String → Option Json
get_in (obj m) key = member_of m key
get_in nothing key = none
get_in (txt s) key = none

abbrev get_at : Option Json → String → Option Json
get_at (some v) key = get_in v key
get_at none key = none

abbrev text_of : Json → Option String
text_of (txt s) = some s
text_of nothing = none
text_of (obj m) = none

abbrev single : String → Json → Json
single key value = obj (member key value end)

abbrev asked : Json
asked =
    obj (member "query" (txt account_query) (member "variables" (single "address" (txt "0:7")) end))

abbrev replied : Json
replied =
    single "data" (single "blockchain" (single "account" (single "info" (single "boc" (txt "b7")))))

abbrev read : String → LibResult Json
read s =
    if eqb s "ask" then done asked else if eqb s "found" then done replied else failed "not json"

abbrev lib : ForkLib (Unit {0}) ℕ
lib = record {
  Response = Unit {0};
  send = λ r w. (done tt, w);
  text_of = λ r w. (done "found", w);
  Value = Json;
  null = nothing;
  text = txt;
  object = λ m. obj (members m);
  to_string = λ v. "ask";
  from_str = read;
  get = get_in;
  pointer = λ v path.
      if eqb path account_pointer
      then get_at (get_at (get_at (get_at (get_in v "data") "blockchain") "account") "info") "boc"
      else none;
  as_str = text_of;
  Block = ℕ;
  Extra = ℕ;
  McExtra = ℕ;
  Params = ℕ;
  construct_from_base64 = λ s. done 0;
  read_extra = done;
  read_custom = λ e. done (some e);
  config = some;
  with_config = done;
  global_id = pos;
  Address = String;
  address_text = λ a. a;
  base64_decode = λ s. done (7 ∷ []);
  Cell = Unit {0};
  read_single_root_boc = λ bytes. done tt;
  ShardAccount = Unit {0};
  with_account_root = λ cell hash lt. cell;
}

abbrev config : ForkConfig
config = record { endpoint = "http://localhost/graphql"; auth = some "secret" }

abbrev accounts : String → Option (Unit {0})
accounts address = if eqb address "0:7" then some tt else none

lib-IsJson : IsJson lib
lib-IsJson = record {
  get-object = member_of-members;
  as_str-text = λ s. refl;
  as_str-null = refl;
  pointer-account = λ a b c d e at_b at_c at_d at_e. rw (at_b, at_c, at_d, at_e) refl;
}

read_cases : (s : String) (v : Json) → read s ≡ done v → (asked ≡ v) ⊎ (replied ≡ v)
read_cases s v h = ground arith

asked-address :
    (v vars : Json) (address : String)
    → (asked ≡ v) ⊎ (replied ≡ v)
    → get_in v "query" ≡ some (txt account_query)
    → get_in v "variables" ≡ some vars
    → get_in vars "address" ≡ some (txt address)
    → "0:7" ≡ address
unfolding member_of
asked-address v vars address (inl is_asked) query variables named =
    let there : some (single "address" (txt "0:7")) ≡ some vars =
      ap (λ x. get_in x "variables") is_asked ∙ variables in
    let same : single "address" (txt "0:7") ≡ vars = cc in
    let found : some (txt "0:7") ≡ some (txt address) = ap (λ x. get_in x "address") same ∙ named in
    cc
asked-address v vars address (inr is_replied) query variables named =
    let absent : none ≡ some (txt account_query) = ap (λ x. get_in x "query") is_replied ∙ query in
    cc

lib-IsEndpoint : IsEndpoint lib config accounts (λ cell. "b7")
unfolding members
lib-IsEndpoint = record {
  boc-reads = λ cell. (7 ∷ [], refl, refl);
  answers = λ r v vars address w url auth parsed query variables named.
      let same = asked-address v vars address (read_cases r.body v parsed) query variables named in
      (tt, "found", tt, tt, refl, refl, rw (sym same) refl);
}

get_account-served_example : (get_account lib (new config) "0:7" tt).0 ≡ ok (some tt)
unfolding members
get_account-served_example =
    get_account-served lib config accounts (λ cell. "b7") lib-IsJson lib-IsEndpoint "0:7" tt refl

provider-Fetches_example :
    Fetches (get_account lib (new config) "0:7" tt).0
    × Fetches (get_blockchain_config lib (new config) tt).0
provider-Fetches_example = provider-Fetches lib (new config) "0:7" tt
