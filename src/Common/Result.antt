-- ===== src/Common/Result.antt =====
-- node/src/error.rs: the node's errors and results, and actions on a state that may fail.
-- A failed `unwrap`, `expect` or `assert` is the result `panic`. What an action has written before
-- it fails stays written, so the state comes back beside every result.
use Prim.Native.String.{String}
use mathlib.Core.Path.{◌≡◌, refl}
use mathlib.Core.Option.{Option, none, some}

-- The kinds of `std::io::Error` that the code tells apart.
pub data IoKind : Type 0 where
  unexpected_eof : IoKind
  other_kind : IoKind

pub data NodeError : Type 0 where
  io : IoKind → NodeError
  failure_error : String → NodeError
  block_error : String → NodeError
  not_found : NodeError
  path_error : String → NodeError
  data_base_problem : NodeError
  invalid_ext_message : NodeError
  invalid_merkle_update : NodeError
  invalid_operation : NodeError
  load_finality_error : NodeError
  finality_error : NodeError
  roolback_block_error : NodeError
  tl_serialize_error : NodeError
  tl_deserialize_error : NodeError
  tl_incompatible_packet_type : NodeError
  invalid_shard_state : NodeError
  queue_full : NodeError
  tr_executor_error : String → NodeError
  invalid_data : String → NodeError
  document_db_error : String → NodeError
  config_error : String → NodeError
  api_error : String → NodeError
  fork_endpoint_fetch_error : String → NodeError

pub data NodeResult {ℓ} (A : Type ℓ) : Type ℓ where
  ok : A → NodeResult A
  err : NodeError → NodeResult A
  panic : NodeResult A

-- The result of a call of a library, whose error is its text.
pub data LibResult {ℓ} (A : Type ℓ) : Type ℓ where
  done : A → LibResult A
  failed : String → LibResult A

-- `map_err(|err| ..)`
abbrev pub map_err {ℓ} : {A : Type ℓ} → (String → NodeError) → LibResult A → NodeResult A
map_err e (done a) = ok a
map_err e (failed text) = err (e text)

infixl 5 ◌>>=◌ ◌>>◌
abbrev pub ◌>>=◌ {ℓ κ} :
    {A : Type ℓ} {B : Type κ} → NodeResult A → (A → NodeResult B) → NodeResult B
panic >>= next = panic
err error >>= next = err error
ok value >>= next = next value

abbrev pub ◌>>◌ {ℓ} : {B : Type ℓ} → NodeResult (Unit {0}) → NodeResult B → NodeResult B
first >> second = first >>= λ _. second

-- `opt.ok_or(e)?`
abbrev pub or_err {ℓ} : {A : Type ℓ} → Option A → NodeError → NodeResult A
or_err none e = err e
or_err (some a) e = ok a

-- `opt.unwrap()` and `opt.expect(..)`
abbrev pub or_panic {ℓ} : {A : Type ℓ} → Option A → NodeResult A
or_panic none = panic
or_panic (some a) = ok a

pub >>=-eq-ok {ℓ κ} :
    {A : Type ℓ} {B : Type κ} (r : NodeResult A) (next : A → NodeResult B) {done : B}
    → (r >>= next) ≡ ok done
    → (value : A) × (r ≡ ok value) × (next value ≡ ok done)
>>=-eq-ok panic next h = cc
>>=-eq-ok (ok value) next h = (value, refl, h)
>>=-eq-ok (err error) next h = cc

pub ok-injective {ℓ} : {A : Type ℓ} {a b : A} → ok a ≡ ok b → a ≡ b
ok-injective h = cc
