-- ===== src/Service/ControlApi.antt =====
-- node/src/service/control_api.rs: the endpoint for live control. The router, the lower case of a
-- text and the reading of a number are parameters, and so is the place of the time in an engine.
pub mod Answers
mod Examples
use evernode_se.Common.{
  ℕ, zero, suc, String, Bool, true, false, Option, none, some, List, [], ◌∷◌, if◌then◌else◌,
}
use evernode_se.Common.Assoc.{Assoc, eqb}
use evernode_se.Common.Assoc
use evernode_se.Common.Result.{NodeResult, NodeError, ok, err, panic}
use evernode_se.Common.Exec.{Exec}
use evernode_se.Data.Documents.{string_key}
use evernode_se.Engine.Time.{
  BlockTime, BlockTimeMode, system, seq, mode_code, get_next, increase_delta, reset_delta, set_mode,
}
use evernode_se.Service.Manager.{
  Outside, TonNodeEngineManager, Manager, reset as reset_node, fork as fork_node,
  unfork as unfork_node,
}

-- The command of the path, as it is written, and the pairs of the query.
pub record Request : Type 0 where
  pub command : Option String
  pub query_pairs : List (String × String)

pub data BadRequest : Type 0 where
  missing_command : BadRequest
  unknown_command : String → BadRequest
  missing_parameter : String → BadRequest
  invalid_value : String → String → BadRequest
  invalid_time_mode : ℕ → BadRequest

pub data ControlCommand : Type 0 where
  increase_time : ℕ → ControlCommand
  reset_time : ControlCommand
  time_delta : ControlCommand
  time_mode : ControlCommand
  set_time_mode : BlockTimeMode → ControlCommand
  time : ControlCommand
  reset : ControlCommand
  fork : String → Option String → Bool → ControlCommand
  unfork : Bool → ControlCommand

pub data Response : Type 0 where
  status_ok : Response
  status_ok_with : ℕ → Response
  bad_request : BadRequest → Response
  server_error : NodeError → Response
  panicked : Response

-- `IronResult` of a value
pub data IronResult (A : Type 0) : Type 0 where
  found : A → IronResult A
  bad : BadRequest → IronResult A

infixl 5 ◌>>=◌
abbrev pub ◌>>=◌ : {A B : Type 0} → IronResult A → (A → IronResult B) → IronResult B
found a >>= next = next a
bad e >>= next = bad e

-- `str::parse` of a bool
unfoldable pub parse_bool : String → Option Bool
parse_bool s = if eqb s "true" then some true else if eqb s "false" then some false else none

abbrev pub or_false : Option Bool → Bool
or_false none = false
or_false (some b) = b

-- `find_parameter`: the first pair of the name.
unfoldable pub find_parameter : List (String × String) → String → Option String
find_parameter pairs name = Assoc.get pairs name

abbrev pub parsed_as : {A : Type 0} → String → String → Option A → IronResult (Option A)
parsed_as name value none = bad (invalid_value name value)
parsed_as name value (some a) = found (some a)

abbrev pub transposed :
    {A : Type 0} → (String → Option A) → String → Option String → IronResult (Option A)
transposed parse name none = found none
transposed parse name (some value) = parsed_as name value (parse value)

unfoldable pub optional_parameter :
    {A : Type 0} → (String → Option A) → List (String × String) → String → IronResult (Option A)
unfolding find_parameter
optional_parameter parse pairs name = transposed parse name (find_parameter pairs name)

abbrev pub or_missing : {A : Type 0} → String → Option A → IronResult A
or_missing name none = bad (missing_parameter name)
or_missing name (some a) = found a

unfoldable pub required_parameter :
    {A : Type 0} → (String → Option A) → List (String × String) → String → IronResult A
unfolding optional_parameter
required_parameter parse pairs name = optional_parameter parse pairs name >>= or_missing name

abbrev pub mode_of : ℕ → IronResult BlockTimeMode
mode_of zero = found system
mode_of (suc zero) = found seq
mode_of (suc (suc n)) = bad (invalid_time_mode (suc (suc n)))

module _ (to_lowercase : String → String) (parse_u32 : String → Option ℕ) where
  unfoldable pub required_time_mode : List (String × String) → IronResult BlockTimeMode
  unfolding required_parameter
  required_time_mode pairs = required_parameter parse_u32 pairs "mode" >>= mode_of

  fork_of : List (String × String) → IronResult ControlCommand
  unfolding required_parameter optional_parameter parse_bool
  fork_of pairs = required_parameter some pairs "endpoint" >>= λ endpoint.
      optional_parameter some pairs "auth" >>= λ auth.
      optional_parameter parse_bool pairs "resetData" >>= λ resets.
      found (fork endpoint auth (or_false resets))

  -- The `match` on the command in lower case.
  unfoldable pub command_of : String → String → List (String × String) → IronResult ControlCommand
  unfolding required_time_mode fork_of required_parameter optional_parameter parse_bool
  command_of lower cmd pairs =
      if eqb lower "increase-time"
      then (required_parameter parse_u32 pairs "delta" >>= λ delta. found (increase_time delta))
      else if eqb lower "reset-time"
      then found reset_time
      else if eqb lower "time-delta"
      then found time_delta
      else if eqb lower "time-mode"
      then found time_mode
      else if eqb lower "set-time-mode"
      then (required_time_mode pairs >>= λ mode. found (set_time_mode mode))
      else if eqb lower "time"
      then found time
      else if eqb lower "reset"
      then found reset
      else if eqb lower "fork"
      then fork_of pairs
      else if eqb lower "unfork"
      then (optional_parameter parse_bool pairs "resetData" >>= λ resets.
          found (unfork (or_false resets)))
      else bad (unknown_command cmd)

  abbrev pub with_command : Option String → List (String × String) → IronResult ControlCommand
  with_command none pairs = bad missing_command
  with_command (some cmd) pairs = command_of (to_lowercase cmd) cmd pairs

  unfoldable pub from_req : Request → IronResult ControlCommand
  unfolding command_of
  from_req req = with_command req.command req.query_pairs

  module _ {W Engine Config Value ShardIdent Documents : Type 0}
      (lib : Outside W Engine Config Value ShardIdent Documents) (time_of : Engine → BlockTime)
      (set_time : BlockTime → Engine → Engine) where
    abbrev on_time : (BlockTime → BlockTime) → Manager lib → Manager lib
    on_time f m = record m { engine = set_time (f (time_of m.engine)) m.engine }

    abbrev pub answer_of : NodeResult (Unit {0}) × Manager lib → Response × Manager lib
    answer_of (ok u, m) = (status_ok, m)
    answer_of (err error, m) = (server_error error, m)
    answer_of (panic, m) = (panicked, m)

    -- The `match` on the command; `now` is the reading of the system clock.
    unfoldable pub run_command : ℕ → ControlCommand → Manager lib → Response × Manager lib
    run_command now (increase_time delta) m = (status_ok, on_time (λ t. increase_delta t delta) m)
    run_command now reset_time m = (status_ok, on_time reset_delta m)
    run_command now time_delta m = (status_ok_with (time_of m.engine).delta, m)
    run_command now time_mode m = (status_ok_with (mode_code (time_of m.engine).mode), m)
    run_command now (set_time_mode mode) m = (status_ok, on_time (λ t. set_mode t mode) m)
    run_command now time m = (status_ok_with (get_next now (time_of m.engine)), m)
    run_command now reset m = answer_of (reset_node lib m)
    run_command now (fork endpoint auth resets) m = answer_of (fork_node lib endpoint auth resets m)
    run_command now (unfork resets) m = answer_of (unfork_node lib resets m)

    abbrev pub respond : ℕ → IronResult ControlCommand → Manager lib → Response × Manager lib
    respond now (bad e) m = (bad_request e, m)
    respond now (found command) m = run_command now command m

    unfoldable pub process_request : ℕ → Request → Manager lib → Response × Manager lib
    unfolding from_req run_command
    process_request now req m = respond now (from_req req) m
