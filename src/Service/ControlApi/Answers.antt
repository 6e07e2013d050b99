-- ===== src/Service/ControlApi/Answers.antt =====
-- The answers of the endpoint, and what its requests change.
use evernode_se.Common.{
  ℕ, zero, suc, ◌+◌, ◌%◌, ◌^◌, ◌<◌, ◌≡◌, refl, ap, ◌∙◌, String, Option, some, List, [], ◌∷◌, arith,
}
use evernode_se.Common.Result.{NodeResult, ok, err, panic}
use evernode_se.Data.Documents.{string_key}
use evernode_se.Engine.Time.{BlockTime, mode_code, set_mode, increase_delta}
use evernode_se.Service.Manager.{
  Outside, TonNodeEngineManager, reset as reset_node, fork as fork_node, unfork as unfork_node,
}
use evernode_se.Service.ControlApi.{
  Request, BadRequest, ControlCommand, increase_time, reset_time, time_delta, time_mode,
  set_time_mode, time, reset, fork, unfork, Response, status_ok, status_ok_with, bad_request,
  IronResult, found, bad, mode_of, required_parameter, required_time_mode, optional_parameter,
  find_parameter, ◌>>=◌, answer_of, from_req, run_command, respond, process_request,
}

module _ (to_lowercase : String → String) (parse_u32 : String → Option ℕ)
    {W Engine Config Value ShardIdent Documents : Type 0}
    (lib : Outside W Engine Config Value ShardIdent Documents) (time_of : Engine → BlockTime)
    (set_time : BlockTime → Engine → Engine) where
  abbrev pub Live : Type 0
  Live = TonNodeEngineManager W Engine Config Value

  abbrev pub handle : ℕ → Request → Live → Response × Live
  handle = process_request to_lowercase parse_u32 lib time_of set_time

  answer-not_bad :
      (p : NodeResult (Unit {0}) × Live) (e : BadRequest)
      → (answer_of to_lowercase parse_u32 lib time_of set_time p).0 ≡ bad_request e
      → ⊥
  answer-not_bad (ok u, m) e h = cc
  answer-not_bad (err error, m) e h = cc
  answer-not_bad (panic, m) e h = cc

  not_bad :
      (now : ℕ) (command : ControlCommand) (m : Live) (e : BadRequest)
      → (run_command to_lowercase parse_u32 lib time_of set_time now command m).0 ≡ bad_request e
      → ⊥
  unfolding run_command
  not_bad now (increase_time delta) m e h = cc
  not_bad now reset_time m e h = cc
  not_bad now time_delta m e h = cc
  not_bad now time_mode m e h = cc
  not_bad now (set_time_mode mode) m e h = cc
  not_bad now time m e h = cc
  not_bad now reset m e h = answer-not_bad (reset_node lib m) e h
  not_bad now (fork endpoint auth resets) m e h =
      answer-not_bad (fork_node lib endpoint auth resets m) e h
  not_bad now (unfork resets) m e h = answer-not_bad (unfork_node lib resets m) e h

  -- If a request is answered as bad, no command can be read from it, and it changes nothing.
  pub process_request-bad_request :
      (now : ℕ) (req : Request) (m : Live) (e : BadRequest)
      → (handle now req m).0 ≡ bad_request e
      → (from_req to_lowercase parse_u32 req ≡ bad e) × ((handle now req m).1 ≡ m)
  unfolding process_request
  process_request-bad_request now req m e h = go (from_req to_lowercase parse_u32 req) h
    where
      go :
          (r : IronResult ControlCommand)
          → (respond to_lowercase parse_u32 lib time_of set_time now r m).0 ≡ bad_request e
          → (r ≡ bad e) × ((respond to_lowercase parse_u32 lib time_of set_time now r m).1 ≡ m)
      go (bad e') h = (cc, refl)
      go (found command) h = elim (not_bad now command m e h) [ ]

  from_req-set_time_mode :
      (n : ℕ) (cmd text : String) (pairs : List (String × String))
      → to_lowercase cmd ≡ "set-time-mode"
      → find_parameter pairs "mode" ≡ some text
      → parse_u32 text ≡ some n
      → from_req to_lowercase parse_u32 (record { command = some cmd; query_pairs = pairs })
        ≡ (mode_of n >>= λ mode. found (set_time_mode mode))
  unfolding from_req required_time_mode required_parameter optional_parameter
  from_req-set_time_mode n cmd text pairs set has number = rw (set, has, number) refl

  from_req-time_mode :
      (cmd : String) (pairs : List (String × String))
      → to_lowercase cmd ≡ "time-mode"
      → from_req to_lowercase parse_u32 (record { command = some cmd; query_pairs = pairs })
        ≡ found time_mode
  unfolding from_req
  from_req-time_mode cmd pairs get = rw get refl

  -- A mode that is set by its number is reported by this number, whatever the case of the letters of
  -- the commands, and whatever the state of the node.
  pub set_time_mode-time_mode :
      (get-set : (t : BlockTime) (n : Engine) → time_of (set_time t n) ≡ t) (now now' n : ℕ)
      (cmd cmd' text : String) (pairs pairs' : List (String × String)) (m : Live)
      → to_lowercase cmd ≡ "set-time-mode"
      → to_lowercase cmd' ≡ "time-mode"
      → find_parameter pairs "mode" ≡ some text
      → parse_u32 text ≡ some n
      → n < 2
      → ((handle now (record { command = some cmd; query_pairs = pairs }) m).0 ≡ status_ok)
        × ((handle now'
              (record { command = some cmd'; query_pairs = pairs' })
              (handle now (record { command = some cmd; query_pairs = pairs }) m).1).0
            ≡ status_ok_with n)
  unfolding process_request run_command set_mode mode_code
  set_time_mode-time_mode get-set now now' zero cmd cmd' text pairs pairs' m set get has number
        small =
      let e = from_req-set_time_mode 0 cmd text pairs set has number in
      let e' = from_req-time_mode cmd' pairs' get in (rw e refl, rw (e, e', get-set) refl)
  set_time_mode-time_mode get-set now now' (suc zero) cmd cmd' text pairs pairs' m set get has
        number small =
      let e = from_req-set_time_mode 1 cmd text pairs set has number in
      let e' = from_req-time_mode cmd' pairs' get in (rw e refl, rw (e, e', get-set) refl)
  set_time_mode-time_mode get-set now now' (suc (suc n)) cmd cmd' text pairs pairs' m set get has
        number small =
      absurd (omega (arith, small))

  -- The deltas that are added one after the other, and their sum.
  abbrev pub increased : ℕ → List ℕ → Live → Live
  increased now [] m = m
  increased now (d ∷ ds) m =
      increased now ds
        (run_command to_lowercase parse_u32 lib time_of set_time now (increase_time d) m).1

  abbrev pub sum : List ℕ → ℕ
  sum [] = 0
  sum (d ∷ ds) = d + sum ds

  increased-delta :
      (get-set : (t : BlockTime) (n : Engine) → time_of (set_time t n) ≡ t) (now : ℕ) (ds : List ℕ)
      (m : Live) (start : ℕ)
      → (time_of m.engine).delta ≡ start
      → start < 2 ^ 32
      → (time_of (increased now ds m).engine).delta ≡ (start + sum ds) % 2 ^ 32
  unfolding run_command increase_delta
  increased-delta get-set now [] m start same small = omega (arith, same, small)
  increased-delta get-set now (d ∷ ds) m start same small = omega (
    arith,
    increased-delta get-set now ds
        (run_command to_lowercase parse_u32 lib time_of set_time now (increase_time d) m).1
        ((start + d) % 2 ^ 32)
        (ap (λ (t : BlockTime). t.delta) (get-set _ m.engine) ∙ ap (λ s. (s + d) % 2 ^ 32) same)
        (omega arith),
  )

  -- After any deltas have been added, the delta that is reported is their sum and the delta of the
  -- start, cut to a u32.
  pub increase_time-time_delta :
      (get-set : (t : BlockTime) (n : Engine) → time_of (set_time t n) ≡ t) (now now' : ℕ)
      (ds : List ℕ) (m : Live)
      → (time_of m.engine).delta < 2 ^ 32
      → (run_command to_lowercase parse_u32 lib time_of set_time now' time_delta
          (increased now ds m)).0
        ≡ status_ok_with (((time_of m.engine).delta + sum ds) % 2 ^ 32)
  unfolding run_command
  increase_time-time_delta get-set now now' ds m small =
      ap status_ok_with (increased-delta get-set now ds m (time_of m.engine).delta refl small)
