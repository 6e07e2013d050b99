-- ===== src/Service/ControlApi/Examples.antt =====
-- Requests to a small node, whose engine is its time.
use evernode_se.Common.{
  ℕ, ◌≡◌, refl, String, true, Option, none, some, [], ◌∷◌, arith, if◌then◌else◌,
}
use evernode_se.Common.Int.{ℤ, pos}
use evernode_se.Common.Assoc.{eqb}
use evernode_se.Common.Assoc
use evernode_se.Common.Result.{ok, done}
use evernode_se.Data.Documents.{string_key}
use evernode_se.Engine.Time.{BlockTime, seq, new}
use evernode_se.Service.Sample.{sample_node}
use evernode_se.Service.Manager.{Outside, TonNodeEngineManager}
use evernode_se.Service.ControlApi.{
  Request, status_ok, status_ok_with, bad_request, unknown_command, from_req, process_request,
  find_parameter, bad,
}
use evernode_se.Service.ControlApi.Answers.{
  handle, process_request-bad_request, set_time_mode-time_mode,
}

abbrev outside : Outside (Unit {0}) BlockTime ℕ String ℤ (Unit {0})
outside = record {
  configs = record {
    read_config = λ s. done (sample_node s);
    to_string = some;
    with_prefix_len = λ len w pfx. some w;
  };
  masterchain = pos 1;
  open_storage = λ w. (ok tt, w);
  clear_storage = λ s w. (ok tt, w);
  connect = λ s w. (ok tt, w);
  clear_documents = λ d w. (ok tt, w);
  fork_blockchain_config = λ f w. (ok (9, pos 0), w);
  new_engine = λ g s c d f w. (ok new, w);
  stop_queue = λ n. n;
  join = λ n w. w;
}

abbrev manager : TonNodeEngineManager (Unit {0}) BlockTime ℕ String
manager = record {
  original_config = record { blockchain = 5; node = sample_node "db" };
  engine = record { delta = 0; last_time = 1; mode = seq; seq_mode_interval = 1 };
  thread = true;
  outside = tt;
}

abbrev lower : String → String
lower s = if eqb s "Time-Mode" then "time-mode" else s

abbrev number : String → Option ℕ
number s = if eqb s "1" then some 1 else if eqb s "0" then some 0 else none

abbrev documented : Request
documented = record { command = some "seq-mode-on"; query_pairs = [] }

rejects :
    (handle lower number outside (λ n. n) (λ t n. t) 100 documented manager).0
    ≡ bad_request (unknown_command "seq-mode-on")
unfolding process_request from_req
rejects = refl

process_request-bad_request_example :
    (from_req lower number documented ≡ bad (unknown_command "seq-mode-on"))
    × ((handle lower number outside (λ n. n) (λ t n. t) 100 documented manager).1 ≡ manager)
process_request-bad_request_example =
    process_request-bad_request lower number outside (λ n. n) (λ t n. t) 100 documented manager
      (unknown_command "seq-mode-on") rejects

set_time_mode-time_mode_example :
    ((handle lower number outside
        (λ n. n)
        (λ t n. t)
        100
        (record { command = some "set-time-mode"; query_pairs = ("mode", "0") ∷ [] })
        manager).0
      ≡ status_ok)
    × ((handle lower number outside
          (λ n. n)
          (λ t n. t)
          100
          (record { command = some "Time-Mode"; query_pairs = [] })
          (handle lower number outside
            (λ n. n)
            (λ t n. t)
            100
            (record { command = some "set-time-mode"; query_pairs = ("mode", "0") ∷ [] })
            manager).1).0
        ≡ status_ok_with 0)
unfolding find_parameter Assoc.get
set_time_mode-time_mode_example =
    set_time_mode-time_mode lower number outside (λ n. n) (λ t n. t) (λ t n. refl) 100 100 0
      "set-time-mode" "Time-Mode" "0" (("mode", "0") ∷ []) [] manager refl refl refl refl
      (omega arith)
