-- ===== src/Service/Manager/Examples.antt =====
-- A manager of a small node: an engine is the pair of its configuration and whether it is stopped, and
-- the outside is the number of engines made so far. An endpoint that is not "good" fails.
use evernode_se.Common.{String, some, ℕ, suc, ◌≡◌, refl, Bool, true, false, none, if◌then◌else◌}
use evernode_se.Common.Int.{ℤ, pos}
use evernode_se.Common.Assoc.{eqb}
use evernode_se.Common.Result.{ok, err, done, fork_endpoint_fetch_error}
use evernode_se.Data.Documents.{string_key}
use evernode_se.Service.Sample.{sample_node}
use evernode_se.Config.{shard_ident, document_db_config}
use evernode_se.Service.Manager.{
  Outside, TonNodeEngineManager, create_engine, start, stop, clear_if, replace_and_start, fork,
}
use evernode_se.Service.Manager.Commands.{to_fork, run, config_for, Replaced, run-Replaced}

abbrev outside : Outside ℕ (ℕ × Bool) ℕ String ℤ (Unit {0})
outside = record {
  configs = record {
    read_config = λ s. done (sample_node s);
    to_string = some;
    with_prefix_len = λ len w pfx. some w;
  };
  masterchain = pos 1;
  open_storage = λ w. (ok tt, w);
  clear_storage = λ s w. (ok tt, w);
  connect = λ s w. (ok tt, w);
  clear_documents = λ d w. (ok tt, w);
  fork_blockchain_config = λ f w.
      (if eqb f.endpoint "good" then ok (9, pos 0) else err (fork_endpoint_fetch_error ""), w);
  new_engine = λ g s c d f w. (ok (c, false), suc w);
  stop_queue = λ n. (n.0, true);
  join = λ n w. w;
}

abbrev manager : TonNodeEngineManager ℕ (ℕ × Bool) ℕ String
manager = record {
  original_config = record { blockchain = 5; node = sample_node "db" };
  engine = (5, false);
  thread = true;
  outside = 1;
}

forks : (fork outside "good" none false manager).1.engine ≡ (9, false)
unfolding fork stop clear_if replace_and_start create_engine start shard_ident document_db_config
forks = refl

fork_fails :
    let m = (fork outside "bad" none false manager).1 in (m.engine ≡ (5, true)) × (m.thread ≡ false)
unfolding fork stop clear_if replace_and_start create_engine start shard_ident document_db_config
fork_fails = (refl, refl)

run-Replaced_example :
    Replaced outside
      (config_for outside (to_fork "bad" none false) manager.original_config)
      manager
      (run outside (to_fork "bad" none false) manager)
run-Replaced_example = run-Replaced outside (to_fork "bad" none false) manager
