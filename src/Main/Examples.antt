-- ===== src/Main/Examples.antt =====
-- A start of a small node in a folder with two files.
use evernode_se.Common.{ℕ, ◌≡◌, refl, String, true, none, some, List, [], ◌∷◌, ◌++◌, if◌then◌else◌}
use evernode_se.Common.Int.{ℤ, pos}
use evernode_se.Common.Assoc.{eqb}
use evernode_se.Common.Result.{ok, err, path_error, done, failed}
use evernode_se.Config.{
  default_api, default_messages, default_live_control, default_address, shard_ident,
  document_db_config,
}
use evernode_se.Data.Documents.{string_key}
use evernode_se.Service.Sample.{sample_node}
use evernode_se.Service.Manager.{Outside, create_engine, new as new_manager, start}
use evernode_se.Service.TonNode.{
  Handler, message_receiver_api, control_api, RouterLib, add_message_route, add_control_route,
  http_address, new as new_service, run as run_service,
}
use evernode_se.Main.{
  ArgMatches, MainLib, read_str, enter, parse_config, blockchain_config_from_json, config_from_args,
  run,
}

-- The world is the current folder. It has the files "node.json" and "chain.json".
abbrev lib : MainLib String ℕ
lib = record {
  set_current_dir = λ folder w. (true, folder);
  read_to_string = λ path w. (
    if eqb w "work"
        then if eqb path "node.json"
          then done "db"
          else if eqb path "chain.json"
          then done "{}"
          else failed "no such file"
        else failed "no such file",
    w,
  );
  init_log = λ path w. (true, w);
  Map = Unit {0};
  Params = Unit {0};
  map_from_str = λ s. done tt;
  parse_params = λ m. done tt;
  with_config = λ p. done 5;
}

abbrev outside : Outside String ℕ ℕ String ℤ (Unit {0})
outside = record {
  configs = record {
    read_config = λ s. done (sample_node s);
    to_string = some;
    with_prefix_len = λ len w pfx. some w;
  };
  masterchain = pos 1;
  open_storage = λ w. (ok tt, w);
  clear_storage = λ s w. (ok tt, w);
  connect = λ s w. (ok tt, w);
  clear_documents = λ d w. (ok tt, w);
  fork_blockchain_config = λ f w. (ok (9, pos 0), w);
  new_engine = λ g s c d f w. (ok c, w);
  stop_queue = λ n. n;
  join = λ n w. w;
}

abbrev routers : RouterLib (List (String × Handler))
routers = record {
  new_router = [];
  post = λ router glob handler name. router ++ (glob, handler) ∷ [];
  number_text = λ n. "3000";
  http = λ router address. eqb address "127.0.0.1:3000";
}

abbrev args : ArgMatches
args = record {
  workdir = some "work";
  config = some "node.json";
  blockchain_config = some "chain.json";
}

starts_where :
    ((run lib outside routers args "home").0
      ≡ ok (record {
        router = ("/topics/messages", message_receiver_api) ∷ ("/se/:command", control_api) ∷ [];
        address = "127.0.0.1:3000";
        listens = true;
        manager = record {
          original_config = record { node = sample_node "db"; blockchain = 5 };
          engine = 5;
          thread = true;
          outside = "work";
        };
      }))
unfolding run config_from_args enter read_str parse_config blockchain_config_from_json new_service
    run_service new_manager create_engine shard_ident document_db_config start add_message_route
    add_control_route http_address default_api default_messages default_live_control default_address
starts_where = refl

-- Without the folder the file is not there.
fails_where :
    (run lib outside routers (record args { workdir = none }) "home").0
    ≡ err (path_error "Failed to read node.json: no such file")
unfolding run config_from_args enter read_str
fails_where = refl
