-- ===== src/Main.antt =====
-- node/src/main.rs: from the command line to the running service. The command line's parser, the
-- files, the log and the libraries for JSON and for configurations are parameters.
mod Examples
use Prim.Native.String.{◌++◌ as concat}
use evernode_se.Common.{String, Bool, true, false, Option, none, some}
use evernode_se.Common.Result.{
  NodeResult, ok, err, panic, NodeError, path_error, failure_error, LibResult, done, failed,
  map_err,
}
use evernode_se.Common.Exec.{Exec, lift, ◌>>=◌, ◌>>◌}
use evernode_se.Config.{NodeConfig, parse}
use evernode_se.Service.Manager.{Outside, Manager, TonNodeServiceConfig}
use evernode_se.Service.TonNode.{RouterLib, Serving, new as new_service, run as run_service}

-- The values on the command line; `workdir` may be left out.
pub record ArgMatches : Type 0 where
  pub workdir : Option String
  pub config : Option String
  pub blockchain_config : Option String

pub record MainLib (W Config : Type 0) : Type 1 where
  -- `env::set_current_dir`, `fs::read_to_string` and `log4rs::init_file`
  pub set_current_dir : String → W → Bool × W
  pub read_to_string : String → W → LibResult String × W
  pub init_log : String → W → Bool × W
  -- a JSON object, `ever_block_json::parse_config` and `BlockchainConfig::with_config`
  pub Map : Type 0
  pub Params : Type 0
  pub map_from_str : String → LibResult Map
  pub parse_params : Map → LibResult Params
  pub with_config : Params → LibResult Config

abbrev pub value_or_default : Option String → String
value_or_default (some s) = s
value_or_default none = ""

module _ {W Config : Type 0} (lib : MainLib W Config) where
  abbrev pub not_read : String → String → NodeError
  not_read path e = path_error (concat "Failed to read " (concat path (concat ": " e)))

  unfoldable pub read_str : String → Exec W String
  read_str path w = let (r, w') = lib.read_to_string path w in (map_err (not_read path) r, w')

  -- An `unwrap` of what a call gives.
  abbrev pub unwrap : (W → Bool × W) → Exec W (Unit {0})
  unwrap act w = let (fine, w') = act w in (elim fine [ true ↦ ok tt | false ↦ panic ], w')

  unfoldable pub enter : Option String → Exec W (Unit {0})
  enter (some workdir) w = unwrap (lib.set_current_dir workdir) w
  enter none w = (ok tt, w)

  unfoldable pub blockchain_config_from_json : String → LibResult Config
  blockchain_config_from_json json = elim (lib.map_from_str json) [
    | failed e ↦ failed e
    | done map ↦ elim (lib.parse_params map) [
      | failed e ↦ failed e
      | done params ↦ lib.with_config params
    ]
  ]

  module _ {Engine Value ShardIdent Documents Router : Type 0}
      (out : Outside W Engine Config Value ShardIdent Documents) (routers : RouterLib Router) where
    abbrev pub config_or_panic : LibResult (NodeConfig Value) → NodeResult (NodeConfig Value)
    config_or_panic (done config) = ok config
    config_or_panic (failed e) = panic

    unfoldable pub parse_config : String → NodeResult (NodeConfig Value)
    parse_config json = config_or_panic (parse out.configs json)

    unfoldable pub config_from_args : ArgMatches → Exec W (TonNodeServiceConfig Config Value)
    unfolding enter read_str parse_config blockchain_config_from_json
    config_from_args args = do
      enter args.workdir
      config_json ← read_str (value_or_default args.config)
      node ← lift (parse_config config_json)
      blockchain_json ← read_str (value_or_default args.blockchain_config)
      blockchain ← lift (map_err failure_error (blockchain_config_from_json blockchain_json))
      lift (ok (record { node = node; blockchain = blockchain }))

    -- Where the result is ok, the process is in the endless loop of the service, and what lies outside
    -- of it is in the manager.
    unfoldable pub run : ArgMatches → Exec W (Serving (Manager out) Router)
    unfolding config_from_args new_service run_service
    run args = do
      config ← config_from_args args
      unwrap (lib.init_log config.node.log_path)
      service ← new_service out routers config
      lift (ok (run_service out routers service))

    expect : {A : Type 0} → NodeResult A → NodeResult A
    expect (ok a) = ok a
    expect (err e) = panic
    expect panic = panic

    unfoldable pub main : ArgMatches → Exec W (Serving (Manager out) Router)
    unfolding run expect
    main args w = let (r, w') = run args w in (expect r, w')
