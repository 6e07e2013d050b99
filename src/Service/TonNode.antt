-- ===== src/Service/TonNode.antt =====
-- node/src/service/mod.rs: the service, which serves the two endpoints over HTTP. The router and the
-- server are parameters, and so is the text of a number.
use Prim.Native.String.{◌++◌ as concat}
use evernode_se.Common.{ℕ, Bool, String}
use evernode_se.Common.Result.{ok}
use evernode_se.Common.Exec.{Exec, lift, ◌>>=◌}
use evernode_se.Config.{NodeApiConfig}
use evernode_se.Service.Manager.{Outside, Manager, TonNodeServiceConfig, new as new_manager, start}

-- The functions `process_request` of the two endpoints.
pub data Handler : Type 0 where
  message_receiver_api : Handler
  control_api : Handler

pub record RouterLib (Router : Type 0) : Type 0 where
  pub new_router : Router
  -- `Router::post`: a glob, its handler and the route's name
  pub post : Router → String → Handler → String → Router
  -- `{}` of a u32
  pub number_text : ℕ → String
  -- whether `Iron::http` gets the address; its thread panics if it does not
  pub http : Router → String → Bool

pub record TonNodeService (M : Type 0) : Type 0 where
  pub api_config : NodeApiConfig
  pub node_manager : M

-- The process in the endless loop of `run`: what it serves, where, and the manager. It gets there also
-- if the server does not listen, since only the thread of the server panics then.
pub record Serving (M Router : Type 0) : Type 0 where
  pub router : Router
  pub address : String
  pub listens : Bool
  pub manager : M

module _ {Router : Type 0} (lib : RouterLib Router) where
  unfoldable pub add_message_route : Router → String → Router
  add_message_route router path = lib.post router (concat "/" path) message_receiver_api "messages"

  unfoldable pub add_control_route : Router → String → Router
  add_control_route router path =
      lib.post router (concat "/" (concat path "/:command")) control_api "live_control"

  unfoldable pub http_address : NodeApiConfig → String
  http_address config = concat config.address (concat ":" (lib.number_text config.port))

module _ {W Engine Config Value ShardIdent Documents Router : Type 0}
    (lib : Outside W Engine Config Value ShardIdent Documents) (routers : RouterLib Router) where
  unfoldable pub new : TonNodeServiceConfig Config Value → Exec W (TonNodeService (Manager lib))
  unfolding new_manager
  new config = do
    manager ← new_manager lib config
    lift (ok (record { api_config = config.node.api; node_manager = manager }))

  unfoldable pub run : TonNodeService (Manager lib) → Serving (Manager lib) Router
  unfolding add_message_route add_control_route http_address start
  run service =
      let router : Router =
        add_control_route routers
          (add_message_route routers routers.new_router service.api_config.messages)
          service.api_config.live_control in
      let address : String = http_address routers service.api_config in
      record {
        router = router;
        address = address;
        listens = routers.http router address;
        manager = start lib service.node_manager;
      }
