-- ===== src/Application.antt =====
-- internal/application: the start of the service and its parts, with NewRouter and NewAPIGroup of
-- internal/routing/routing.go, NewDockerClient of internal/docker/docker.go and NewWithRetry of
-- internal/httpclient/httpclient.go. The libraries and the operating system are no part of the
-- repository: `Platform` is a parameter, over the state `W` of the world outside.
pub mod Startup
pub mod Wiring
pub mod Running
pub mod Shutdown
use noted_runner.Prelude.{
  ℕ, ◌*◌, Bool, true, false, Option, none, some, List, [], ◌∷◌, ◌++◌, map, Text, ascii, Outcome, ok,
  err, panic,
}
use noted_runner.Effects.{Effect, proceed, ◌>>=◌, given}
use noted_runner.Strings.{itoa}
use noted_runner.Configs.{
  Config, DockerConfig, HttpClientConfig, HttpRetryPolicyConfig, HttpServerConfig, ServiceConfig,
  LoggerConfig, Viper,
}
use noted_runner.Configs.Setup.{zero_config, setup_configs}
use noted_runner.Metrics.{MetricNames, setup_metrics}
use noted_runner.Logger.{Process, Logger, Loggers, new_logger, setup_loggers}
use noted_runner.Rabbit.{Amqp, RabbitQueue, new_rabbit}
use noted_runner.Docker.{DockerClient, new_docker_client}
use noted_runner.Usecase.{Compile, new_compiler_usecase}
use noted_runner.Delivery.{ComilerDelivery, new_compiler_delivery}

pub record Platform (W : Type 0) : Type 0 where
  pub viper : Viper W
  pub process : Process W
  pub amqp : Amqp W
  -- the names of the collectors of the Go runtime and of the process
  pub collectors : List Text
  -- os.Setenv
  pub set_env : Text → Text → Effect W (Unit {0})
  -- client.NewClientWithOpts with FromEnv, and Ping of the client
  pub new_engine_client : Effect W ℕ
  pub ping : ℕ → Effect W (Unit {0})
  -- grpc.NewClient: the connection, or nil and an error
  pub grpc_client : Text → W → Option ℕ × W

-- internal/application/health.go
pub record HealthChecks : Type 0 where
  pub docker : Bool
  pub rabbit : Bool

unfoldable pub init_healthchecks : HealthChecks
init_healthchecks = record { docker = false; rabbit = false }

-- the client of internal/httpclient, by its settings
pub record HttpClient : Type 0 where
  pub dial_timeout : ℕ
  pub keep_alive : ℕ
  pub max_idle_conns : ℕ
  pub max_idle_conns_per_host : ℕ
  pub idle_conn_timeout : ℕ
  pub timeout : ℕ
  pub retries : HttpRetryPolicyConfig
  pub metrics : MetricNames
  pub logger : Logger

unfoldable pub new_with_retry : HttpClientConfig → MetricNames → Logger → HttpClient
new_with_retry config metrics logger = record {
  dial_timeout = config.dial_timeout;
  keep_alive = config.keep_alive;
  max_idle_conns = config.max_idle_conns;
  max_idle_conns_per_host = config.max_idle_conns;
  idle_conn_timeout = config.idle_conn_timeout;
  timeout = config.request_timeout;
  retries = config.retry_policy;
  metrics = metrics;
  logger = logger;
}

-- The clients of gRPC are made of connections that may be nil.
pub record Components : Type 0 where
  pub docker : DockerClient
  pub rabbit : RabbitQueue
  pub http_c : HttpClient
  pub grpc_auth : Option ℕ
  pub grpc_access : Option ℕ

-- the consumer of the kernels' results reads from the queue's deliveries
pub record Layers : Type 0 where
  pub usecase : Compile
  pub compile_http : ComilerDelivery
  pub auth_client : Option ℕ
  pub access_client : Option ℕ
  pub consumer_queue : ℕ

pub record App : Type 0 where
  pub configs : Config
  pub health : HealthChecks
  pub layers : Layers
  pub metrics : MetricNames
  pub init_logger : Logger
  pub loggers : Loggers
  pub components : Components

-- `lcfg` of `NewApp`
abbrev pub init_config : LoggerConfig
unfolding zero_config
init_config = record zero_config.logger { log_level = ascii "info"; log_add_source = true }

unfoldable pub setup_layers : Config → Components → Layers
unfolding new_compiler_usecase new_compiler_delivery
setup_layers configs c = record {
  usecase = new_compiler_usecase c.docker configs.docker.env.mount_path configs.docker.prefix;
  compile_http = new_compiler_delivery;
  auth_client = c.grpc_auth;
  access_client = c.grpc_access;
  consumer_queue = c.rabbit.queue;
}

-- internal/routing/routing.go: a router with the paths that it serves, whatever the method
pub record Router : Type 0 where
  pub routes : List Text

unfoldable pub new_router : Router
new_router = record { routes = [] }

-- `NewAPIGroup`: each handler registers its route below the path of the group
unfoldable pub new_api_group : Text → Text → List (Text → Text) → Router → Router
new_api_group base_path version handlers rr = record {
  routes =
      rr.routes
      ++ map (λ (register : Text → Text). register (ascii "/api/v" ++ version ++ base_path))
          handlers;
}

-- `RegisterRoutes`: the path of the only route, below that of the group
unfoldable pub register_routes : Text → Text
register_routes group = group ++ ascii "/ws" ++ ascii "/"

-- The router that `Run` sets up: `use_prometheus` is `p.Use` of the library for the metrics, which
-- registers routes of its own.
unfoldable pub router_of : (Router → Router) → Config → Router
unfolding new_router new_api_group register_routes
router_of use_prometheus c =
    new_api_group c.service.base_path (ascii "1") (register_routes ∷ []) (use_prometheus new_router)

module _ {W : Type 0} (platform : Platform W) where
  unfoldable pub start_docker_client : DockerConfig → Effect W DockerClient
  unfolding new_docker_client given
  start_docker_client config = do
    _ ← platform.set_env (ascii "DOCKER_HOST") config.host
    cli ← platform.new_engine_client
    _ ← platform.ping cli
    given (ok (new_docker_client config))

  -- a connection whose error is only logged
  unfoldable pub grpc_connection : Text → Effect W (Option ℕ)
  grpc_connection target w = let (conn, v) = platform.grpc_client target w in (ok conn, v)

  unfoldable pub setup_components : Config → Loggers → MetricNames → Effect W Components
  unfolding new_rabbit start_docker_client new_with_retry grpc_connection given
  setup_components configs loggers metrics = do
    rmq ← new_rabbit platform.amqp configs.docker.env.rmq_addr configs.docker.env.chan_name
    dock ← start_docker_client configs.docker
    conn ← grpc_connection (ascii "auth:8801")
    access_conn ← grpc_connection (ascii "notes:8901")
    given (
        ok (record {
          docker = dock;
          rabbit = rmq;
          http_c = new_with_retry configs.http_client metrics loggers.http_c;
          grpc_auth = conn;
          grpc_access = access_conn;
        }))

  -- the loggers, which see the environment
  unfoldable pub make_loggers : LoggerConfig → Effect W Loggers
  unfolding setup_loggers
  make_loggers cfg w = (setup_loggers platform.process w cfg, w)

  unfoldable pub make_logger : LoggerConfig → Text → Effect W Logger
  unfolding new_logger
  make_logger cfg layer w = (new_logger platform.process w cfg layer, w)

  -- The environment, with the variables of .env, is all that `SetupConfigs` changes outside its store.
  unfoldable pub make_configs : Text → Effect W Config
  unfolding setup_configs
  make_configs configs_dir w =
      (setup_configs platform.viper configs_dir w, platform.viper.load_dotenv w)

  unfoldable pub new_app : Text → Effect W App
  unfolding make_logger make_configs make_loggers setup_components setup_layers init_healthchecks
      setup_metrics given
  new_app configs_dir = do
    init_logger ← make_logger init_config (ascii "init")
    configs ← make_configs configs_dir
    loggers ← make_loggers configs.logger
    metrics ← given (setup_metrics platform.collectors)
    components ← setup_components configs loggers metrics
    given (
        ok (record {
          configs = configs;
          health = init_healthchecks;
          layers = setup_layers configs components;
          metrics = metrics;
          init_logger = init_logger;
          loggers = loggers;
          components = components;
        }))

  -- main of cmd/api: the service that it runs; an error is a panic
  unfoldable pub raised : {A : Type 0} → Outcome A × W → Outcome A × W
  raised (ok a, w) = (ok a, w)
  raised (err x, w) = (panic, w)
  raised (panic, w) = (panic, w)

  unfoldable pub main_app : Text → Effect W App
  unfolding raised new_app
  main_app configs_path w = raised (new_app configs_path w)
