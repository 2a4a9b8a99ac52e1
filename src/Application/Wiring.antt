-- ===== src/Application/Wiring.antt =====
-- How the parts of the service that `NewApp` returns are joined.
use noted_runner.Prelude.{◌≡◌, refl, sym, ap, ◌∙◌, [], ◌∷◌, ◌++◌, Text, ascii, ok}
use noted_runner.Effects.{Returns, Returns-proceed, Returns-given, Returns-ok}
use noted_runner.Configs.{Config, DockerConfig, merged, Documented}
use noted_runner.Configs.Setup.{setup_configs, configured}
use noted_runner.Configs.Values.{Quiet}
use noted_runner.Configs.Loaded.{setup_configs-defaults}
use noted_runner.Logger.{Loggers, setup_loggers}
use noted_runner.Metrics.{MetricNames}
use noted_runner.Rabbit.{new_rabbit}
use noted_runner.Docker.{DockerClient, new_docker_client}
use noted_runner.Usecase.{new_compiler_usecase}
use noted_runner.Application.{
  Platform, App, Components, new_with_retry, new_app, make_logger, make_configs, make_loggers,
  setup_components, setup_layers, start_docker_client, router_of, Router, new_router,
}

same_ok : {A : Type 0} {a b : A} → ok a ≡ ok b → a ≡ b
same_ok e = cc

module _ {W : Type 0} (platform : Platform W) where
  -- The queue is that of the configured address and name, and the clients have the configured
  -- settings.
  unfoldable pub Fitted : Config → Loggers → MetricNames → Components → Type 0
  Fitted configs loggers metrics c =
      ((u : W) × (v : W) × (new_rabbit platform.amqp configs.docker.env.rmq_addr
            configs.docker.env.chan_name u
          ≡ (ok c.rabbit, v)))
      × (c.docker ≡ new_docker_client configs.docker)
      × (c.http_c ≡ new_with_retry configs.http_client metrics loggers.http_c)

  Connected : DockerConfig → DockerClient → Type 0
  Connected config client = client ≡ new_docker_client config

  start_docker_client-Connected :
      (config : DockerConfig) (w : W)
      → Returns (Connected config) (start_docker_client platform config w)
  unfolding start_docker_client Connected
  start_docker_client-Connected config w = Returns-proceed (Connected config) _ _ (λ a u e.
      Returns-proceed (Connected config) _ _ (λ cli u1 e1.
        Returns-proceed (Connected config) _ _
          (λ b u2 e2. Returns-given (Connected config) _ u2 refl)))

  setup_components-Fitted :
      (configs : Config) (loggers : Loggers) (metrics : MetricNames) (w : W)
      → Returns
          (Fitted configs loggers metrics)
          (setup_components platform configs loggers metrics w)
  unfolding setup_components Fitted Connected
  setup_components-Fitted configs loggers metrics w =
      let P = Fitted configs loggers metrics in
      Returns-proceed P _ _ (λ rmq u e. Returns-proceed P _ _ (λ dock u1 e1.
        Returns-proceed P _ _ (λ conn u2 e2. Returns-proceed P _ _ (λ access u3 e3.
          Returns-given P _ u3 (
            (w, u, e),
            Returns-ok (Connected configs.docker) _ dock u1
                (start_docker_client-Connected configs.docker u) e1,
            refl,
          )))))

  -- the configuration is the one that is read, and all parts have it
  unfoldable pub Wired : Text → W → App → Type 0
  Wired configs_dir w app =
      (setup_configs platform.viper configs_dir w ≡ ok app.configs)
      × (setup_loggers platform.process (platform.viper.load_dotenv w) app.configs.logger
          ≡ ok app.loggers)
      × Fitted app.configs app.loggers app.metrics app.components
      × (app.layers.usecase
          ≡ new_compiler_usecase app.components.docker app.configs.docker.env.mount_path
              app.configs.docker.prefix)
      × (app.layers.consumer_queue ≡ app.components.rabbit.queue)

  new_app-Wired :
      (configs_dir : Text) (w : W) → Returns (Wired configs_dir w) (new_app platform configs_dir w)
  unfolding new_app make_logger make_configs make_loggers setup_layers Wired
  new_app-Wired configs_dir w =
      let P = Wired configs_dir w in
      Returns-proceed P _ _ (λ init_logger u e. Returns-proceed P _ _ (λ configs u1 e1.
        Returns-proceed P _ _ (λ loggers u2 e2. Returns-proceed P _ _ (λ metrics u4 e4.
          Returns-proceed P _ _ (λ components u3 e3. Returns-given P _ u3 (
            ap (setup_configs platform.viper configs_dir) (ap (λ r. r.1) e) ∙ ap (λ r. r.0) e1,
            ap (λ z. setup_loggers platform.process (platform.viper.load_dotenv z) configs.logger)
                  (ap (λ r. r.1) e)
                ∙ ap (λ z. setup_loggers platform.process z configs.logger) (ap (λ r. r.1) e1)
                ∙ ap (λ r. r.0) e2,
            Returns-ok (Fitted configs loggers metrics) _ components u3
                (setup_components-Fitted configs loggers metrics u4) e3,
            refl,
            refl,
          ))))))

  -- A service that `NewApp` returns has the configuration that `SetupConfigs` reads and the loggers
  -- that this configuration and the environment give. Its queue is the one that `NewRabbit` returned
  -- for the configured address and name, its clients are those of the configured sections, its use
  -- case has the configured path and prefix, and its consumer reads the deliveries of that queue.
  pub new_app-ok :
      (configs_dir : Text) (w v : W) (app : App)
      → new_app platform configs_dir w ≡ (ok app, v)
      → Wired configs_dir w app
  new_app-ok configs_dir w v app e =
      Returns-ok (Wired configs_dir w) _ app v (new_app-Wired configs_dir w) e

  -- Where a file is found and nothing overrides a default, the routes of a service that `NewApp`
  -- returns are those that the library for the metrics registers on the new router and then
  -- /api/v1/compiler/ws/, and its port is 8800 and its path /noted/codes/kernels.
  pub new_app-defaults :
      (use_prometheus : Router → Router) (doc : Documented platform.viper) (configs_dir : Text)
      (w v : W) (app : App)
      → (platform.viper.merge_in_config
          (configured platform.viper configs_dir (platform.viper.load_dotenv w))).0
        ≡ merged
      → Quiet platform.viper doc configs_dir (platform.viper.load_dotenv w)
      → new_app platform configs_dir w ≡ (ok app, v)
      → ((router_of use_prometheus app.configs).routes
          ≡ (use_prometheus new_router).routes ++ ascii "/api/v1/compiler/ws/" ∷ [])
        × (app.configs.service.port ≡ 8_800)
        × (app.layers.usecase.mount_path ≡ ascii "/noted/codes/kernels")
  unfolding Wired router_of new_compiler_usecase
  new_app-defaults use_prometheus doc configs_dir w v app merges quiet e =
      let wired = new_app-ok configs_dir w v app e in
      let same =
        same_ok
          (sym wired.0 ∙ setup_configs-defaults platform.viper doc configs_dir w merges quiet) in
      (
        ap (λ c. (router_of use_prometheus c).routes) same,
        ap (λ c. c.service.port) same,
        ap (λ u. u.mount_path) wired.3 ∙ ap (λ c. c.docker.env.mount_path) same,
      )
