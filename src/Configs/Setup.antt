-- ===== src/Configs/Setup.antt =====
-- internal/configs/viper.go and configs.go: `Load` and `SetupConfigs`.
use noted_runner.Prelude.{false, [], ◌++◌, Text, ascii, Outcome, ok, err, ◌>>=◌}
use noted_runner.Configs.{Config, Merge, merged, not_found, merge_failed, Viper}
use noted_runner.Configs.Defaults.{
  Settings, service_defaults, http_server_defaults, http_client_defaults, logger_defaults,
  docker_defaults, set_defaults,
}
use noted_runner.Configs.Sections.{
  load_service, load_http_server, load_http_client, load_logger, load_docker,
}

-- the defaults of all sections, in the order in which `Load` sets them
unfoldable pub all_defaults : Settings
unfolding service_defaults http_server_defaults http_client_defaults logger_defaults docker_defaults
all_defaults =
    service_defaults ++ http_server_defaults ++ http_client_defaults ++ logger_defaults
    ++ docker_defaults

-- the sections before `Load`: zero values
unfoldable pub zero_config : Config
zero_config = record {
  docker = record {
    volume = record { source = []; target = [] };
    env = record {
      rmq_addr = [];
      mount_path = [];
      export_prefix = [];
      block_prefix = [];
      chan_name = [];
      block_timeout = 0;
    };
    host = [];
    image = [];
    network = [];
    prefix = [];
    app_port = [];
  };
  http_client = record {
    dial_timeout = 0;
    request_timeout = 0;
    keep_alive = 0;
    max_idle_conns = 0;
    idle_conn_timeout = 0;
    retry_policy = record { max_attempts = 0; base_delay = 0; max_delay = 0; retry_on_status = [] };
  };
  http_server = record {
    read_timeout = 0;
    write_timeout = 0;
    idle_timeout = 0;
    max_idle_worker_duration = 0;
    max_req_body_size = 0;
    read_buffer_size = 0;
    write_buffer_size = 0;
    concurrency = 0;
    max_conns_per_ip = 0;
    max_requests_per_conn = 0;
    tcp_keep_alive_period = 0;
  };
  service = record {
    port = 0;
    base_path = [];
    metrics_port = 0;
    metrics_endpoint = [];
    compile_timeout = 0;
    cmd_timeout = 0;
  };
  logger = record {
    log_level = [];
    log_timeout = 0;
    log_add_source = false;
    log_max_file_size = 0;
    log_max_backups = 0;
    log_max_age = 0;
  };
}

module _ {V : Type 0} (vp : Viper V) where
  -- the loop that loads the sections
  unfoldable pub load_sections : V → Outcome Config
  unfolding load_service load_http_server load_http_client load_logger load_docker
  load_sections v = do
    service ← load_service vp v
    http_server ← load_http_server vp v
    http_client ← load_http_client vp v
    logger ← load_logger vp v
    docker ← load_docker vp v
    ok (record {
      docker = docker;
      http_client = http_client;
      http_server = http_server;
      service = service;
      logger = logger;
    })

  -- the store when the file is merged
  unfoldable pub configured : Text → V → V
  unfolding set_defaults all_defaults
  configured path v = vp.set_config_type (ascii "yaml") (
      vp.set_config_name (ascii "config") (
        vp.add_config_path (ascii "./") (vp.add_config_path path (set_defaults vp all_defaults v))))

  -- the store from which the sections are loaded
  unfoldable pub with_env : V → V
  with_env v = vp.automatic_env (vp.set_env_key_replacer (ascii ".") (ascii "_") v)

  unfoldable pub after_merge : Merge × V → Outcome Config
  unfolding load_sections with_env zero_config
  after_merge (merged, v) = load_sections (with_env v)
  after_merge (not_found, v) = ok zero_config
  after_merge (merge_failed x, v) = err (ascii "failed to merge config: " ++ x)

  -- `Load`, with the sections that it fills
  unfoldable pub load : Text → V → Outcome Config
  unfolding after_merge configured
  load path v = after_merge (vp.merge_in_config (configured path v))

  -- `SetupConfigs`
  unfoldable pub setup_configs : Text → V → Outcome Config
  unfolding load
  setup_configs configs_dir v = load configs_dir (vp.load_dotenv v)
