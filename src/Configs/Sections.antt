-- ===== src/Configs/Sections.antt =====
-- internal/configs/Docker.go, HTTPClientConfig.go, HTTPServerConfig.go, Service.go and Logger.go:
-- `Load` of each section.
use noted_runner.Prelude.{ℕ, Text, ascii, Outcome, ok, ◌>>=◌, or_panic}
use noted_runner.Configs.Keys.{
  concurrency_key, dial_timeout_key, idle_conn_timeout_key, idle_timeout_key, keep_alive_key,
  max_conns_per_ip_key, max_idle_conns_key, max_idle_worker_duration_key, max_req_body_size_key,
  max_requests_per_conn_key, max_retry_attempts_key, read_buffer_size_key, read_timeout_key,
  request_timeout_key, retry_base_delay_key, retry_max_delay_key, retry_on_status_key,
  tcp_keep_alive_period_key, write_buffer_size_key, write_timeout_key,
}
use noted_runner.Configs.{
  VolumeConfig, EnvConfig, DockerConfig, HttpRetryPolicyConfig, HttpClientConfig, HttpServerConfig,
  ServiceConfig, LoggerConfig, Viper,
}

module _ {V : Type 0} (vp : Viper V) where
  abbrev text_at : Text → V → Outcome Text
  text_at k v = or_panic (vp.get_string k v)

  abbrev int_at : Text → V → Outcome ℕ
  int_at k v = or_panic (vp.get_int k v)

  abbrev duration_at : Text → V → Outcome ℕ
  duration_at k v = or_panic (vp.get_duration k v)

  unfoldable pub load_volume : V → Outcome VolumeConfig
  load_volume v = do
    source ← text_at (ascii "docker.volume.source") v
    target ← text_at (ascii "docker.volume.target") v
    ok (record { source = source; target = target })

  unfoldable pub load_env : V → Outcome EnvConfig
  load_env v = do
    rmq_addr ← text_at (ascii "docker.env.rmq_addr") v
    mount_path ← text_at (ascii "docker.env.mount_path") v
    export_prefix ← text_at (ascii "docker.env.export_prefix") v
    block_prefix ← text_at (ascii "docker.env.block_prefix") v
    chan_name ← text_at (ascii "docker.env.chan_name") v
    block_timeout ← duration_at (ascii "docker.env.block_timeout") v
    ok (record {
      rmq_addr = rmq_addr;
      mount_path = mount_path;
      export_prefix = export_prefix;
      block_prefix = block_prefix;
      chan_name = chan_name;
      block_timeout = block_timeout;
    })

  unfoldable pub load_docker : V → Outcome DockerConfig
  unfolding load_volume load_env
  load_docker v = do
    host ← text_at (ascii "docker.host") v
    image ← text_at (ascii "docker.image") v
    network ← text_at (ascii "docker.network") v
    prefix ← text_at (ascii "docker.prefix") v
    app_port ← text_at (ascii "docker.app-port") v
    volume ← load_volume v
    env ← load_env v
    ok (record {
      volume = volume;
      env = env;
      host = host;
      image = image;
      network = network;
      prefix = prefix;
      app_port = app_port;
    })

  unfoldable pub load_retry : V → Outcome HttpRetryPolicyConfig
  load_retry v = do
    retry_on_status ← or_panic (vp.get_int_slice retry_on_status_key v)
    max_attempts ← int_at max_retry_attempts_key v
    base_delay ← duration_at retry_base_delay_key v
    max_delay ← duration_at retry_max_delay_key v
    ok (record {
      max_attempts = max_attempts;
      base_delay = base_delay;
      max_delay = max_delay;
      retry_on_status = retry_on_status;
    })

  unfoldable pub load_http_client : V → Outcome HttpClientConfig
  unfolding load_retry
  load_http_client v = do
    dial_timeout ← duration_at dial_timeout_key v
    request_timeout ← duration_at request_timeout_key v
    keep_alive ← duration_at keep_alive_key v
    max_idle_conns ← int_at max_idle_conns_key v
    idle_conn_timeout ← duration_at idle_conn_timeout_key v
    retry_policy ← load_retry v
    ok (record {
      dial_timeout = dial_timeout;
      request_timeout = request_timeout;
      keep_alive = keep_alive;
      max_idle_conns = max_idle_conns;
      idle_conn_timeout = idle_conn_timeout;
      retry_policy = retry_policy;
    })

  unfoldable pub load_http_server : V → Outcome HttpServerConfig
  load_http_server v = do
    read_timeout ← duration_at read_timeout_key v
    write_timeout ← duration_at write_timeout_key v
    idle_timeout ← duration_at idle_timeout_key v
    worker ← duration_at max_idle_worker_duration_key v
    max_req_body_size ← int_at max_req_body_size_key v
    read_buffer_size ← int_at read_buffer_size_key v
    write_buffer_size ← int_at write_buffer_size_key v
    concurrency ← int_at concurrency_key v
    max_conns_per_ip ← int_at max_conns_per_ip_key v
    max_requests_per_conn ← int_at max_requests_per_conn_key v
    tcp_keep_alive_period ← duration_at tcp_keep_alive_period_key v
    ok (record {
      read_timeout = read_timeout;
      write_timeout = write_timeout;
      idle_timeout = idle_timeout;
      max_idle_worker_duration = worker;
      max_req_body_size = max_req_body_size;
      read_buffer_size = read_buffer_size;
      write_buffer_size = write_buffer_size;
      concurrency = concurrency;
      max_conns_per_ip = max_conns_per_ip;
      max_requests_per_conn = max_requests_per_conn;
      tcp_keep_alive_period = tcp_keep_alive_period;
    })

  unfoldable pub load_service : V → Outcome ServiceConfig
  load_service v = do
    port ← int_at (ascii "service.port") v
    base_path ← text_at (ascii "service.base-path") v
    metrics_port ← int_at (ascii "service.metrics-port") v
    metrics_endpoint ← text_at (ascii "service.metrics-endpoint") v
    compile_timeout ← duration_at (ascii "service.compile-timeout") v
    cmd_timeout ← duration_at (ascii "service.cmd-timeout") v
    ok (record {
      port = port;
      base_path = base_path;
      metrics_port = metrics_port;
      metrics_endpoint = metrics_endpoint;
      compile_timeout = compile_timeout;
      cmd_timeout = cmd_timeout;
    })

  unfoldable pub load_logger : V → Outcome LoggerConfig
  load_logger v = do
    log_level ← text_at (ascii "service.log-level") v
    log_add_source ← or_panic (vp.get_bool (ascii "service.log-add-source") v)
    log_timeout ← duration_at (ascii "service.log-timeout") v
    log_max_file_size ← int_at (ascii "service.log-max-file-size") v
    log_max_backups ← int_at (ascii "service.log-max-backups") v
    log_max_age ← int_at (ascii "service.log-max-age") v
    ok (record {
      log_level = log_level;
      log_timeout = log_timeout;
      log_add_source = log_add_source;
      log_max_file_size = log_max_file_size;
      log_max_backups = log_max_backups;
      log_max_age = log_max_age;
    })
