-- ===== src/Configs/Loaded.antt =====
-- The configuration is that of the constants where nothing overrides a default.
use noted_runner.Prelude.{◌≡◌, refl, ◌∙◌, Text, ascii, ok, text_eq}
use noted_runner.Configs.Keys.{
  concurrency_key, dial_timeout_key, idle_conn_timeout_key, idle_timeout_key, keep_alive_key,
  max_conns_per_ip_key, max_idle_conns_key, max_idle_worker_duration_key, max_req_body_size_key,
  max_requests_per_conn_key, max_retry_attempts_key, read_buffer_size_key, read_timeout_key,
  request_timeout_key, retry_base_delay_key, retry_max_delay_key, retry_on_status_key,
  tcp_keep_alive_period_key, write_buffer_size_key, write_timeout_key,
}
use noted_runner.Configs.{Merge, merged, not_found, merge_failed, Viper, Documented}
use noted_runner.Configs.Defaults.{
  service_defaults, http_server_defaults, http_client_defaults, retry_defaults, logger_defaults,
  docker_defaults, volume_defaults, env_defaults,
}
use noted_runner.Configs.Sections.{
  load_service, load_http_server, load_http_client, load_retry, load_logger, load_docker,
  load_volume, load_env,
}
use noted_runner.Configs.Setup.{
  all_defaults, zero_config, load_sections, configured, with_env, after_merge, load, setup_configs,
}
use noted_runner.Configs.Values.{
  default_config, set_value, final, Quiet, text_at-final, int_at-final, duration_at-final,
  bool_at-final, ints_at-final,
}

module _ {V : Type 0} (vp : Viper V) (doc : Documented vp) (path : Text) (v : V) where
  module _ (quiet : Quiet vp doc path v) where
    load_volume-default : load_volume vp (final vp doc path v) ≡ ok default_config.docker.volume
    unfolding load_volume set_value all_defaults service_defaults http_server_defaults
        http_client_defaults logger_defaults docker_defaults volume_defaults env_defaults
        retry_defaults text_eq
    load_volume-default = rw (
      load_volume,
      text_at-final vp doc path v quiet (ascii "docker.volume.source") _ refl,
      text_at-final vp doc path v quiet (ascii "docker.volume.target") _ refl,
    )

    load_env-default : load_env vp (final vp doc path v) ≡ ok default_config.docker.env
    unfolding load_env set_value all_defaults service_defaults http_server_defaults
        http_client_defaults logger_defaults docker_defaults volume_defaults env_defaults
        retry_defaults text_eq
    load_env-default = rw (
      load_env,
      text_at-final vp doc path v quiet (ascii "docker.env.rmq_addr") _ refl,
      text_at-final vp doc path v quiet (ascii "docker.env.mount_path") _ refl,
      text_at-final vp doc path v quiet (ascii "docker.env.export_prefix") _ refl,
      text_at-final vp doc path v quiet (ascii "docker.env.block_prefix") _ refl,
      text_at-final vp doc path v quiet (ascii "docker.env.chan_name") _ refl,
      duration_at-final vp doc path v quiet (ascii "docker.env.block_timeout") _ refl,
    )

    load_docker-default : load_docker vp (final vp doc path v) ≡ ok default_config.docker
    unfolding load_docker set_value all_defaults service_defaults http_server_defaults
        http_client_defaults logger_defaults docker_defaults volume_defaults env_defaults
        retry_defaults text_eq
    load_docker-default = rw (
      load_docker,
      text_at-final vp doc path v quiet (ascii "docker.host") _ refl,
      text_at-final vp doc path v quiet (ascii "docker.image") _ refl,
      text_at-final vp doc path v quiet (ascii "docker.network") _ refl,
      text_at-final vp doc path v quiet (ascii "docker.prefix") _ refl,
      text_at-final vp doc path v quiet (ascii "docker.app-port") _ refl,
      load_volume-default,
      load_env-default,
    )

    load_retry-default :
        load_retry vp (final vp doc path v) ≡ ok default_config.http_client.retry_policy
    unfolding load_retry set_value all_defaults service_defaults http_server_defaults
        http_client_defaults logger_defaults docker_defaults volume_defaults env_defaults
        retry_defaults text_eq
    load_retry-default = rw (
      load_retry,
      ints_at-final vp doc path v quiet retry_on_status_key _ refl,
      int_at-final vp doc path v quiet max_retry_attempts_key _ refl,
      duration_at-final vp doc path v quiet retry_base_delay_key _ refl,
      duration_at-final vp doc path v quiet retry_max_delay_key _ refl,
    )

    load_http_client-default :
        load_http_client vp (final vp doc path v) ≡ ok default_config.http_client
    unfolding load_http_client set_value all_defaults service_defaults http_server_defaults
        http_client_defaults logger_defaults docker_defaults volume_defaults env_defaults
        retry_defaults text_eq
    load_http_client-default = rw (
      load_http_client,
      duration_at-final vp doc path v quiet dial_timeout_key _ refl,
      duration_at-final vp doc path v quiet request_timeout_key _ refl,
      duration_at-final vp doc path v quiet keep_alive_key _ refl,
      int_at-final vp doc path v quiet max_idle_conns_key _ refl,
      duration_at-final vp doc path v quiet idle_conn_timeout_key _ refl,
      load_retry-default,
    )

    load_http_server-default :
        load_http_server vp (final vp doc path v) ≡ ok default_config.http_server
    unfolding load_http_server set_value all_defaults service_defaults http_server_defaults
        http_client_defaults logger_defaults docker_defaults volume_defaults env_defaults
        retry_defaults text_eq
    load_http_server-default = rw (
      load_http_server,
      duration_at-final vp doc path v quiet read_timeout_key _ refl,
      duration_at-final vp doc path v quiet write_timeout_key _ refl,
      duration_at-final vp doc path v quiet idle_timeout_key _ refl,
      duration_at-final vp doc path v quiet max_idle_worker_duration_key _ refl,
      int_at-final vp doc path v quiet max_req_body_size_key _ refl,
      int_at-final vp doc path v quiet read_buffer_size_key _ refl,
      int_at-final vp doc path v quiet write_buffer_size_key _ refl,
      int_at-final vp doc path v quiet concurrency_key _ refl,
      int_at-final vp doc path v quiet max_conns_per_ip_key _ refl,
      int_at-final vp doc path v quiet max_requests_per_conn_key _ refl,
      duration_at-final vp doc path v quiet tcp_keep_alive_period_key _ refl,
    )

    load_service-default : load_service vp (final vp doc path v) ≡ ok default_config.service
    unfolding load_service set_value all_defaults service_defaults http_server_defaults
        http_client_defaults logger_defaults docker_defaults volume_defaults env_defaults
        retry_defaults text_eq
    load_service-default = rw (
      load_service,
      int_at-final vp doc path v quiet (ascii "service.port") _ refl,
      text_at-final vp doc path v quiet (ascii "service.base-path") _ refl,
      int_at-final vp doc path v quiet (ascii "service.metrics-port") _ refl,
      text_at-final vp doc path v quiet (ascii "service.metrics-endpoint") _ refl,
      duration_at-final vp doc path v quiet (ascii "service.compile-timeout") _ refl,
      duration_at-final vp doc path v quiet (ascii "service.cmd-timeout") _ refl,
    )

    load_logger-default : load_logger vp (final vp doc path v) ≡ ok default_config.logger
    unfolding load_logger set_value all_defaults service_defaults http_server_defaults
        http_client_defaults logger_defaults docker_defaults volume_defaults env_defaults
        retry_defaults text_eq
    load_logger-default = rw (
      load_logger,
      text_at-final vp doc path v quiet (ascii "service.log-level") _ refl,
      bool_at-final vp doc path v quiet (ascii "service.log-add-source") _ refl,
      duration_at-final vp doc path v quiet (ascii "service.log-timeout") _ refl,
      int_at-final vp doc path v quiet (ascii "service.log-max-file-size") _ refl,
      int_at-final vp doc path v quiet (ascii "service.log-max-backups") _ refl,
      int_at-final vp doc path v quiet (ascii "service.log-max-age") _ refl,
    )

    load_sections-default : load_sections vp (final vp doc path v) ≡ ok default_config
    unfolding load_sections
    load_sections-default = rw (
      load_sections, load_service-default, load_http_server-default, load_http_client-default,
      load_logger-default, load_docker-default,
    )

after_merge-merged :
    {V : Type 0} (vp : Viper V) (r : Merge × V)
    → r.0 ≡ merged
    → after_merge vp r ≡ load_sections vp (with_env vp r.1)
unfolding after_merge
after_merge-merged vp (merged, v) e = refl
after_merge-merged vp (not_found, v) e = cc
after_merge-merged vp (merge_failed x, v) e = cc

pub after_merge-not_found :
    {V : Type 0} (vp : Viper V) (r : Merge × V)
    → r.0 ≡ not_found
    → after_merge vp r ≡ ok zero_config
unfolding after_merge zero_config
after_merge-not_found vp (merged, v) e = cc
after_merge-not_found vp (not_found, v) e = refl
after_merge-not_found vp (merge_failed x, v) e = cc

-- Where the file is merged and nothing overrides a setting, `SetupConfigs` succeeds, and each field of
-- each section is the constant that the section's SetDefaults gives for it.
pub setup_configs-defaults :
    {V : Type 0} (vp : Viper V) (doc : Documented vp) (configs_dir : Text) (v : V)
    → (vp.merge_in_config (configured vp configs_dir (vp.load_dotenv v))).0 ≡ merged
    → Quiet vp doc configs_dir (vp.load_dotenv v)
    → setup_configs vp configs_dir v ≡ ok default_config
unfolding setup_configs load
setup_configs-defaults vp doc configs_dir v merges quiet =
    after_merge-merged vp _ merges
    ∙ load_sections-default vp doc configs_dir (vp.load_dotenv v) quiet
