-- ===== src/Configs/Keys.antt =====
-- The constants of internal/configs/HTTPServerConfig.go and HTTPClientConfig.go. Durations are in
-- nanoseconds.
use noted_runner.Prelude.{ℕ, ◌*◌, Text, ascii}

-- time.Second
abbrev pub seconds : ℕ → ℕ
seconds n = n * 1_000_000_000

-- HTTPServerConfig.go
abbrev pub read_timeout_key : Text
read_timeout_key = ascii "http-server.read-timeout"

abbrev pub read_timeout_default : ℕ
read_timeout_default = seconds 5

abbrev pub write_timeout_key : Text
write_timeout_key = ascii "http-server.write-timeout"

abbrev pub write_timeout_default : ℕ
write_timeout_default = seconds 10

abbrev pub idle_timeout_key : Text
idle_timeout_key = ascii "http-server.idle-timeout"

abbrev pub idle_timeout_default : ℕ
idle_timeout_default = seconds 30

abbrev pub max_idle_worker_duration_key : Text
max_idle_worker_duration_key = ascii "http-server.max-idle-worker-duration"

abbrev pub default_worker_duration_default : ℕ
default_worker_duration_default = seconds 10

abbrev pub max_req_body_size_key : Text
max_req_body_size_key = ascii "http-server.max-req-body-size"

abbrev pub max_req_body_size_default : ℕ
max_req_body_size_default = 4 * 1_024 * 1_024

abbrev pub read_buffer_size_key : Text
read_buffer_size_key = ascii "http-server.read-buffer-size"

abbrev pub read_buffer_size_default : ℕ
read_buffer_size_default = 4 * 1_024

abbrev pub write_buffer_size_key : Text
write_buffer_size_key = ascii "http-server.write-buffer-size"

abbrev pub write_buffer_size_default : ℕ
write_buffer_size_default = 4 * 1_024

abbrev pub concurrency_key : Text
concurrency_key = ascii "http-server.concurrency"

abbrev pub concurrency_default : ℕ
concurrency_default = 256 * 1_024

abbrev pub max_conns_per_ip_key : Text
max_conns_per_ip_key = ascii "http-server.max-conns-per-ip"

abbrev pub max_conns_per_ip_default : ℕ
max_conns_per_ip_default = 100

abbrev pub max_requests_per_conn_key : Text
max_requests_per_conn_key = ascii "http-server.max-requests-per-conn"

abbrev pub max_requests_per_conn_default : ℕ
max_requests_per_conn_default = 1_000

abbrev pub tcp_keep_alive_period_key : Text
tcp_keep_alive_period_key = ascii "http-server.tcp-keepalive-period"

abbrev pub tcp_keep_alive_default : ℕ
tcp_keep_alive_default = seconds 180

-- HTTPClientConfig.go
abbrev pub max_retry_attempts_key : Text
max_retry_attempts_key = ascii "http-client.retries.max-attempts"

abbrev pub max_retry_attempts_default : ℕ
max_retry_attempts_default = 3

abbrev pub retry_base_delay_key : Text
retry_base_delay_key = ascii "http-client.retries.base-delay"

abbrev pub retry_base_delay_default : ℕ
retry_base_delay_default = 200_000_000

abbrev pub retry_max_delay_key : Text
retry_max_delay_key = ascii "http-client.retries.max-delay"

abbrev pub retry_max_delay_default : ℕ
retry_max_delay_default = seconds 3

abbrev pub retry_on_status_key : Text
retry_on_status_key = ascii "http-client.retries.on-status"

abbrev pub dial_timeout_key : Text
dial_timeout_key = ascii "http-client.dial-timeout"

abbrev pub dial_timeout_default : ℕ
dial_timeout_default = seconds 5

abbrev pub request_timeout_key : Text
request_timeout_key = ascii "http-client.request-timeout"

abbrev pub request_timeout_default : ℕ
request_timeout_default = seconds 30

abbrev pub keep_alive_key : Text
keep_alive_key = ascii "http-client.keep-alive"

abbrev pub request_keep_alive_default : ℕ
request_keep_alive_default = seconds 30

abbrev pub max_idle_conns_key : Text
max_idle_conns_key = ascii "http-client.max-idle-conns"

abbrev pub max_idle_conns_default : ℕ
max_idle_conns_default = 100

abbrev pub idle_conn_timeout_key : Text
idle_conn_timeout_key = ascii "http-client.idle-conn-timeout"

abbrev pub idle_conn_timeout_default : ℕ
idle_conn_timeout_default = seconds 90
