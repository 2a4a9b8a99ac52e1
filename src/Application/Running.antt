-- ===== src/Application/Running.antt =====
-- internal/application/app.go, `Run`: the settings of the HTTP server, and the shutdown.
use noted_runner.Prelude.{ℕ, ◌*◌, ◌≡◌, Option, none, some, Text, ascii, ◌++◌, ok, panic}
use noted_runner.Effects.{Effect}
use noted_runner.Strings.{itoa}
use noted_runner.Configs.{Config}
use noted_runner.Rabbit.{close, close-new_rabbit, Crashes}
use noted_runner.Application.{Platform, App, new_app}
use noted_runner.Application.Wiring.{Wired, Fitted, new_app-ok}

-- the fields of fasthttp.Server that `Run` sets, with the address that is listened on
pub record HttpServer : Type 0 where
  pub read_timeout : ℕ
  pub write_timeout : ℕ
  pub idle_timeout : ℕ
  pub max_request_body_size : ℕ
  pub read_buffer_size : ℕ
  pub write_buffer_size : ℕ
  pub concurrency : ℕ
  pub max_conns_per_ip : ℕ
  pub max_requests_per_conn : ℕ
  pub tcp_keepalive_period : ℕ
  pub address : Text

unfoldable pub http_server : Config → HttpServer
http_server c = record {
  read_timeout = c.http_server.read_timeout;
  write_timeout = c.http_server.write_timeout;
  idle_timeout = c.http_server.idle_timeout;
  max_request_body_size = c.http_server.max_req_body_size;
  read_buffer_size = 1_024 * 1_024;
  write_buffer_size = c.http_server.write_buffer_size;
  concurrency = c.http_server.concurrency;
  max_conns_per_ip = c.http_server.max_conns_per_ip;
  max_requests_per_conn = c.http_server.max_requests_per_conn;
  tcp_keepalive_period = c.http_server.tcp_keep_alive_period;
  address = ascii ":" ++ itoa c.service.port;
}

module _ {W : Type 0} (platform : Platform W) (shutdown : W → Option Text × W) where
  -- what `Run` does after the signal: an error of the server's shutdown is only logged
  unfoldable pub stop : App → Effect W (Unit {0})
  unfolding close
  stop app w = let (x, v) = shutdown w in close platform.amqp app.components.rabbit v

  -- The shutdown of a service that `NewApp` returned panics where the channel of its queue cannot be
  -- closed, and then leaves the connection open; it also panics where the channel is closed and the
  -- connection cannot be. Where both are closed it succeeds, whatever the HTTP server reports.
  pub stop-new_app :
      (configs_dir : Text) (w v : W) (app : App)
      → new_app platform configs_dir w ≡ (ok app, v)
      → (ch : ℕ) × (conn : ℕ) × (app.components.rabbit.channel ≡ some ch)
        × (app.components.rabbit.conn ≡ some conn)
        × ((u t : W) (x : Text)
            → platform.amqp.close_channel ch (shutdown u).1 ≡ (some x, t)
            → stop app u ≡ (panic, t))
        × ((u t s : W) (x : Text)
            → platform.amqp.close_channel ch (shutdown u).1 ≡ (none, t)
            → platform.amqp.close_connection conn t ≡ (some x, s)
            → stop app u ≡ (panic, s))
        × ((u t s : W)
            → platform.amqp.close_channel ch (shutdown u).1 ≡ (none, t)
            → platform.amqp.close_connection conn t ≡ (none, s)
            → stop app u ≡ (ok tt, s))
  unfolding stop Wired Fitted Crashes
  stop-new_app configs_dir w v app e =
      let wired = new_app-ok platform configs_dir w v app e in
      let (u0, u1, made) = wired.2.0 in
      let (ch, conn, has_ch, has_conn, crashes) =
        close-new_rabbit platform.amqp app.configs.docker.env.rmq_addr
          app.configs.docker.env.chan_name u0 u1 app.components.rabbit made in
      (
        ch,
        conn,
        has_ch,
        has_conn,
        λ u t x. crashes.0 (shutdown u).1 t x,
        λ u t s x. crashes.1 (shutdown u).1 t s x,
        λ u t s. crashes.2 (shutdown u).1 t s,
      )
