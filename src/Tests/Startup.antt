-- ===== src/Tests/Startup.antt =====
-- The start of the service, with a store that keeps the defaults and a world outside that answers.
use noted_runner.Prelude.{
  contains, ℕ, ◌+◌, ◌%◌, ◌≡◌, ◌++◌, refl, arith, true, false, ◌⊎◌, ◌≤◌, ◌<◌, Option, none, some, [],
  ◌∷◌, Text, ascii, text_eq, if◌then◌else◌, ok, panic, length, All,
}
use noted_runner.Effects.{proceed, given}
use noted_runner.Configs.{Merge, merged, not_found}
use noted_runner.Configs.Defaults.{Settings}
use noted_runner.Configs.Setup.{zero_config}
use noted_runner.Configs.Values.{default_config}
use noted_runner.Metrics.{metric_names, setup_metrics, must_register, new_http_request_metrics}
use noted_runner.Logger.{
  Logger, Loggers, info_level, new_logger, setup_loggers, level_of, commit_hash_of, pod_name_of,
}
use noted_runner.Rabbit.{new_rabbit}
use noted_runner.Docker.{new_docker_client}
use noted_runner.Application.{
  Platform, App, Components, new_app, make_logger, make_configs, make_loggers, setup_components,
  setup_layers, start_docker_client, grpc_connection, init_healthchecks, new_with_retry, router_of,
  Router, new_router,
}
use noted_runner.Application.Startup.{new_app-no_file}
use noted_runner.Application.Wiring.{new_app-defaults}
use noted_runner.Application.Running.{stop, stop-new_app}
use noted_runner.Application.Shutdown.{
  returned, shutting, closing, Running, spawned, Step, here, next, signalled, shut_down, left,
  Reach-returns,
}
use noted_runner.Random.{IsAlnum, not_safe_gen_random_string, not_safe_gen_random_string-IsAlnum}
use noted_runner.Tests.Store.{
  viper_with, documented, default_of, text_of, int_of, bool_of, duration_of, ints_of,
}

-- The world outside answers, and the commit is known to the environment. The argument is what comes
-- of closing a channel.
abbrev platform_closing : Option Text → Merge → Platform Settings
platform_closing closed merge = record {
  viper = viper_with merge;
  process = record {
    lookup_env =
        λ name v. if text_eq name (ascii "CI_COMMIT_HASH") then some (ascii "abc") else none;
    git_head = λ v. none;
    pid = 7;
  };
  amqp = record {
    dial = λ address v. (ok 1, v);
    open_channel = λ conn v. (ok 2, v);
    queue_declare = λ ch name durable auto_delete exclusive no_wait v. (ok name, v);
    consume = λ ch queue consumer auto_ack exclusive no_local no_wait v. (ok 3, v);
    close_channel = λ ch v. (closed, v);
    close_connection = λ conn v. (none, v);
  };
  collectors = ascii "go_goroutines" ∷ ascii "process_cpu_seconds_total" ∷ [];
  set_env = λ name x v. (ok tt, v);
  new_engine_client = λ v. (ok 4, v);
  ping = λ client v. (ok tt, v);
  grpc_client = λ target v. (some 5, v);
}

abbrev platform_with : Merge → Platform Settings
platform_with merge = platform_closing (some (ascii "closed")) merge

new_app-no_file_example : (new_app (platform_with not_found) (ascii "/cfg") []).0 ≡ panic
new_app-no_file_example = new_app-no_file (platform_with not_found) (ascii "/cfg") [] refl

abbrev logger_of : Text → Text → ℕ → ℕ → ℕ → Logger
logger_of filename layer size backups age = record {
  filename = filename;
  max_size = size;
  max_backups = backups;
  max_age = age;
  compress = true;
  add_source = true;
  level = info_level;
  pid = 7;
  commit_hash = ascii "abc";
  pod_name = ascii "000000";
  layer = layer;
}

abbrev all_loggers : Loggers
all_loggers = record {
  http = logger_of (ascii "/var/log/noted-runner/http-server.log") (ascii "http-server") 100 3 28;
  http_c = logger_of (ascii "/var/log/noted-runner/http-client.log") (ascii "http-client") 100 3 28;
  service = logger_of (ascii "/var/log/noted-runner/service.log") (ascii "service") 100 3 28;
  repo = logger_of (ascii "/var/log/noted-runner/repo.log") (ascii "repo") 100 3 28;
  infra = logger_of (ascii "/var/log/noted-runner/infra.log") (ascii "infra") 100 3 28;
}

abbrev connected : Components
connected = record {
  docker = new_docker_client default_config.docker;
  rabbit = record { conn = some 1; channel = some 2; logger = none; queue = 3 };
  http_c =
      new_with_retry default_config.http_client (metric_names (ascii "runner_get"))
        all_loggers.http_c;
  grpc_auth = some 5;
  grpc_access = some 5;
}

abbrev started_app : App
started_app = record {
  configs = default_config;
  health = init_healthchecks;
  layers = setup_layers default_config connected;
  metrics = metric_names (ascii "runner_get");
  init_logger = logger_of (ascii "/var/log/noted-runner/init.log") (ascii "init") 0 0 0;
  loggers = all_loggers;
  components = connected;
}

abbrev full : Settings
full = (new_app (platform_with merged) (ascii "/cfg") []).1

starts_closing :
    (closed : Option Text)
    → new_app (platform_closing closed merged) (ascii "/cfg") [] ≡ (ok started_app, full)
unfolding new_app make_logger make_configs make_loggers setup_components new_rabbit given
    start_docker_client grpc_connection new_logger setup_loggers level_of commit_hash_of pod_name_of
    proceed default_of text_eq zero_config int_of text_of duration_of ints_of bool_of setup_metrics
    must_register metric_names new_http_request_metrics contains
starts_closing closed = refl

starts : new_app (platform_with merged) (ascii "/cfg") [] ≡ (ok started_app, full)
starts = starts_closing (some (ascii "closed"))

-- a library that serves its metrics under one path
abbrev use_metrics : Router → Router
use_metrics r = record { routes = r.routes ++ ascii "/metrics" ∷ [] }

new_app-defaults_example :
    ((router_of use_metrics started_app.configs).routes
      ≡ (use_metrics new_router).routes ++ ascii "/api/v1/compiler/ws/" ∷ [])
    × (started_app.configs.service.port ≡ 8_800)
    × (started_app.layers.usecase.mount_path ≡ ascii "/noted/codes/kernels")
unfolding documented
new_app-defaults_example =
    new_app-defaults (platform_with merged) use_metrics documented (ascii "/cfg") [] full
      started_app refl (λ k. refl) starts

abbrev no_error : Settings → Option Text × Settings
no_error v = (none, v)

stop-new_app_example :
    (ch : ℕ) × (conn : ℕ) × (started_app.components.rabbit.channel ≡ some ch)
    × (started_app.components.rabbit.conn ≡ some conn)
    × ((u t : Settings) (x : Text)
        → (platform_with merged).amqp.close_channel ch (no_error u).1 ≡ (some x, t)
        → stop (platform_with merged) no_error started_app u ≡ (panic, t))
    × ((u t s : Settings) (x : Text)
        → (platform_with merged).amqp.close_channel ch (no_error u).1 ≡ (none, t)
        → (platform_with merged).amqp.close_connection conn t ≡ (some x, s)
        → stop (platform_with merged) no_error started_app u ≡ (panic, s))
    × ((u t s : Settings)
        → (platform_with merged).amqp.close_channel ch (no_error u).1 ≡ (none, t)
        → (platform_with merged).amqp.close_connection conn t ≡ (none, s)
        → stop (platform_with merged) no_error started_app u ≡ (ok tt, s))
stop-new_app_example =
    stop-new_app (platform_with merged) no_error (ascii "/cfg") [] full started_app starts

-- the channel of the queue can be closed
abbrev platform : Platform Settings
platform = platform_closing none merged

-- the signal has come and the server is shut down
abbrev shut : Running Settings
shut = record (spawned full) { main = closing; listener_closed = true }

Reach-returns_example :
    (((shut.main ≡ returned) × (shut.listening ≡ false) × (shut.consuming ≡ false))
      ⊎ ((u : Running Settings) × Step platform no_error started_app shut u × (left u < left shut)))
    × ((u : Running Settings) → Step platform no_error started_app shut u → left u ≤ left shut)
    × (left shut ≤ 6)
unfolding spawned
Reach-returns_example =
    Reach-returns platform no_error (ascii "/cfg") [] full started_app (starts_closing none)
      (λ ch u. refl) (λ conn u. refl) shut
      (next (next here (signalled (spawned full) refl))
        (shut_down (record (spawned full) { main = shutting }) refl))

-- a generator that counts
abbrev counter : ℕ → ℕ → ℕ × ℕ
counter n w = (w % n, w + 1)

not_safe_gen_random_string-IsAlnum_example :
    (s : Text) × ((not_safe_gen_random_string counter 16 60).0 ≡ ok s)
    × (length s ≡ 16)
    × All IsAlnum s
not_safe_gen_random_string-IsAlnum_example =
    not_safe_gen_random_string-IsAlnum counter (λ n w n>. omega (arith, n>)) 16 60
