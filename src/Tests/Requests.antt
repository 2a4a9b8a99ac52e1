-- ===== src/Tests/Requests.antt =====
-- Requests of users and of the program.
use noted_runner.Prelude.{
  ℕ, ◌+◌, ◌/◌, ◌≤◌, ◌≡◌, refl, none, some, [], ◌∷◌, ascii, ok, lookup, text_eq,
}
use noted_runner.Configs.{HttpRetryPolicyConfig}
use noted_runner.Delivery.{
  is_close, CompilerUsecase, Reading, text_message, no_frame, Wire, Served, Session, compile,
  bad_request, open_session, serve, send_memes, on_close, on_reading,
}
use noted_runner.Delivery.Connections.{Turned, serve-Turned, Closed, serve_close, serve_broken}
use noted_runner.Delivery.Messages.{send_memes_lost}
use noted_runner.HttpClient.{Transport, answer, make_request, Counted}
use noted_runner.HttpClient.Retries.{make_request-total, total}
use noted_runner.Middlewares.{Ctx, Services}

abbrev pub usecase : CompilerUsecase ℕ
usecase = record {
  start_kernel = λ kernel user n. (ok (ascii "c"), n + 1);
  run_block = λ kernel block user n. (some (ok tt), n + 1);
  stop_kernel = λ id n. (ok tt, n + 1);
}

-- Nothing can be written to any connection.
abbrev pub wire : Wire ℕ
wire = record {
  upgrade = λ conn n. (none, n + 1);
  write_message = λ conn text n. (some (ascii "broken pipe"), n + 1);
  write_json = λ conn message n. (some (ascii "broken pipe"), n + 1);
  close_conn = λ conn n. n + 1;
}

-- user `u` is connected
abbrev pub connected : Served ℕ
connected = (
  record { active_conns = (ascii "u", 1) ∷ []; kernel_listeners = (ascii "k", ascii "u") ∷ [] },
  0,
)

abbrev pub session : Session
session = record { user_id = ascii "u"; kernel_id = ascii "k"; container = ascii "c"; conn = 1 }

abbrev second : Session
second = record { user_id = ascii "v"; kernel_id = ascii "k"; container = ascii "d"; conn = 2 }

abbrev pub block_frame : Reading
block_frame = record { message_type = text_message; message = ascii "b"; error = none }

abbrev failed_frame : Reading
failed_frame = record {
  message_type = text_message;
  message = [];
  error = some (ascii "too large");
}

abbrev lost_frame : Reading
lost_frame = record { message_type = no_frame; message = []; error = some (ascii "closed") }

serve-Turned_example :
    Turned usecase wire session connected
      (serve usecase wire session (block_frame ∷ lost_frame ∷ []) connected).0
      (serve usecase wire session (block_frame ∷ lost_frame ∷ []) connected).1
serve-Turned_example = serve-Turned usecase wire session (block_frame ∷ lost_frame ∷ []) connected

serve_close_example :
    Closed usecase wire session
      (serve usecase wire session (block_frame ∷ []) connected).1
      (serve usecase wire session (block_frame ∷ lost_frame ∷ block_frame ∷ []) connected)
unfolding serve on_reading
serve_close_example =
    serve_close usecase wire session (block_frame ∷ []) lost_frame (block_frame ∷ []) connected refl
      refl

abbrev last : Served ℕ
last =
    (serve usecase wire session (failed_frame ∷ []) (open_session usecase wire session connected)).1

serve_broken_example :
    (last.1 ≡ 2)
    × (compile usecase wire (ascii "u") (some (ascii "k")) 3 last ≡ (bad_request, last))
unfolding is_close
serve_broken_example =
    serve_broken usecase wire session failed_frame [] connected refl refl refl (some (ascii "k")) 3

abbrev left : Served ℕ
left =
    (on_close usecase wire second
      (open_session usecase wire second (open_session usecase wire session connected))).1

send_memes_lost_example :
    (lookup (ascii "u") left.0.active_conns ≡ some 1)
    × (send_memes usecase wire (ascii "k") (ascii "hi") left ≡ left)
unfolding text_eq
send_memes_lost_example =
    send_memes_lost usecase wire session second connected (ascii "hi") refl refl

-- Every request is answered with the status 503.
abbrev transport : Transport ℕ
transport = record {
  new_request = λ method endpoint. none;
  execute = λ method endpoint n. (answer 503, n + 1);
  sleep = λ d n. (none, n);
}

abbrev policy : HttpRetryPolicyConfig
policy = record {
  max_attempts = 3;
  base_delay = 100;
  max_delay = 1_000;
  retry_on_status = 503 ∷ [];
}

abbrev start : Counted ℕ
start = (record { request_oks = 0; request_bads = 0; request_serv_errs = 0 }, 0)

make_request-total_example :
    total (make_request transport policy (λ n d. d) (ascii "GET") (ascii "/run") start).1.0
    ≤ total start.0 + policy.max_attempts
make_request-total_example =
    make_request-total transport policy (λ n d. d) (ascii "GET") (ascii "/run") start

-- a jitter of a tenth
abbrev tenth : ℕ → ℕ → ℕ
tenth attempt d = d + d / 10

abbrev pub services : Services ℕ
services = record {
  auth_user_id =
      λ at rt n. (some (record { id = ascii "u"; at = none; rt = none; it = none }), n + 1);
  file_access = λ user file n. (some (ascii "rwx"), n + 1);
}

abbrev pub request : Ctx
request = record {
  request_id = none;
  cookies = (ascii "NTD-DNART", ascii "token") ∷ [];
  kernel_id = some (ascii "k");
  user_id = none;
  status = 200;
  set_cookies = [];
}
