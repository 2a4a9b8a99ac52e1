-- ===== src/Logger.antt =====
-- internal/logger/logger.go: the loggers of the layers. The environment and git are no part of the
-- repository: `Process` is a parameter, over the state `W` of the world outside.
use noted_runner.Prelude.{
  ℕ, ◌≡◌, ◌≢◌, refl, Bool, true, Option, none, some, Text, ascii, ◌++◌, Outcome, ok, err, panic,
  ◌>>=◌, or_panic, text_eq, if◌then◌else◌,
}
use noted_runner.Configs.{LoggerConfig}

pub record Process (W : Type 0) : Type 0 where
  -- os.LookupEnv
  pub lookup_env : Text → W → Option Text
  -- the output of `git rev-parse --short HEAD`, if it succeeds within a second
  pub git_head : W → Option Text
  pub pid : ℕ

pub data Level : Type 0 where
  debug_level : Level
  info_level : Level
  warn_level : Level
  error_level : Level

-- a logger, by its file and its fields
pub record Logger : Type 0 where
  pub filename : Text
  pub max_size : ℕ
  pub max_backups : ℕ
  pub max_age : ℕ
  pub compress : Bool
  pub add_source : Bool
  pub level : Level
  pub pid : ℕ
  pub commit_hash : Text
  pub pod_name : Text
  pub layer : Text

pub record Loggers : Type 0 where
  pub http : Logger
  pub http_c : Logger
  pub service : Logger
  pub repo : Logger
  pub infra : Logger

unfoldable pub level_of : Text → Option Level
level_of name =
    if text_eq name (ascii "debug")
    then some debug_level
    else if text_eq name (ascii "info")
    then some info_level
    else if text_eq name (ascii "warn")
    then some warn_level
    else if text_eq name (ascii "error")
    then some error_level
    else none

unfoldable pub pod_name_of : Option Text → Text
pod_name_of none = ascii "000000"
pod_name_of (some name) = name

or_panic-panic : {A B : Type 0} (o : Option A) → ◌>>=◌ {B = B} (or_panic o) (λ a. panic) ≡ panic
or_panic-panic none = refl
or_panic-panic (some a) = refl

ok-ne-err : {A : Type 0} (a : A) (x : Text) → ok a ≢ err x
ok-ne-err a x e = cc

or_panic-ne-err :
    {A B : Type 0} (o : Option A) (f : A → Outcome B) (x : Text)
    → ((a : A) → f a ≢ err x)
    → (or_panic o >>= f) ≢ err x
or_panic-ne-err none f x sound = cc
or_panic-ne-err (some a) f x sound = sound a

module _ {W : Type 0} (process : Process W) (w : W) where
  -- the variable, or what git says
  unfoldable pub commit_hash_of : Option Text → Option Text
  commit_hash_of none = process.git_head w
  commit_hash_of (some hash) = some hash

  unfoldable pub new_logger : LoggerConfig → Text → Outcome Logger
  unfolding level_of commit_hash_of pod_name_of
  new_logger cfg layer = do
    commit_hash ← or_panic (commit_hash_of (process.lookup_env (ascii "CI_COMMIT_HASH") w))
    log_level ← or_panic (level_of cfg.log_level)
    ok (record {
      filename = ascii "/var/log/noted-runner/" ++ layer ++ ascii ".log";
      max_size = cfg.log_max_file_size;
      max_backups = cfg.log_max_backups;
      max_age = cfg.log_max_age;
      compress = true;
      add_source = cfg.log_add_source;
      level = log_level;
      pid = process.pid;
      commit_hash = commit_hash;
      pod_name = pod_name_of (process.lookup_env (ascii "POD_NAME") w);
      layer = layer;
    })

  unfoldable pub setup_loggers : LoggerConfig → Outcome Loggers
  unfolding new_logger
  setup_loggers cfg = do
    http ← new_logger cfg (ascii "http-server")
    http_c ← new_logger cfg (ascii "http-client")
    service ← new_logger cfg (ascii "service")
    repo ← new_logger cfg (ascii "repo")
    infra ← new_logger cfg (ascii "infra")
    ok (record { http = http; http_c = http_c; service = service; repo = repo; infra = infra })

  -- a level that `NewLogger` does not know
  pub new_logger-unknown :
      (cfg : LoggerConfig) (layer : Text)
      → level_of cfg.log_level ≡ none
      → new_logger cfg layer ≡ panic
  unfolding new_logger
  new_logger-unknown cfg layer unknown = rw (new_logger, unknown) (or_panic-panic _)

  pub setup_loggers-unknown :
      (cfg : LoggerConfig) → level_of cfg.log_level ≡ none → setup_loggers cfg ≡ panic
  unfolding setup_loggers
  setup_loggers-unknown cfg unknown =
      rw (setup_loggers, new_logger-unknown cfg (ascii "http-server") unknown) refl

  pub new_logger-ne-err : (cfg : LoggerConfig) (layer x : Text) → new_logger cfg layer ≢ err x
  unfolding new_logger
  new_logger-ne-err cfg layer x =
      or_panic-ne-err (commit_hash_of (process.lookup_env (ascii "CI_COMMIT_HASH") w)) _ x
        (λ hash. or_panic-ne-err (level_of cfg.log_level) _ x (λ l. ok-ne-err {A = Logger} _ x))
