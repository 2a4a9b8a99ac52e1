-- ===== src/Configs.antt =====
-- internal/configs: the records of the configuration, and the store of settings that fills them. The
-- library viper is no part of the repository: `Viper` is a parameter, over the state `V` of a store
-- with the files and the environment that it sees. Durations are nanoseconds; the numbers are taken
-- as not negative.
pub mod Keys
pub mod Defaults
pub mod Sections
pub mod Setup
pub mod Values
pub mod Loaded
use noted_runner.Prelude.{
  ℕ, Bool, true, false, ◌≡◌, Option, none, some, List, [], Text, ascii, if◌then◌else◌, text_eq,
}

pub record VolumeConfig : Type 0 where
  pub source : Text
  pub target : Text

pub record EnvConfig : Type 0 where
  pub rmq_addr : Text
  pub mount_path : Text
  pub export_prefix : Text
  pub block_prefix : Text
  pub chan_name : Text
  pub block_timeout : ℕ

pub record DockerConfig : Type 0 where
  pub volume : VolumeConfig
  pub env : EnvConfig
  pub host : Text
  pub image : Text
  pub network : Text
  pub prefix : Text
  pub app_port : Text

-- `RetryOnStatus` maps a status to true or has no entry for it.
pub record HttpRetryPolicyConfig : Type 0 where
  pub max_attempts : ℕ
  pub base_delay : ℕ
  pub max_delay : ℕ
  pub retry_on_status : List ℕ

pub record HttpClientConfig : Type 0 where
  pub dial_timeout : ℕ
  pub request_timeout : ℕ
  pub keep_alive : ℕ
  pub max_idle_conns : ℕ
  pub idle_conn_timeout : ℕ
  pub retry_policy : HttpRetryPolicyConfig

pub record HttpServerConfig : Type 0 where
  pub read_timeout : ℕ
  pub write_timeout : ℕ
  pub idle_timeout : ℕ
  pub max_idle_worker_duration : ℕ
  pub max_req_body_size : ℕ
  pub read_buffer_size : ℕ
  pub write_buffer_size : ℕ
  pub concurrency : ℕ
  pub max_conns_per_ip : ℕ
  pub max_requests_per_conn : ℕ
  pub tcp_keep_alive_period : ℕ

pub record ServiceConfig : Type 0 where
  pub port : ℕ
  pub base_path : Text
  pub metrics_port : ℕ
  pub metrics_endpoint : Text
  pub compile_timeout : ℕ
  pub cmd_timeout : ℕ

pub record LoggerConfig : Type 0 where
  pub log_level : Text
  pub log_timeout : ℕ
  pub log_add_source : Bool
  pub log_max_file_size : ℕ
  pub log_max_backups : ℕ
  pub log_max_age : ℕ

pub record Config : Type 0 where
  pub docker : DockerConfig
  pub http_client : HttpClientConfig
  pub http_server : HttpServerConfig
  pub service : ServiceConfig
  pub logger : LoggerConfig

-- a value that is given to SetDefault
pub data Value : Type 0 where
  text_value : Text → Value
  int_value : ℕ → Value
  bool_value : Bool → Value
  duration_value : ℕ → Value
  ints_value : List ℕ → Value

-- what MergeInConfig reports
pub data Merge : Type 0 where
  merged : Merge
  not_found : Merge
  merge_failed : Text → Merge

-- With PanicOnNil a key without a value is a panic, which is none.
pub record Viper (V : Type 0) : Type 0 where
  pub load_dotenv : V → V
  pub set_default : Text → Value → V → V
  pub add_config_path : Text → V → V
  pub set_config_name : Text → V → V
  pub set_config_type : Text → V → V
  pub merge_in_config : V → Merge × V
  pub set_env_key_replacer : Text → Text → V → V
  pub automatic_env : V → V
  pub get_string : Text → V → Option Text
  pub get_int : Text → V → Option ℕ
  pub get_bool : Text → V → Option Bool
  pub get_duration : Text → V → Option ℕ
  pub get_int_slice : Text → V → Option (List ℕ)

-- What viper documents of its defaults: SetDefault sets that of one key, no other call changes one,
-- and a key that neither the file, the environment nor another key's setting overrides has its
-- default as its value.
pub record Documented {V : Type 0} (vp : Viper V) : Type 0 where
  pub default_of : Text → V → Option Value
  pub is_overridden : Text → V → Bool
  pub default-set :
      (k j : Text) (x : Value) (v : V)
      → default_of j (vp.set_default k x v) ≡ (if text_eq k j then some x else default_of j v)
  pub default-path : (j p : Text) (v : V) → default_of j (vp.add_config_path p v) ≡ default_of j v
  pub default-name : (j p : Text) (v : V) → default_of j (vp.set_config_name p v) ≡ default_of j v
  pub default-type : (j p : Text) (v : V) → default_of j (vp.set_config_type p v) ≡ default_of j v
  pub default-merge : (j : Text) (v : V) → default_of j (vp.merge_in_config v).1 ≡ default_of j v
  pub default-replacer :
      (j p q : Text) (v : V) → default_of j (vp.set_env_key_replacer p q v) ≡ default_of j v
  pub default-env : (j : Text) (v : V) → default_of j (vp.automatic_env v) ≡ default_of j v
  pub string-default :
      (j x : Text) (v : V)
      → is_overridden j v ≡ false
      → default_of j v ≡ some (text_value x)
      → vp.get_string j v ≡ some x
  pub int-default :
      (j : Text) (n : ℕ) (v : V)
      → is_overridden j v ≡ false
      → default_of j v ≡ some (int_value n)
      → vp.get_int j v ≡ some n
  pub bool-default :
      (j : Text) (b : Bool) (v : V)
      → is_overridden j v ≡ false
      → default_of j v ≡ some (bool_value b)
      → vp.get_bool j v ≡ some b
  pub duration-default :
      (j : Text) (n : ℕ) (v : V)
      → is_overridden j v ≡ false
      → default_of j v ≡ some (duration_value n)
      → vp.get_duration j v ≡ some n
  pub ints-default :
      (j : Text) (ns : List ℕ) (v : V)
      → is_overridden j v ≡ false
      → default_of j v ≡ some (ints_value ns)
      → vp.get_int_slice j v ≡ some ns
