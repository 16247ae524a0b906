-- ===== src/Config.antt =====
-- config/config.go: the structs that internal/app reads. envconfig, with the tags of the structs,
-- is an argument. Durations are in nanoseconds. The address for metrics, which nothing reads, is
-- left out.
use wb_tasks_l.Prelude.{String, Bool, List, ℤ}
use wb_tasks_l.Errors.{Result}
use wb_tasks_l.Telemetry.{Float64}

pub record HttpConfig : Type 0 where
  pub addr : String
  pub gin_mode : String
  pub read_timeout : ℤ
  pub write_timeout : ℤ
  pub read_header_timeout : ℤ
  pub idle_timeout : ℤ
  pub handler_timeout : ℤ
  pub graceful_timeout : ℤ

pub record TracingConfig : Type 0 where
  pub enabled : Bool
  pub service_name : String
  pub endpoint : String
  pub sample_ratio : Float64

pub record PostgresConfig : Type 0 where
  pub dsn : String
  pub max_conns : ℤ

pub record KafkaConfig : Type 0 where
  pub brokers : List String
  pub topic : String
  pub group_id : String
  pub start_offset : String
  pub process_timeout : ℤ
  pub retry_initial : ℤ
  pub retry_max : ℤ

pub record CacheConfig : Type 0 where
  pub capacity : ℤ
  pub ttl : ℤ
  pub warm_up_n : ℤ

pub record LoggerConfig : Type 0 where
  pub is_prod : Bool

pub record Config : Type 0 where
  pub http : HttpConfig
  pub tracing : TracingConfig
  pub postgres : PostgresConfig
  pub kafka : KafkaConfig
  pub cache : CacheConfig
  pub logger : LoggerConfig

-- LoadWithPrefix, and Load with the prefix of the program.
abbrev pub load_with_prefix : (String → Result Config) → String → Result Config
load_with_prefix process prefix = process prefix

abbrev pub load : (String → Result Config) → Result Config
load process = load_with_prefix process "ORDER"
