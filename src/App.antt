-- ===== src/App.antt =====
-- internal/app/bootstrap.go, with NewPool of internal/repo/postgres/postgres.go and main of
-- cmd/server/main.go: what the program opens and closes, and the application that it builds. What
-- the libraries answer is the argument `Host`; the errors of closing are only logged, and are left
-- out.
pub mod Resources
pub mod Lifecycle
mod Tests
use wb_tasks_l.Prelude.{
  ℕ, String, Bool, true, false, List, [], ◌∷◌, ◌++◌, Option, none, some, ℤ, pos, ltb_ℤ, leb_ℤ, ◌==◌,
  if◌then◌else◌,
}
use wb_tasks_l.Errors.{Error, Result, ok, err}
use wb_tasks_l.Ports.{Moment, OrderRepository}
use wb_tasks_l.Cache.{LruCacheTtl, new_lru_cache_ttl, memory_cache}
use wb_tasks_l.Service.{World, warm_up_cache}
use wb_tasks_l.Kafka.{ConsumerConfig, new_consumer}
use wb_tasks_l.Kafka.Reader.{ReaderConfig, reader_config, close}
use wb_tasks_l.Metrics.{Collector, Registration, must_register}
use wb_tasks_l.Http.{request_timeout}
use wb_tasks_l.Telemetry.{Float64, setup_tracing, new_zap_logger}
use wb_tasks_l.Config.{
  HttpConfig, TracingConfig, PostgresConfig, KafkaConfig, CacheConfig, Config, load,
}

-- What is opened and closed: the logger with its buffers, the pool of connections, the provider of
-- traces, and the Kafka reader.
pub data Resource : Type 0 where
  log_buffer pool tracer kafka_reader : Resource

pub data Event : Type 0 where
  opened closed : Resource → Event

-- pgxpool.Config, as far as the program sets it.
pub record PoolConfig : Type 0 where
  pub max_conns : ℤ
  pub max_conn_lifetime : ℤ
  pub max_conn_idle_time : ℤ

-- What zap, prometheus, pgxpool, the OTLP exporter and kafka-go answer.
pub record Host : Type 0 where
  -- zap.NewProduction at true, zap.NewDevelopment at false
  pub new_zap : Bool → Option Error
  -- The registry at the start, and what it answers to a registration, `none` where it panics.
  pub registered : List Collector
  pub register : List Collector → List Collector → Option (List Collector)
  pub parse_config : String → Result PoolConfig
  pub new_with_config : PoolConfig → Option Error
  pub ping : PoolConfig → Option Error
  pub new_exporter : String → Option Error
  -- kafka.NewReader panics at a configuration that is not valid.
  pub is_valid_reader : ReaderConfig → Bool
  -- The order of floats.
  pub less : Float64 → Float64 → Bool

-- The limits that NewPool sets.
abbrev pub pool_config : ℤ → PoolConfig → PoolConfig
pool_config max_conns parsed = record parsed {
  max_conns = if ltb_ℤ (pos 0) max_conns then max_conns else parsed.max_conns;
  max_conn_lifetime = pos 3600000000000;
  max_conn_idle_time = pos 1800000000000;
}

-- The rest of NewPool. A pool that does not answer is closed.
unfoldable pub connect : Host → PoolConfig → List Event × Result PoolConfig
connect host cfg = elim (host.new_with_config cfg) [
  | some e ↦ ([], err e)
  | none ↦ elim (host.ping cfg) [
    | some e ↦ (opened pool ∷ closed pool ∷ [], err e)
    | none ↦ (opened pool ∷ [], ok cfg)
  ]
]

unfoldable pub new_pool : Host → String → ℤ → List Event × Result PoolConfig
unfolding connect
new_pool host dsn max_conns = elim (host.parse_config dsn) [
  | err e ↦ ([], err e)
  | ok parsed ↦ connect host (pool_config max_conns parsed)
]

pub data GinMode : Type 0 where
  release_mode test_mode debug_mode : GinMode

-- applyGinMode, over strings.ToLower and strings.TrimSpace.
unfoldable pub apply_gin_mode : (String → String) → (String → String) → String → GinMode
apply_gin_mode to_lower trim_space mode =
    let m = to_lower (trim_space mode) in
    if m == "release" then release_mode else if m == "test" then test_mode else debug_mode

-- Whether the provider of traces runs.
unfoldable pub traces : Host → TracingConfig → Bool
unfolding setup_tracing
traces host c =
    if c.enabled
    then elim (setup_tracing host.less host.new_exporter c.service_name c.endpoint c.sample_ratio) [
      | err e ↦ false
      | ok _ ↦ true
    ]
    else false

abbrev pub kafka_config : KafkaConfig → ConsumerConfig
kafka_config c = record {
  brokers = c.brokers;
  topic = c.topic;
  group_id = c.group_id;
  start_offset = c.start_offset;
  process_timeout = c.process_timeout;
  retry_initial = c.retry_initial;
  retry_max = c.retry_max;
}

-- The application: its server, its consumer, and the state of the service behind both.
pub record App (Db : Type 0) : Type 0 where
  pub http_server : HttpConfig
  pub handler_timeout : ℤ
  pub gin_mode : GinMode
  pub otel_service_name : String
  pub consumer : ConsumerConfig
  pub graceful_timeout : ℤ
  pub service : World LruCacheTtl Db
  pub tracing : Bool
  -- closeOnce of the consumer
  pub reader_closed : Bool

-- How the start ends: with the application, with an error, or with a panic.
pub data Start (Db : Type 0) : Type 0 where
  booted : App Db → Start Db
  failed : Error → Start Db
  panicked : Start Db

module _ {Db : Type 0} (repo : OrderRepository Db) (moments : ℕ → Moment) (cfg : Config) where
  -- The warm-up of Bootstrap. Its error is only logged.
  abbrev pub warmed_up : Db → World LruCacheTtl Db
  warmed_up db =
      let w : World LruCacheTtl Db = record {
        cache = new_lru_cache_ttl cfg.cache.capacity cfg.cache.ttl;
        db = db;
      } in
      if ltb_ℤ (pos 0) cfg.cache.warm_up_n
      then (warm_up_cache repo memory_cache moments cfg.cache.warm_up_n w).0
      else w

module _ {Db : Type 0} (repo : OrderRepository Db) (moments : ℕ → Moment)
    (to_lower trim_space : String → String) (host : Host) (cfg : Config) where
  abbrev pub build : Db → App Db
  build db = record {
    http_server = cfg.http;
    handler_timeout = request_timeout cfg.http.handler_timeout;
    gin_mode = apply_gin_mode to_lower trim_space cfg.http.gin_mode;
    otel_service_name = if cfg.tracing.enabled then cfg.tracing.service_name else "";
    consumer = new_consumer (kafka_config cfg.kafka);
    graceful_timeout = cfg.http.graceful_timeout;
    service = warmed_up repo moments cfg db;
    tracing = traces host cfg.tracing;
    reader_closed = false;
  }

  -- What follows MustRegister.
  unfoldable pub assemble_app : Db → List Event × Start Db
  unfolding new_pool traces apply_gin_mode
  assemble_app db =
      let (connecting, answer) = new_pool host cfg.postgres.dsn cfg.postgres.max_conns in
      (elim answer [
        | err e ↦ (connecting ++ closed log_buffer ∷ [], failed e)
        | ok _ ↦
            let tracing = if traces host cfg.tracing then opened tracer ∷ [] else [] in
            if host.is_valid_reader (reader_config to_lower trim_space (kafka_config cfg.kafka))
            then (connecting ++ tracing ++ opened kafka_reader ∷ [], booted (build db))
            else (connecting ++ tracing, panicked)
      ])

  unfoldable pub bootstrap : Db → List Event × Start Db
  unfolding new_zap_logger must_register assemble_app
  bootstrap db = elim (new_zap_logger host.new_zap cfg.logger.is_prod) [
    | err e ↦ ([], failed e)
    | ok _ ↦
        let (_, panics) =
          must_register host.register (record { once = false; registry = host.registered }) in
        let (events, start) = assemble_app db in
        if panics then (opened log_buffer ∷ [], panicked) else (opened log_buffer ∷ events, start)
  ]

module _ {Db : Type 0} where
  -- consumer.Close: the event of the reader, and the application after it.
  unfoldable pub close_consumer : App Db → List Event × App Db
  unfolding close
  close_consumer app =
      let (once, closes, _) = close none app.reader_closed in
      (if closes then closed kafka_reader ∷ [] else [], record app { reader_closed = once })

  -- The cleanup that Bootstrap returns.
  unfoldable pub cleanup : App Db → List Event × App Db
  unfolding close_consumer
  cleanup app =
      let (closing, app') = close_consumer app in
      (
        (if app.tracing then closed tracer ∷ [] else [])
            ++ closing
            ++ closed pool ∷ closed log_buffer ∷ [],
        app',
      )

-- main, with whether it panics: Run closes the consumer before it returns, and then the deferred
-- cleanup runs. A panic of Bootstrap finds no cleanup deferred.
unfoldable pub main :
    {Db : Type 0}
    → OrderRepository Db
    → (ℕ → Moment)
    → (String → String)
    → (String → String)
    → Host
    → (String → Result Config)
    → Db
    → List Event × Bool
unfolding bootstrap cleanup
main repo moments to_lower trim_space host process db = elim (load process) [
  | err e ↦ ([], false)
  | ok cfg ↦
      let (events, start) = bootstrap repo moments to_lower trim_space host cfg db in
      elim start [
        | failed e ↦ (events, false)
        | panicked ↦ (events, true)
        | booted app ↦
            let (closing, stopped) = close_consumer app in
            (events ++ closing ++ (cleanup stopped).0, false)
      ]
]
