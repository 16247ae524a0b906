-- ===== src/App/Resources.antt =====
-- What the program opens and closes, from its start to its end.
use wb_tasks_l.Prelude.{
  ℕ, String, ◌≡◌, refl, inl, inr, Bool, true, false, List, [], ◌∷◌, ◌++◌, Option, none, some, ℤ,
  pos, ltb_ℤ, Bool-cases, Option-cases, if◌then◌else◌,
}
use wb_tasks_l.Errors.{Error, Result, ok, err, Result-cases}
use wb_tasks_l.Ports.{Moment, OrderRepository}
use wb_tasks_l.Config.{Config}
use wb_tasks_l.Cache.{LruCacheTtl, new_lru_cache_ttl, rounds, memory_cache}
use wb_tasks_l.Cache.Invariant.{IsValid}
use wb_tasks_l.Cache.Spec.{limits}
use wb_tasks_l.Cache.History.{new_lru_cache_ttl-IsValid, warm_up-IsValid, limits-warm_up}
use wb_tasks_l.Service.Warming.{warm_up_cache-keeps}
use wb_tasks_l.Kafka.Reader.{reader_config}
use wb_tasks_l.Metrics.{must_register}
use wb_tasks_l.Telemetry.{new_zap_logger}
use wb_tasks_l.App.{
  Resource, log_buffer, pool, tracer, kafka_reader, Event, opened, closed, Host, PoolConfig,
  pool_config, connect, new_pool, kafka_config, traces, warmed_up, build, App, Start, booted,
  failed, panicked, assemble_app, bootstrap,
}

abbrev same : Resource → Resource → Bool
same log_buffer log_buffer = true
same pool pool = true
same tracer tracer = true
same kafka_reader kafka_reader = true
same _ _ = false

-- Whether a resource is open after some events: `none` where one opens it while it is open, or
-- closes it while it is not.
unfoldable pub follow : Resource → Bool → List Event → Option Bool
follow r held [] = some held
follow r held (opened s ∷ events) =
    let held_on = follow r held events in
    let taken = follow r true events in if same r s then (if held then none else taken) else held_on
follow r held (closed s ∷ events) =
    let held_on = follow r held events in
    let given = follow r false events in
    if same r s then (if held then given else none) else held_on

-- What NewPool leaves open: the pool, if it returns one.
data PoolOutcome (events : List Event) (answer : Result PoolConfig) : Type 0 where
  no_pool : (e : Error) → events ≡ [] → answer ≡ err e → PoolOutcome events answer
  dropped_pool :
      (e : Error)
      → events ≡ opened pool ∷ closed pool ∷ []
      → answer ≡ err e
      → PoolOutcome events answer
  pooled : (c : PoolConfig) → events ≡ opened pool ∷ [] → answer ≡ ok c → PoolOutcome events answer

connect-PoolOutcome :
    (host : Host) (cfg : PoolConfig) → PoolOutcome (connect host cfg).0 (connect host cfg).1
unfolding connect
connect-PoolOutcome host cfg = elim (Option-cases (host.new_with_config cfg)) [
  | inr (e, q) ↦ rw (connect, q) (no_pool e refl refl)
  | inl q ↦ elim (Option-cases (host.ping cfg)) [
    | inr (e, r) ↦ rw (connect, q, r) (dropped_pool e refl refl)
    | inl r ↦ rw (connect, q, r) (pooled cfg refl refl)
  ]
]

new_pool-PoolOutcome :
    (host : Host) (dsn : String) (n : ℤ)
    → PoolOutcome (new_pool host dsn n).0 (new_pool host dsn n).1
unfolding new_pool
new_pool-PoolOutcome host dsn n = elim (Result-cases (host.parse_config dsn)) [
  | inr (e, q) ↦ rw (new_pool, q) (no_pool e refl refl)
  | inl (parsed, q) ↦ rw (new_pool, q) (connect-PoolOutcome host (pool_config n parsed))
]

-- What a start opens before the reader.
abbrev before_reader : Bool → List Event
before_reader tracing =
    opened log_buffer ∷ opened pool ∷ (if tracing then opened tracer ∷ [] else [])

-- A failed start closes what it opened.
one_buffer :
    (r : Resource) → follow r false (opened log_buffer ∷ closed log_buffer ∷ []) ≡ some false
unfolding follow
one_buffer log_buffer = refl
one_buffer pool = refl
one_buffer tracer = refl
one_buffer kafka_reader = refl

buffer_and_pool :
    (r : Resource)
    → follow r false (opened log_buffer ∷ opened pool ∷ closed pool ∷ closed log_buffer ∷ [])
      ≡ some false
unfolding follow
buffer_and_pool log_buffer = refl
buffer_and_pool pool = refl
buffer_and_pool tracer = refl
buffer_and_pool kafka_reader = refl

-- A panic of the start leaves the buffers of the logger open, and opens no reader.
pub record IsLeft (events : List Event) : Type 0 where
  pub buffered : follow log_buffer false events ≡ some true
  pub unread : follow kafka_reader false events ≡ some false

before_reader-IsLeft : (tracing : Bool) → IsLeft (before_reader tracing)
unfolding follow
before_reader-IsLeft true = record { buffered = refl; unread = refl }
before_reader-IsLeft false = record { buffered = refl; unread = refl }

module _ {Db : Type 0} (repo : OrderRepository Db) (moments : ℕ → Moment)
    (to_lower trim_space : String → String) (host : Host) (cfg : Config) (db : Db) where
  -- What Bootstrap leaves open: everything that it needs, or nothing, but for a panic.
  data BootOutcome (events : List Event) (start : Start Db) : Type 0 where
    failed_boot :
        (e : Error)
        → ((r : Resource) → follow r false events ≡ some false)
        → start ≡ failed e
        → BootOutcome events start
    panicked_boot : IsLeft events → start ≡ panicked → BootOutcome events start
    booted_app :
        events ≡ before_reader (traces host cfg.tracing) ++ opened kafka_reader ∷ []
        → start ≡ booted (build repo moments to_lower trim_space host cfg db)
        → BootOutcome events start

  assemble_app-BootOutcome :
      (let (events, start) = assemble_app repo moments to_lower trim_space host cfg db in
        BootOutcome (opened log_buffer ∷ events) start)
  unfolding assemble_app
  assemble_app-BootOutcome =
      elim (new_pool-PoolOutcome host cfg.postgres.dsn cfg.postgres.max_conns) [
        | no_pool e p a ↦ rw (assemble_app, a, p) (failed_boot e one_buffer refl)
        | dropped_pool e p a ↦ rw (assemble_app, a, p) (failed_boot e buffer_and_pool refl)
        | pooled c p a ↦
            elim (Bool-cases
              (host.is_valid_reader (reader_config to_lower trim_space (kafka_config cfg.kafka)))) [
                | inl q ↦ rw (assemble_app, a, p, q) (booted_app refl refl)
                | inr q ↦
                    rw (assemble_app, a, p, q)
                      (panicked_boot (before_reader-IsLeft (traces host cfg.tracing)) refl)
              ]
      ]

  bootstrap-BootOutcome :
      BootOutcome
        (bootstrap repo moments to_lower trim_space host cfg db).0
        (bootstrap repo moments to_lower trim_space host cfg db).1
  unfolding follow bootstrap
  bootstrap-BootOutcome = elim (Result-cases (new_zap_logger host.new_zap cfg.logger.is_prod)) [
    | inr (e, q) ↦ rw (bootstrap, q) (failed_boot e (λ r. refl) refl)
    | inl (_, q) ↦
        elim (Bool-cases
          (must_register host.register (record { once = false; registry = host.registered })).1) [
            | inl p ↦
                rw (bootstrap, q, p)
                  (panicked_boot (record { buffered = refl; unread = refl }) refl)
            | inr p ↦ rw (bootstrap, q, p) assemble_app-BootOutcome
          ]
  ]

-- What is open while the application runs.
abbrev pub is_used : Bool → Resource → Bool
is_used tracing log_buffer = true
is_used tracing pool = true
is_used tracing tracer = tracing
is_used tracing kafka_reader = true

all_open :
    (tracing : Bool) (r : Resource)
    → follow r false (before_reader tracing ++ opened kafka_reader ∷ []) ≡ some (is_used tracing r)
unfolding follow
all_open true log_buffer = refl
all_open true pool = refl
all_open true tracer = refl
all_open true kafka_reader = refl
all_open false log_buffer = refl
all_open false pool = refl
all_open false tracer = refl
all_open false kafka_reader = refl

module _ {Db : Type 0} (repo : OrderRepository Db) (moments : ℕ → Moment) (cfg : Config)
    (db : Db) where
  abbrev new_cache : LruCacheTtl
  new_cache = new_lru_cache_ttl cfg.cache.capacity cfg.cache.ttl

  abbrev IsReady : LruCacheTtl → Type 0
  IsReady c = IsValid c × (limits c ≡ limits new_cache)

  warmed_up-IsReady : IsReady (warmed_up repo moments cfg db).cache
  warmed_up-IsReady =
      let v = (new_lru_cache_ttl-IsValid cfg.cache.capacity cfg.cache.ttl).0 in
      elim (Bool-cases (ltb_ℤ (pos 0) cfg.cache.warm_up_n)) [
        | inr q ↦ rw q (v, refl)
        | inl q ↦ rw q (
            warm_up_cache-keeps repo memory_cache IsReady moments cfg.cache.warm_up_n
              (record { cache = new_cache; db = db }) (v, refl)
              (λ orders. (
                warm_up-IsValid (rounds moments 0 orders) new_cache v,
                limits-warm_up (rounds moments 0 orders) new_cache,
              )))
      ]

  -- An application that Bootstrap returns is ready: the logger, the pool and the Kafka reader are
  -- open, and the provider of traces if it runs; the cache is valid and has the configured limits,
  -- whatever the repository and the context did to the warm-up.
  pub bootstrap-IsReady :
      (to_lower trim_space : String → String) (host : Host) (app : App Db)
      → (bootstrap repo moments to_lower trim_space host cfg db).1 ≡ booted app
      → ((r : Resource)
          → follow r false (bootstrap repo moments to_lower trim_space host cfg db).0
            ≡ some (is_used app.tracing r))
        × IsValid app.service.cache
        × (limits app.service.cache ≡ limits (new_lru_cache_ttl cfg.cache.capacity cfg.cache.ttl))
  bootstrap-IsReady to_lower trim_space host app h =
      elim (bootstrap-BootOutcome repo moments to_lower trim_space host cfg db) [
        | failed_boot e closes a ↦ cc
        | panicked_boot left a ↦ cc
        | booted_app p a ↦
            let made : build repo moments to_lower trim_space host cfg db ≡ app = cc in
            let (valid, same) = warmed_up-IsReady in
            rw (p, ← made) ((λ r. all_open (traces host cfg.tracing) r), valid, same)
      ]
