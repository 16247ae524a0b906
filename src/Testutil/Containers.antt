-- ===== src/Testutil/Containers.antt =====
-- containers_tc_integration.go and migrations_goose_integration.go of internal/testutil: what
-- StartPostgresTC, StartKafkaTC and ApplyMigrationsGoose open and close. What testcontainers,
-- pgxpool, database/sql and goose answer is an argument; an error of closing is dropped, as in the
-- source. The hooks only log.
use wb_tasks_l.Prelude.{
  String, ◌≡◌, refl, inl, inr, Bool, true, false, List, [], ◌∷◌, ◌++◌, Option, none, some,
  Option-cases, Bool-cases,
}
use wb_tasks_l.Errors.{Error, plain, new, wrap, Result, ok, err, Result-cases}

-- What is started and stopped: the container, and the pool or the database handle.
pub data Event : Type 0 where
  run terminate open_pool close_pool : Event

-- Whether the container and the pool are up.
pub record Up : Type 0 where
  pub container : Bool
  pub pool : Bool

abbrev pub down : Up
down = record { container = false; pool = false }

-- The state after some events; `none` where one of them makes no sense.
unfoldable pub replay : List Event → Up → Option Up
replay [] s = some s
replay (run ∷ events) s = elim s.container [
  | true ↦ none
  | false ↦ replay events (record s { container = true })
]
replay (terminate ∷ events) s = elim s.container [
  | false ↦ none
  | true ↦ replay events (record s { container = false })
]
replay (open_pool ∷ events) s = elim s.pool [
  | true ↦ none
  | false ↦ replay events (record s { pool = true })
]
replay (close_pool ∷ events) s = elim s.pool [
  | false ↦ none
  | true ↦ replay events (record s { pool = false })
]

-- What the libraries answer to StartPostgresTC; the configuration is its limits, in nanoseconds.
pub record PostgresHost : Type 0 where
  pub run_container : Option Error
  pub connection_string : Result String
  pub parse_config : String → Option Error
  pub new_with_config : String → Option Error

-- A failure after the start of the container terminates it.
abbrev failed {ℓ} : {A : Type ℓ} → String → Error → List Event × Result A
failed reason e = (run ∷ terminate ∷ [], err (wrap (plain reason) e))

-- The DSN stands for the environment that is returned.
unfoldable pub start_postgres_tc : PostgresHost → List Event × Result String
start_postgres_tc host = elim host.run_container [
  | some e ↦ ([], err (wrap (plain "run postgres") e))
  | none ↦ elim host.connection_string [
    | err e ↦ failed "conn string" e
    | ok dsn ↦ elim (host.parse_config dsn) [
      | some e ↦ failed "parse cfg" e
      | none ↦ elim (host.new_with_config dsn) [
        | some e ↦ failed "new pool" e
        | none ↦ (run ∷ open_pool ∷ [], ok dsn)
      ]
    ]
  ]
]

abbrev pub stop_postgres : List Event
stop_postgres = close_pool ∷ terminate ∷ []

pub record KafkaEnv : Type 0 where
  pub brokers : List String
  pub base_topic : String

unfoldable pub start_kafka_tc : Option Error → Result String → String → List Event × Result KafkaEnv
start_kafka_tc run_container seed_broker base_topic = elim run_container [
  | some e ↦ ([], err (wrap (plain "run redpanda") e))
  | none ↦ elim seed_broker [
    | err e ↦ failed "seed broker" e
    | ok seed ↦ (run ∷ [], ok (record { brokers = seed ∷ []; base_topic = base_topic }))
  ]
]

abbrev pub stop_kafka : List Event
stop_kafka = terminate ∷ []

-- What os.Stat, goose and database/sql answer.
pub record MigrationHost : Type 0 where
  pub is_dir : Bool
  pub set_dialect : Option Error
  pub open_db : Option Error
  pub goose_up : Option Error

unfoldable pub apply_migrations_goose : MigrationHost → List Event × Option Error
apply_migrations_goose host = elim host.is_dir [
  | false ↦ ([], some (new (plain "migrations dir not found")))
  | true ↦ elim host.set_dialect [
    | some e ↦ ([], some (wrap (plain "goose set dialect") e))
    | none ↦ elim host.open_db [
      | some e ↦ ([], some (wrap (plain "open db") e))
      | none ↦ elim host.goose_up [
        | some e ↦ (open_pool ∷ close_pool ∷ [], some (wrap (plain "goose up") e))
        | none ↦ (open_pool ∷ close_pool ∷ [], none)
      ]
    ]
  ]
]

-- The events of a call and of the `stop` that it returned.
abbrev pub until_stop {ℓ} : {A : Type ℓ} → List Event × Result A → List Event → List Event
until_stop (events, ok _) stop = events ++ stop
until_stop (events, err _) stop = events

replay-start_postgres_tc :
    (host : PostgresHost)
    → replay (until_stop (start_postgres_tc host) stop_postgres) down ≡ some down
unfolding replay start_postgres_tc
replay-start_postgres_tc host = elim (Option-cases host.run_container) [
  | inr (e, q) ↦ rw q refl
  | inl q ↦ elim (Result-cases host.connection_string) [
    | inr (e, r) ↦ rw (q, r) refl
    | inl (dsn, r) ↦ elim (Option-cases (host.parse_config dsn)) [
      | inr (e, p) ↦ rw (q, r, p) refl
      | inl p ↦ elim (Option-cases (host.new_with_config dsn)) [
        | inr (e, n) ↦ rw (q, r, p, n) refl
        | inl n ↦ rw (q, r, p, n) refl
      ]
    ]
  ]
]

replay-start_kafka_tc :
    (run_container : Option Error) (seed_broker : Result String) (base_topic : String)
    → replay (until_stop (start_kafka_tc run_container seed_broker base_topic) stop_kafka) down
      ≡ some down
unfolding replay start_kafka_tc
replay-start_kafka_tc (some e) seed_broker base_topic = refl
replay-start_kafka_tc none (err e) base_topic = refl
replay-start_kafka_tc none (ok seed) base_topic = refl

replay-apply_migrations_goose :
    (host : MigrationHost) → replay (apply_migrations_goose host).0 down ≡ some down
unfolding replay apply_migrations_goose
replay-apply_migrations_goose host = elim (Bool-cases host.is_dir) [
  | inr d ↦ rw d refl
  | inl d ↦ elim (Option-cases host.set_dialect) [
    | inr (e, s) ↦ rw (d, s) refl
    | inl s ↦ elim (Option-cases host.open_db) [
      | inr (e, o) ↦ rw (d, s, o) refl
      | inl o ↦ elim (Option-cases host.goose_up) [
        | inr (e, g) ↦ rw (d, s, o, g) refl
        | inl g ↦ rw (d, s, o, g) refl
      ]
    ]
  ]
]

-- No test leaks a container or a pool: whatever the libraries answer, a start that fails leaves
-- nothing running, and so does one that succeeds once its `stop` has run, for Postgres and for
-- Kafka; and the migrations close the database they opened.
pub replay-until_stop :
    (host : PostgresHost) (run_container : Option Error) (seed_broker : Result String)
    (base_topic : String) (migration : MigrationHost)
    → (replay (until_stop (start_postgres_tc host) stop_postgres) down ≡ some down)
      × (replay (until_stop (start_kafka_tc run_container seed_broker base_topic) stop_kafka) down
          ≡ some down)
      × (replay (apply_migrations_goose migration).0 down ≡ some down)
replay-until_stop host run_container seed_broker base_topic migration = (
  replay-start_postgres_tc host,
  replay-start_kafka_tc run_container seed_broker base_topic,
  replay-apply_migrations_goose migration,
)
