-- ===== src/Lib.antt =====
-- Verification of the orders service: a service that reads orders from a Kafka topic, validates and
-- stores them, keeps the recent ones in memory, and serves them over HTTP.
--
-- The parts, and the files that model them:
--   Domain           internal/domain/order.go: the order and its parts.
--   Errors           Go errors: sentinels, errors.New, fmt.Errorf with %w, errors.Is.
--   Validate         pkg/validate/order_validator.go: the rules for an order.
--   Container        Go's map and container/list, as far as the cache uses them.
--   Cache            internal/cache/memory/order_cache.go and order_cache_helpers.go: LRUCacheTTL, with
--                    the cache metrics of pkg/metrics/metrics.go. Cache/Spec is the abstract cache, a
--                    list of entries; Cache/Invariant the invariant; Cache/Port fills the interface
--                    of Ports with the cache's theorems.
--   Ports            internal/ports: the interfaces as records of operations, and the laws that the
--                    service asks of a cache.
--   Service          internal/usecase/order_service.go: OrderService over its ports. Service/Races splits
--                    GetOrder and the end of SaveFromMessage into steps that a scheduler interleaves.
--   Kafka            internal/kafka/consumer.go, consumer_helpers.go and the defaults of NewConsumer;
--                    Kafka/Reader has Close and readerConfig of consumer_config.go, Kafka/Loss
--                    what becomes of a message that is not committed.
--   Repo             internal/repo/postgres/order_repository.go over the tables of migrations/: Repo/Saving
--                    has Save with copyItems and the constraints, Repo/Reading has GetByUID,
--                    Repo/Reading/Listing ListByCustomer and LastN, Repo/Port the repository as a port.
--   Intake           consumer, service and validator together, as internal/app/bootstrap.go wires them;
--                    Intake/Postgres and Intake/Durable with the repository of Repo; Intake/Races has the
--                    interleaved calls over the memory cache and that repository, Intake/Coherence
--                    the calls that follow one another.
--   Http             internal/transport/http/router.go (the handlers) and pkg/httpx/params.go; Http/Router
--                    has NewRouter: the routes, their middleware, and what a request gets from them.
--   Request          pkg/ctxmeta, pkg/httpx/requestid.go and request_logger.go, and withCtx of
--                    pkg/logger/zap.go.
--   Metrics          pkg/metrics/metrics.go: MustRegister. The metrics are in the states of Cache and Kafka.
--   Telemetry        pkg/telemetry/tracing.go, and NewZapLogger of pkg/logger/zap.go.
--   Jsonl            pkg/validate/validate_from_json.go, validate_from_jsonl.go, validate_file.go.
--   Command          cmd/validate-orders/main.go.
--   Config           config/config.go: the structs.
--   App              internal/app/bootstrap.go, NewPool of internal/repo/postgres/postgres.go, and main of
--                    cmd/server/main.go: App has Bootstrap, its cleanup and main, App/Lifecycle has Run.
--   Testutil         internal/testutil: Testutil/Orders the factory of orders, Testutil/Containers the
--                    start of Postgres and Kafka and the migrations, Testutil/Topics kafka.go.
--   Prelude, Samples shared names and lemmas; concrete orders for the modules named Tests.
--
-- A Go method is a function of the same name in snake_case that takes the state and returns it anew
-- beside its results: LRUCacheTTL.Get is Cache.get, SaveFromMessage is Service.save_from_message,
-- Consumer.Run is Kafka.run. A body with inner steps is split into helpers that follow its order. A
-- nil pointer, slice or error is `none`. Each reading of the clock is an argument; the mutex of the
-- cache makes its calls atomic, so concurrent use is a sequence of calls (Cache.History.run). The
-- service has no lock: there a call of the cache or of the repository is one step, and the steps of
-- several calls come in any order (Service.Races.race). The consumer's loop runs over the list of
-- what FetchMessage and the contexts answer, and ends with it. The goroutines of App.Run are turns
-- of a scheduler in any order (App.Lifecycle.turns). What the program opens and closes is a list of
-- events (App.main), and a panic of the start ends it there.
--
-- The tables of Postgres are association lists keyed by `order_uid`; an upsert, DELETE, COPY and
-- SELECT with WHERE, ORDER BY, LIMIT and OFFSET are written out as Postgres documents them, and a
-- statement that breaks a constraint or the range of a column of migrations/ fails. A transaction
-- works on its own copy of the tables, which Commit puts in place; a Commit that returns an error
-- may have done so (Repo.Server). Two transactions at once are not modelled, nor a date outside the
-- years that JSON can hold that overflows the driver's microseconds: the range of TIMESTAMPTZ
-- refuses it.
--
-- Bounds: `wrap64` is the arithmetic of the backoff on 64 bits. Elsewhere Go's integers are
-- unbounded: they are only compared, or counted by one, but for the end of a term, which the model
-- takes not to overflow time.Time. The loop of pruneExpiredFromBack has fuel for as many rounds as
-- the list has elements; that is enough, since each round that goes on removes one. The wait for a
-- topic has fuel for 27 rounds, enough for five seconds in steps of 200 milliseconds. The loops
-- over items, lines and warm-up orders recurse on their lists.
--
-- Parameters, since their code is not in the repository: encoding/json, mail.ParseAddress, strconv,
-- math/rand, strings.ToLower and TrimSpace, os.Open, bufio.Scanner, io.Writer, uuid, envconfig,
-- zap, prometheus, pgxpool, the OTLP exporter, gin's tree of routes (Http.Router.Gin, with the laws
-- GinLaws), promhttp, the file server, otelgin, testcontainers, goose, kafka-go, the order of
-- floats, the Kafka reader, and of Postgres whether a statement fails, whether a Commit that fails
-- has committed, the error of a constraint and the order of rows that no ORDER BY determines
-- (Repo.Server). The service stands over any repository and cache. Hypotheses on them are named
-- records: IsForeignDecoder, IsForeignRepository, IsForeignServer, IsUp, IsSortedBy, IsRoundTrip,
-- IsScanner, IsCompact, IsPosition. IsKeyedTables says of the tables that they have one row for a
-- key.
--
-- Not modelled: what is logged, but for the request's line and the fields of an entry, and the
-- spans of a trace; timeouts other than as errors of a call; what static files hold; the tags of
-- the configuration; the statements of two repository calls interleaved, but for a commit among the
-- queries of GetByUID (Repo/Reading/Torn); aliasing of the cached slices, which cloneOrder copies;
-- a failed CommitMessages, which changes nothing in the program; errors of closing, which are only
-- logged; the type assertions on list values, which hold `*entry` only; mocks; the hooks that log
-- the life of a container, and the time in the name of a topic.
pub mod Prelude
pub mod Errors
pub mod Domain
pub mod Metrics
pub mod Telemetry
pub mod Testutil
pub mod Validate
pub mod Container
pub mod Cache
pub mod Ports
pub mod Service
pub mod Kafka
pub mod Intake
pub mod Http
pub mod Jsonl
pub mod Repo
pub mod Config
pub mod App
pub mod Request
pub mod Command
pub mod Samples
