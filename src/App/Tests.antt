-- ===== src/App/Tests.antt =====
-- The application over a repository that is a list, on a host where everything works.
use wb_tasks_l.Prelude.{
  ltb, ℕ, String, ◌≡◌, refl, true, false, List, [], ◌∷◌, ◌++◌, none, some, pos, arith,
}
use wb_tasks_l.Errors.{Error, plain, new, ok}
use wb_tasks_l.Domain.{Order}
use wb_tasks_l.Ports.{Moment}
use wb_tasks_l.Samples.{order_of, sample_repo}
use wb_tasks_l.Cache.{new_lru_cache_ttl}
use wb_tasks_l.Cache.Invariant.{IsValid}
use wb_tasks_l.Cache.Spec.{limits}
use wb_tasks_l.Config.{Config}
use wb_tasks_l.Telemetry.{float_one}
use wb_tasks_l.Metrics.{must_register, register_once}
use wb_tasks_l.App.{
  Resource, pool, Host, PoolConfig, App, booted, connect, new_pool, build, assemble_app, bootstrap,
  main,
}
use wb_tasks_l.App.Resources.{follow, is_used, bootstrap-IsReady}
use wb_tasks_l.App.Lifecycle.{
  returned, cancel, server_ends, proceeds, start, grace, send, end_server, turn, turns,
}
use wb_tasks_l.App.Lifecycle.Progress.{is_ready, turns-returned}

abbrev defaults : Config
defaults = record {
  http = record {
    addr = ":8080";
    gin_mode = "debug";
    read_timeout = pos 10000000000;
    write_timeout = pos 10000000000;
    read_header_timeout = pos 5000000000;
    idle_timeout = pos 60000000000;
    handler_timeout = pos 3000000000;
    graceful_timeout = pos 5000000000;
  };
  tracing = record {
    enabled = true;
    service_name = "orders-app";
    endpoint = "jaeger:4318";
    sample_ratio = float_one;
  };
  postgres = record { dsn = "postgres"; max_conns = pos 10 };
  kafka = record {
    brokers = "kafka:9092" ∷ [];
    topic = "orders";
    group_id = "orders";
    start_offset = "last";
    process_timeout = pos 5000000000;
    retry_initial = pos 1000000000;
    retry_max = pos 30000000000;
  };
  cache = record { capacity = pos 2; ttl = pos 0; warm_up_n = pos 3 };
  logger = record { is_prod = false };
}

abbrev parsed : PoolConfig
parsed = record { max_conns = pos 4; max_conn_lifetime = pos 0; max_conn_idle_time = pos 0 }

abbrev host : Host
host = record {
  new_zap = λ prod. none;
  registered = [];
  register = λ added registry. some added;
  is_valid_reader = λ c. true;
  parse_config = λ dsn. ok parsed;
  new_with_config = λ cfg. none;
  ping = λ cfg. none;
  new_exporter = λ endpoint. none;
  less = λ x y. ltb x y;
}

abbrev moments : ℕ → Moment
moments i = record { ctx_err = none; now = pos i }

abbrev same_text : String → String
same_text text = text

abbrev orders : List Order
orders = order_of "a" ∷ order_of "b" ∷ order_of "c" ∷ []

-- A reader with no brokers: the start panics, with the pool open.
no_brokers :
    (let (events, panics) =
        main sample_repo moments same_text same_text
          (record host { is_valid_reader = λ c. false })
          (λ prefix. ok defaults)
          orders in
      (panics ≡ true) × (follow pool false events ≡ some true))
unfolding main bootstrap assemble_app new_pool connect must_register register_once follow
no_brokers = (refl, refl)

abbrev app : App (List Order)
app = build sample_repo moments same_text same_text host defaults orders

app_boots : (bootstrap sample_repo moments same_text same_text host defaults orders).1 ≡ booted app
unfolding bootstrap assemble_app new_pool connect must_register register_once
app_boots = refl

bootstrap-IsReady_example :
    ((r : Resource)
      → follow r false (bootstrap sample_repo moments same_text same_text host defaults orders).0
        ≡ some (is_used app.tracing r))
    × IsValid app.service.cache
    × (limits app.service.cache ≡ limits (new_lru_cache_ttl (pos 2) (pos 0)))
bootstrap-IsReady_example =
    bootstrap-IsReady sample_repo moments defaults orders same_text same_text host app app_boots

-- The server cannot listen on its address.
abbrev refused : Error
refused = new (plain "address in use")

stopped : is_ready (turns (pos 0) (server_ends (some refused) ∷ []) start) ≡ true
unfolding is_ready turns turn end_server send
stopped = refl

turns-returned_example :
    (let s =
        turns
          (pos 0)
          ((server_ends (some refused) ∷ [])
            ++ proceeds true ∷ cancel ∷ proceeds false ∷ proceeds false ∷ [])
          start in
      (s.phase ≡ returned) × (s.shutdown ≡ some (grace (pos 0))) × (s.reader_closed ≡ true))
turns-returned_example =
    turns-returned (pos 0) (server_ends (some refused) ∷ [])
      (proceeds true ∷ cancel ∷ proceeds false ∷ proceeds false ∷ []) stopped (omega arith)
