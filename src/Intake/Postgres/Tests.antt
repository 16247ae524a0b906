-- ===== src/Intake/Postgres/Tests.antt =====
-- Small messages, the memory cache, and tables with no row.
use wb_tasks_l.Prelude.{
  List, zero, suc, All, ℕ, ◌≡◌, ◌↔◌, ◌⊎◌, refl, true, false, [], ◌∷◌, none, some, pos, arith,
}
use wb_tasks_l.Errors.{plain, new, Error, ok, err}
use wb_tasks_l.Domain.{Time, Order}
use wb_tasks_l.Validate.{
  validate, validate_core, validate_payment, validate_delivery, validate_items, validate_item,
}
use wb_tasks_l.Ports.{JsonDecoder}
use wb_tasks_l.Samples.{order_of, any_address, sample_json}
use wb_tasks_l.Container.{lookup, insert}
use wb_tasks_l.Cache.{LruCacheTtl, get, new_lru_cache_ttl, memory_cache}
use wb_tasks_l.Container.Laws.{find_value}
use wb_tasks_l.Cache.Spec.{read}
use wb_tasks_l.Cache.Reads.{get-read}
use wb_tasks_l.Cache.History.{new_lru_cache_ttl-IsValid}
use wb_tasks_l.Service.{World, parse_message, save_from_message}
use wb_tasks_l.Kafka.{ConsumerConfig, Fetch, message, should_commit, run}
use wb_tasks_l.Intake.Durable.{run-get_by_uid}
use wb_tasks_l.Repo.{fits_timestamp, Server, Tables, exec, explained, query}
use wb_tasks_l.Repo.Samples.{server, server-IsUp, vacant}
use wb_tasks_l.Repo.Saving.{save}
use wb_tasks_l.Repo.Saving.Constraints.{IsStorable}
use wb_tasks_l.Repo.Reading.{get_by_uid}
use wb_tasks_l.Repo.Port.{postgres_repository, unsteady_repository}
use wb_tasks_l.Intake.{order_validator, intake, IsForeignDecoder}
use wb_tasks_l.Intake.Postgres.{IsForeignServer, should_commit-IsStorable, intake-not_storable}

abbrev start : World LruCacheTtl Tables
start = record { cache = new_lru_cache_ttl (pos 2) (pos 0); db = vacant }

abbrev clock : ℕ → Time
clock n = pos n

server-IsForeignServer : IsForeignServer server
server-IsForeignServer = record { failures = λ s e h. cc; violations = λ s. refl }

sample_json-foreign : IsForeignDecoder sample_json
sample_json-foreign = record { foreign = λ raw e h. ground arith }

should_commit-IsStorable_example :
    (should_commit
        (intake
          (postgres_repository server)
          memory_cache
          any_address
          sample_json
          clock
          (1 ∷ [])
          (0, start)).1
      ≡ true)
    ↔ ((o : Order) × (parse_message sample_json (1 ∷ []) ≡ ok o)
        × (((e : Error) × (validate any_address (some o) ≡ err e))
            ⊎ ((validate any_address (some o) ≡ ok tt) × IsStorable o vacant)))
should_commit-IsStorable_example =
    should_commit-IsStorable server memory_cache any_address sample_json clock (1 ∷ []) 0 start
      sample_json-foreign server-IsForeignServer server-IsUp

-- An order that passes the validator, with no customer.
abbrev nobody : Order
nobody = record (order_of "a") { customer_id = "" }

abbrev nobody_json : JsonDecoder
nobody_json = record { Rest = Unit; decode = λ raw. ok (nobody, tt); at_eof = λ rest. true }

intake-not_storable_example :
    (let ((_, w'), failed) =
        intake
          (postgres_repository server)
          memory_cache
          any_address
          nobody_json
          clock
          []
          (0, start) in
      (should_commit failed ≡ false) × (w'.db ≡ vacant))
unfolding parse_message validate validate_core validate_payment validate_delivery validate_items
    validate_item
intake-not_storable_example =
    intake-not_storable server memory_cache any_address nobody_json clock [] 0 start nobody
      server-IsForeignServer refl refl (λ s. s.owned refl)

saved_a :
    (save_from_message
      (postgres_repository server)
      memory_cache
      (order_validator any_address)
      sample_json
      (pos 1)
      (1 ∷ [])
      start).1
    ≡ none
unfolding save_from_message save query explained exec lookup insert validate validate_core
    fits_timestamp validate_payment validate_delivery validate_items validate_item
saved_a = refl

missed : (get (pos 2) "a" (new_lru_cache_ttl (pos 2) (pos 0))).2 ≡ false
unfolding read find_value new_lru_cache_ttl
missed =
    (get-read (pos 2) "a" (new_lru_cache_ttl (pos 2) (pos 0))
      (new_lru_cache_ttl-IsValid (pos 2) (pos 0)).0).2

-- A server that is down for the first two calls.
abbrev outage : Error
outage = new (plain "connection refused")

abbrev down : Server
down = record server { fails = λ s. some outage }

abbrev recovering : ℕ → Server
recovering zero = down
recovering (suc zero) = down
recovering (suc (suc n)) = server

recovering-foreign : (n : ℕ) → IsForeignServer (recovering n)
recovering-foreign zero = record { failures = λ s e h. ground arith; violations = λ s. refl }
recovering-foreign (suc zero) = record { failures = λ s e h. ground arith; violations = λ s. refl }
recovering-foreign (suc (suc n)) = server-IsForeignServer

abbrev program_config : ConsumerConfig
program_config = record {
  brokers = "kafka:9092" ∷ [];
  topic = "orders";
  group_id = "orders";
  start_offset = "first";
  process_timeout = pos 5000000000;
  retry_initial = pos 1000000000;
  retry_max = pos 30000000000;
}

abbrev fetches : List Fetch
fetches =
    message (record { partition = pos 0; offset = pos 0; value = 1 ∷ [] })
    ∷ message (record { partition = pos 0; offset = pos 1; value = 3 ∷ [] })
    ∷ message (record { partition = pos 0; offset = pos 2; value = 2 ∷ [] })
    ∷ message (record { partition = pos 0; offset = pos 3; value = 1 ∷ [] })
    ∷ []

abbrev whole : ℕ → ℕ → ℕ
whole i n = n

abbrev early : ℕ × World LruCacheTtl (ℕ × Tables)
early = (0, record { cache = new_lru_cache_ttl (pos 2) (pos 0); db = (0, vacant) })

run-get_by_uid_example :
    (let r =
        (run
          (intake (unsteady_repository recovering) memory_cache any_address sample_json clock)
          whole
          program_config
          fetches
          early).0 in
      All
        (λ m.
          (o : Order) × (parse_message sample_json m.value ≡ ok o)
          × (((e : Error) × (validate any_address (some o) ≡ err e))
              ⊎ ((found : Order) × (get_by_uid server o.order_uid r.service.1.db.1
                    ≡ ok (some found))
                  × (found.order_uid ≡ o.order_uid))))
        r.committed)
run-get_by_uid_example =
    run-get_by_uid recovering memory_cache any_address sample_json clock sample_json-foreign
      recovering-foreign whole program_config fetches early server server-IsUp
