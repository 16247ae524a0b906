-- ===== src/Intake/Coherence/Tests.antt =====
-- A message, and its order asked for twice.
use wb_tasks_l.Prelude.{List, [], ◌∷◌, pos}
use wb_tasks_l.Samples.{any_address, sample_json}
use wb_tasks_l.Cache.{LruCacheTtl, new_lru_cache_ttl, memory_cache}
use wb_tasks_l.Cache.History.{new_lru_cache_ttl-IsValid}
use wb_tasks_l.Repo.{Tables}
use wb_tasks_l.Repo.Samples.{server, server-IsUp, vacant}
use wb_tasks_l.Repo.Reading.{get_by_uid}
use wb_tasks_l.Repo.Port.{postgres_repository}
use wb_tasks_l.Service.{World, get_order}
use wb_tasks_l.Intake.{order_validator}
use wb_tasks_l.Intake.Coherence.{Agrees, Coherent}
use wb_tasks_l.Intake.Coherence.Calls.{Call, asks, takes, play, play-Agrees}

abbrev start : World LruCacheTtl Tables
start = record { cache = new_lru_cache_ttl (pos 2) (pos 0); db = vacant }

start-Coherent : Coherent server start
unfolding new_lru_cache_ttl
start-Coherent = record { valid = (new_lru_cache_ttl-IsValid (pos 2) (pos 0)).0; reflects = tt }

abbrev calls : List Call
calls =
    asks (pos 1) (pos 2) "a"
    ∷ takes (pos 3) (1 ∷ [])
    ∷ asks (pos 4) (pos 5) "a"
    ∷ takes (pos 6) (3 ∷ [])
    ∷ []

play-Agrees_example :
    (let w' = play server (order_validator any_address) sample_json calls start in
      Agrees server
        (get_order (postgres_repository server) memory_cache (pos 7) (pos 8) "a" w').1
        (get_by_uid server "a" w'.db))
play-Agrees_example =
    play-Agrees server server-IsUp (order_validator any_address) sample_json calls (pos 7) (pos 8)
      "a" start start-Coherent
