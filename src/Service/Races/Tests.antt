-- ===== src/Service/Races/Tests.antt =====
-- Calls of the service on the memory cache and a repository that is a list.
use wb_tasks_l.Prelude.{◌≡◌, List, [], ◌∷◌, pos}
use wb_tasks_l.Domain.{Order}
use wb_tasks_l.Samples.{order_of, sample_repo}
use wb_tasks_l.Cache.{LruCacheTtl, new_lru_cache_ttl, memory_cache}
use wb_tasks_l.Service.{World, get_order, save_order}
use wb_tasks_l.Service.Races.{asking, answered, saving, settled, run_alone}
use wb_tasks_l.Service.Races.Alone.{run_alone-whole}

abbrev start : World LruCacheTtl (List Order)
start = record { cache = new_lru_cache_ttl (pos 2) (pos 0); db = [] }

alone_and_whole :
    (run_alone sample_repo memory_cache (pos 1 ∷ pos 2 ∷ pos 3 ∷ []) (asking "a") start ≡ (
      let (w', answer) = get_order sample_repo memory_cache (pos 1) (pos 3) "a" start in
      (w', answered "a" answer)))
    × (run_alone sample_repo memory_cache (pos 1 ∷ pos 3 ∷ []) (saving (order_of "b")) start ≡ (
        let (w', failed) = save_order sample_repo memory_cache (pos 3) (order_of "b") start in
        (w', settled (order_of "b") failed)))
alone_and_whole =
    run_alone-whole sample_repo memory_cache (pos 1) (pos 2) (pos 3) start "a" (order_of "b")
