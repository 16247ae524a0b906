-- ===== src/Cache/Port.antt =====
-- The memory cache fills the interface that the service asks for.
use wb_tasks_l.Prelude.{pos, ◌+ℤ◌, ◌≤ℤ◌, ◌⊎◌}
use wb_tasks_l.Ports.{CacheLaws}
use wb_tasks_l.Cache.{memory_cache}
use wb_tasks_l.Cache.Invariant.{IsValid}
use wb_tasks_l.Cache.Reads.{get-IsValid}
use wb_tasks_l.Cache.History.{set-IsValid}
use wb_tasks_l.Cache.Promises.{get-set}

-- The laws of the cache, by its theorems. A stored order is fresh up to the end of its term.
abbrev pub memory_cache_laws : CacheLaws memory_cache
memory_cache_laws = record {
  IsSound = IsValid;
  IsFresh = λ c now later. (c.ttl ≤ℤ pos 0) ⊎ (later ≤ℤ now +ℤ c.ttl);
  get-IsSound = get-IsValid;
  set-IsSound = set-IsValid;
  get-set = λ now later o c v named full fresh. get-set now o c v named later full fresh;
}
