-- ===== src/Service/Warming.antt =====
-- The cache after `WarmUpCache`.
use wb_tasks_l.Prelude.{ℕ, List, ℤ, pos, leb_ℤ, inl, inr, Bool-cases}
use wb_tasks_l.Errors.{Result-cases}
use wb_tasks_l.Domain.{Order}
use wb_tasks_l.Ports.{Moment, OrderRepository, OrderCache}
use wb_tasks_l.Service.{World, warm_up_with, warm_up_cache}

-- What holds of a cache, and of that cache after any WarmUp, holds of it after `WarmUpCache`.
pub warm_up_cache-keeps {ℓ} :
    {Cache Db : Type 0} (repo : OrderRepository Db) (cache : OrderCache Cache) (P : Cache → Type ℓ)
    (moments : ℕ → Moment) (n : ℤ) (w : World Cache Db)
    → P w.cache
    → ((orders : List Order) → P (cache.warm_up moments orders w.cache).0)
    → P (warm_up_cache repo cache moments n w).0.cache
unfolding warm_up_cache warm_up_with
warm_up_cache-keeps repo cache P moments n w before after = elim (Bool-cases (leb_ℤ n (pos 0))) [
  | inl q ↦ rw q before
  | inr q ↦ elim (Result-cases (repo.last_n n w.db).1) [
    | inl (orders, r) ↦ rw (q, r) (after orders)
    | inr (e, r) ↦ rw (q, r) before
  ]
]
