-- ===== src/Service/Gets.antt =====
-- What `GetOrder` returns: the cache's copy, or the repository's order, which is then cached.
use wb_tasks_l.Prelude.{ℕ, String, ◌≡◌, refl, ap, ◌≢◌, true, false, List, [], none, some, arith}
use wb_tasks_l.Errors.{ok}
use wb_tasks_l.Domain.{Time, Order}
use wb_tasks_l.Ports.{OrderRepository, OrderCache, CacheLaws, OrderValidator, JsonDecoder}
use wb_tasks_l.Service.{World, parse_message, save_from_message, cache_result, get_order}
use wb_tasks_l.Service.Saves.{save_from_message-Outcome, unreadable, refused, unsaved, saved}

module _ {Cache Db : Type 0} (repo : OrderRepository Db) (cache : OrderCache Cache) where
  pub get_order_hit :
      (now later : Time) (uid : String) (w : World Cache Db)
      → (cache.get now uid w.cache).2 ≡ true
      → get_order repo cache now later uid w
        ≡ (record w { cache = (cache.get now uid w.cache).0 }, ok (cache.get now uid w.cache).1)
  unfolding get_order
  get_order_hit now later uid w hit = rw hit

  pub get_order_miss :
      (now later : Time) (uid : String) (o : Order) (w : World Cache Db)
      → (cache.get now uid w.cache).2 ≡ false
      → (repo.get_by_uid uid w.db).1 ≡ ok (some o)
      → (get_order repo cache now later uid w).1 ≡ ok (some o)
  unfolding get_order cache_result
  get_order_miss now later uid o w miss found = rw (miss, found)

  abbrev stored : Time → Order → World Cache Db → World Cache Db
  stored now o w = record {
    cache = (cache.set now (some o) w.cache).0;
    db = (repo.save (some o) w.db).0;
  }

  module _ (laws : CacheLaws cache) where
    -- Once a message is saved, its order is served from the cache: where `SaveFromMessage` returned
    -- no error for a message that holds `o`, `GetOrder` of its identifier, while the entry is
    -- fresh, returns `o` and does not touch the repository. The order has an identifier and a slice
    -- of items that is not empty without being nil.
    pub get_order-save_from_message :
        (validator : OrderValidator) (json : JsonDecoder) (now later after : Time) (raw : List ℕ)
        (o : Order) (w : World Cache Db)
        → laws.IsSound w.cache
        → laws.IsFresh w.cache now later
        → o.order_uid ≢ ""
        → o.items ≢ some []
        → parse_message json raw ≡ ok o
        → (save_from_message repo cache validator json now raw w).1 ≡ none
        → (let w' = (save_from_message repo cache validator json now raw w).0 in
            let (w'', answer) = get_order repo cache later after o.order_uid w' in
            (answer ≡ ok (some o)) × (w''.db ≡ w'.db))
    get_order-save_from_message validator json now later after raw o w sound fresh named full parsed
          done =
        elim (save_from_message-Outcome repo cache validator json now raw w) [
          | unreadable e p _ f ↦ cc
          | refused o' e _ _ _ f ↦ cc
          | unsaved o' e _ _ _ _ f ↦ cc
          | saved o' p _ _ e f ↦
              let same : o' ≡ o = ground arith in
              let (order, found) = laws.get-set now later o w.cache sound named full fresh in
              let hit = get_order_hit later after o.order_uid (stored now o w) found in
              rw (e, same, hit) (ap ok order, refl)
        ]

    -- A second `GetOrder` of an order that the repository has is a hit: where the first call missed
    -- and the repository answered with `o` under the identifier asked for, the first call returns
    -- `o`, and the second returns it too and does not touch the repository, while it is fresh.
    pub get_order_twice :
        (t now later after : Time) (o : Order) (w : World Cache Db)
        → laws.IsSound w.cache
        → laws.IsFresh (cache.get t o.order_uid w.cache).0 now later
        → o.order_uid ≢ ""
        → o.items ≢ some []
        → (cache.get t o.order_uid w.cache).2 ≡ false
        → (repo.get_by_uid o.order_uid w.db).1 ≡ ok (some o)
        → (let (w', first) = get_order repo cache t now o.order_uid w in
            let (w'', second) = get_order repo cache later after o.order_uid w' in
            (first ≡ ok (some o)) × (second ≡ ok (some o)) × (w''.db ≡ w'.db))
    unfolding get_order cache_result
    get_order_twice t now later after o w sound fresh named full miss found =
        let c = (cache.get t o.order_uid w.cache).0 in
        let w' : World Cache Db = record {
          cache = (cache.set now (some o) c).0;
          db = (repo.get_by_uid o.order_uid w.db).0;
        } in
        let first : get_order repo cache t now o.order_uid w ≡ (w', ok (some o)) =
          rw (get_order, miss, found) in
        let (order, again) =
          laws.get-set now later o c (laws.get-IsSound t o.order_uid w.cache sound) named full
            fresh in
        let hit = get_order_hit later after o.order_uid w' again in
        rw (first, hit) (refl, ap ok order, refl)
