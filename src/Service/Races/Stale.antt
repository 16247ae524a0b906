-- ===== src/Service/Races/Stale.antt =====
-- A `GetOrder` that a save overtakes.
use wb_tasks_l.Prelude.{◌≡◌, refl, ap, ◌≢◌, false, List, [], ◌∷◌, ℕ, none, some}
use wb_tasks_l.Errors.{ok}
use wb_tasks_l.Domain.{Time, Order}
use wb_tasks_l.Ports.{OrderRepository, OrderCache, CacheLaws}
use wb_tasks_l.Service.{World, get_order}
use wb_tasks_l.Service.Gets.{get_order_hit}
use wb_tasks_l.Service.Races.{
  asking, answered, saving, settled, fetched, stored, advance, turn, race,
}

-- The reader (0) misses and fetches, the save (1) runs from its start to its end, and the reader
-- fills the cache with what it fetched.
abbrev pub overtaking : Time → Time → Time → Time → Time → List (ℕ × Time)
overtaking t0 t1 t2 t3 t4 = (0, t0) ∷ (0, t1) ∷ (1, t2) ∷ (1, t3) ∷ (0, t4) ∷ []

module _ {Cache Db : Type 0} (repo : OrderRepository Db) (cache : OrderCache Cache)
    (t0 t1 t2 t3 t4 : Time) (old new : Order) (w : World Cache Db) where
  abbrev pub fetched_db : Db
  fetched_db = (repo.get_by_uid old.order_uid w.db).0

  abbrev pub filled_cache : Cache
  filled_cache = (cache.set t3 (some new) (cache.get t0 old.order_uid w.cache).0).0

  abbrev pub overtaken : World Cache Db
  overtaken = record {
    cache = (cache.set t4 (some old) filled_cache).0;
    db = (repo.save (some new) fetched_db).0;
  }

  race-overtaking :
      (cache.get t0 old.order_uid w.cache).2 ≡ false
      → (repo.get_by_uid old.order_uid w.db).1 ≡ ok (some old)
      → (repo.save (some new) fetched_db).1 ≡ none
      → race repo cache (overtaking t0 t1 t2 t3 t4) (asking old.order_uid ∷ saving new ∷ []) w
        ≡ (overtaken, answered old.order_uid (ok (some old)) ∷ settled new none ∷ [])
  unfolding race fetched stored turn advance
  race-overtaking miss found done = rw (miss, found, done)

  -- A save is lost to the readers of the cache: where a `GetOrder` misses and fetches the old
  -- version of an order, then a new version is saved and cached without an error, and only then the
  -- `GetOrder` fills the cache, the next `GetOrder` returns the old version while it is fresh,
  -- although the repository is as the save of the new version left it. The old version has an
  -- identifier and a slice of items that is not empty without being nil.
  pub race_serves_old :
      (laws : CacheLaws cache) (later after : Time)
      → laws.IsSound w.cache
      → laws.IsFresh filled_cache t4 later
      → old.order_uid ≢ ""
      → old.items ≢ some []
      → (cache.get t0 old.order_uid w.cache).2 ≡ false
      → (repo.get_by_uid old.order_uid w.db).1 ≡ ok (some old)
      → (repo.save (some new) fetched_db).1 ≡ none
      → (let (w', tasks) =
            race repo cache
              (overtaking t0 t1 t2 t3 t4)
              (asking old.order_uid ∷ saving new ∷ [])
              w in
          let (w'', answer) = get_order repo cache later after old.order_uid w' in
          (tasks ≡ answered old.order_uid (ok (some old)) ∷ settled new none ∷ [])
          × (answer ≡ ok (some old))
          × (w''.db ≡ (repo.save (some new) fetched_db).0))
  race_serves_old laws later after sound fresh named full miss found done =
      let kept = laws.get-IsSound t0 old.order_uid w.cache sound in
      let sound' = laws.set-IsSound t3 (some new) (cache.get t0 old.order_uid w.cache).0 kept in
      let (order, again) = laws.get-set t4 later old filled_cache sound' named full fresh in
      let hit = get_order_hit repo cache later after old.order_uid overtaken again in
      rw (race-overtaking miss found done, hit) (refl, ap ok order, refl)
