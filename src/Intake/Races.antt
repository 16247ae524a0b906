-- ===== src/Intake/Races.antt =====
-- Calls of the service side by side, over the memory cache and the repository of
-- internal/repo/postgres.
mod Tests
use wb_tasks_l.Prelude.{
  ℕ, String, ◌≡◌, refl, ap, ◌∙◌, ◌≢◌, ◌⊎◌, true, false, List, [], ◌∷◌, Option, none, some, inl, inr,
  ℤ, pos, ◌+ℤ◌, ◌≤ℤ◌, arith, subst, sym, All, All-map_of, Option-cases,
}
use wb_tasks_l.Errors.{Result, ok, err, ◌>>=◌, ◌>>◌, bind-ok, Result-cases}
use wb_tasks_l.Domain.{Time, Item, Order}
use wb_tasks_l.Validate.{elements}
use wb_tasks_l.Container.{lookup}
use wb_tasks_l.Cache.{LruCacheTtl, memory_cache}
use wb_tasks_l.Cache.Only.{HasOnly, get-HasOnly, get-own, set-HasOnly}
use wb_tasks_l.Repo.{
  Tables, Server, IsUp, query, explained, to_micros, select_order, select_delivery, select_payment,
  select_items,
}
use wb_tasks_l.Repo.Saving.{is_known, save, upserted_payment}
use wb_tasks_l.Repo.Saving.Integrity.{is_known-save, is_known-saved}
use wb_tasks_l.Repo.Reading.{rows_of, appended, read_parts, get_by_uid}
use wb_tasks_l.Repo.Reading.RoundTrip.{get_by_uid-save}
use wb_tasks_l.Repo.Port.{unsteady_repository, postgres_repository}
use wb_tasks_l.Cache.Invariant.{IsValid}
use wb_tasks_l.Cache.History.{limits-get, limits-set}
use wb_tasks_l.Cache.{get}
use wb_tasks_l.Cache.Port.{memory_cache_laws}
use wb_tasks_l.Service.{World, get_order}
use wb_tasks_l.Service.Races.{Task, asking, answered, saving, settled, race}
use wb_tasks_l.Service.Races.Answers.{StoreLaws, IsNew, IsHonest, race-IsHonest}
use wb_tasks_l.Service.Races.Stale.{overtaking, filled_cache, race_serves_old}

pub get_by_uid-own :
    (server : Server) (uid : String) (t : Tables) (o : Order)
    → get_by_uid server uid t ≡ ok (some o)
    → (o.order_uid ≡ uid) × (is_known uid t.orders ≡ true)
unfolding get_by_uid read_parts query explained
get_by_uid-own server uid t o h = elim (Option-cases (lookup uid t.orders)) [
  | inl e ↦ absurd (ground (arith, h, e))
  | inr (row, e) ↦ (ground (arith, h, e), ground (arith, e))
]

-- What the service needs of both, whatever statements fail.
abbrev pub stores : (servers : ℕ → Server) → StoreLaws (unsteady_repository servers) memory_cache
stores servers = record {
  IsKnown = λ db uid. is_known uid db.1.orders ≡ true;
  get_by_uid-own = λ uid o db h. get_by_uid-own (servers db.0) uid db.1 o h;
  get_by_uid-keeps = λ uid other db known. known;
  save-keeps = λ o other db known. is_known-save (servers db.0) (some o) db.1 other known;
  save-IsKnown = λ o db done. is_known-saved (servers db.0) o db.1 done;
  Only = HasOnly;
  Only-map_of = λ P Q c f only. (only.0, All-map_of (λ v held. f v.id held) _ only.1);
  get-Only = λ P now uid c only. get-HasOnly P now c only uid;
  get-own = λ P now uid c only hit. get-own P now c only uid hit;
  set-Only = λ P now o c allowed only. set-HasOnly P now c only o allowed;
}

-- Whatever statements fail, and in whatever order the steps of the calls come: started where the
-- cache is valid and holds only identifiers with a row, calls of `GetOrder` and saves leave it so;
-- each order that a `GetOrder` has returned has the identifier asked for, which has a row in
-- `orders`, and so has the identifier of each order whose save has returned no error.
pub race-IsStored :
    (servers : ℕ → Server) (schedule : List (ℕ × Time)) (tasks : List Task)
    (w : World LruCacheTtl (ℕ × Tables))
    → HasOnly (λ uid. is_known uid w.db.1.orders ≡ true) w.cache
    → All IsNew tasks
    → (let (w', tasks') = race (unsteady_repository servers) memory_cache schedule tasks w in
        HasOnly (λ uid. is_known uid w'.db.1.orders ≡ true) w'.cache
        × All (IsHonest (λ uid. is_known uid w'.db.1.orders ≡ true)) tasks')
race-IsStored servers schedule tasks w only new =
    race-IsHonest (unsteady_repository servers) memory_cache (stores servers) schedule tasks w only
      new

full-appended : (items : List Item) → appended items ≢ some []
full-appended [] nil = cc
full-appended (item ∷ items) nil = ground (arith, nil)

pub get_by_uid-full :
    (server : Server) (uid : String) (t : Tables) (o : Order)
    → get_by_uid server uid t ≡ ok (some o)
    → o.items ≢ some []
unfolding get_by_uid read_parts query explained
get_by_uid-full server uid t o h nil = elim (Option-cases (lookup uid t.orders)) [
  | inl e ↦ absurd (ground (arith, h, e))
  | inr (row, e) ↦
      let same : o.items ≡ appended (server.arrange (rows_of uid t.items)) = ground (arith, h, e) in
      full-appended (server.arrange (rows_of uid t.items)) (sym same ∙ nil)
]

-- A save is lost to the readers of the cache: where a `GetOrder` misses and reads the old version
-- of an order, then a new version is saved and cached without an error, and only then the
-- `GetOrder` fills the cache, the next `GetOrder` returns the old version, while that is fresh,
-- although a server that is up reads the new version back. The order has an identifier, and the
-- cache is valid.
pub race-get_by_uid :
    (server reader : Server) (t0 t1 t2 t3 t4 later after : Time) (old new : Order)
    (w : World LruCacheTtl Tables)
    → IsValid w.cache
    → (w.cache.ttl ≤ℤ pos 0) ⊎ (later ≤ℤ t4 +ℤ w.cache.ttl)
    → IsUp reader
    → old.order_uid ≢ ""
    → new.order_uid ≡ old.order_uid
    → (get t0 old.order_uid w.cache).2 ≡ false
    → get_by_uid server old.order_uid w.db ≡ ok (some old)
    → (save server (some new) w.db).1 ≡ none
    → (let repo = postgres_repository server in
        let (w', tasks) =
          race repo memory_cache
            (overtaking t0 t1 t2 t3 t4)
            (asking old.order_uid ∷ saving new ∷ [])
            w in
        let (w'', answer) = get_order repo memory_cache later after old.order_uid w' in
        (tasks ≡ answered old.order_uid (ok (some old)) ∷ settled new none ∷ [])
        × (answer ≡ ok (some old))
        × (get_by_uid reader old.order_uid w''.db
            ≡ ok (
                some (record new {
                  payment = upserted_payment new w.db.payments;
                  items = appended (reader.arrange (elements new.items));
                  date_created = to_micros new.date_created;
                }))))
race-get_by_uid server reader t0 t1 t2 t3 t4 later after old new w valid fresh up named same miss
      found done =
    let repo = postgres_repository server in
    let c = (get t0 old.order_uid w.cache).0 in
    let fresh' =
      subst (λ l. (l.ttl ≤ℤ pos 0) ⊎ (later ≤ℤ t4 +ℤ l.ttl))
        (sym (limits-set t3 (some new) c ∙ limits-get t0 old.order_uid w.cache)) fresh in
    let (tasks, answer, db) =
      race_serves_old repo memory_cache t0 t1 t2 t3 t4 old new w memory_cache_laws later after valid
        fresh' named (get_by_uid-full server old.order_uid w.db old found) miss found done in
    (tasks, answer, rw (db, ← same) (get_by_uid-save server reader new w.db up done))
