-- ===== src/Intake/Races/Tests.antt =====
-- Two calls side by side on small data.
use wb_tasks_l.Prelude.{
  ℕ, zero, suc, ◌≡◌, refl, ◌≢◌, true, false, List, [], ◌∷◌, none, some, inl, pos, All, ◌≤ℤ◌, arith,
}
use wb_tasks_l.Errors.{plain, new, ok}
use wb_tasks_l.Domain.{Time, Order}
use wb_tasks_l.Validate.{elements}
use wb_tasks_l.Samples.{order_of}
use wb_tasks_l.Container.{lookup, insert}
use wb_tasks_l.Container.Laws.{find_value}
use wb_tasks_l.Cache.{LruCacheTtl, get, new_lru_cache_ttl, memory_cache}
use wb_tasks_l.Cache.Spec.{read}
use wb_tasks_l.Cache.Reads.{get-read}
use wb_tasks_l.Cache.History.{new_lru_cache_ttl-IsValid}
use wb_tasks_l.Cache.Only.{HasOnly}
use wb_tasks_l.Repo.{fits_timestamp, Server, Tables, to_micros, exec, explained, query}
use wb_tasks_l.Repo.Samples.{server, server-IsUp, vacant}
use wb_tasks_l.Repo.Saving.{is_known, upserted_payment, save}
use wb_tasks_l.Repo.Reading.{appended, get_by_uid}
use wb_tasks_l.Repo.Reading.RoundTrip.{get_by_uid-save}
use wb_tasks_l.Repo.Port.{unsteady_repository, postgres_repository}
use wb_tasks_l.Service.{World, get_order}
use wb_tasks_l.Service.Races.{Task, asking, saving, answered, settled, race}
use wb_tasks_l.Service.Races.Answers.{IsHonest}
use wb_tasks_l.Service.Races.Stale.{overtaking}
use wb_tasks_l.Intake.Races.{race-IsStored, race-get_by_uid}

abbrev empty_cache : LruCacheTtl
empty_cache = new_lru_cache_ttl (pos 2) (pos 0)

-- The first statement fails.
abbrev flaky : ℕ → Server
flaky zero = record server { fails = λ s. some (new (plain "connection refused")) }
flaky (suc n) = server

abbrev calls : List Task
calls = asking "a" ∷ saving (order_of "a") ∷ asking "a" ∷ []

abbrev order : List (ℕ × Time)
order = (0, pos 1) ∷ (1, pos 2) ∷ (2, pos 3) ∷ (1, pos 4) ∷ (0, pos 5) ∷ (2, pos 6) ∷ []

abbrev early : World LruCacheTtl (ℕ × Tables)
early = record { cache = empty_cache; db = (0, vacant) }

early-HasOnly : HasOnly (λ uid. is_known uid vacant.orders ≡ true) empty_cache
unfolding new_lru_cache_ttl
early-HasOnly = ((new_lru_cache_ttl-IsValid (pos 2) (pos 0)).0, tt)

race-IsStored_example :
    (let (w', tasks') = race (unsteady_repository flaky) memory_cache order calls early in
      HasOnly (λ uid. is_known uid w'.db.1.orders ≡ true) w'.cache
      × All (IsHonest (λ uid. is_known uid w'.db.1.orders ≡ true)) tasks')
race-IsStored_example = race-IsStored flaky order calls early early-HasOnly (tt, (tt, (tt, tt)))

-- The version of the order "a" that the tables hold, and a new one.
abbrev tables : Tables
tables = (save server (some (order_of "a")) vacant).0

abbrev old : Order
old = record (order_of "a") {
  payment = upserted_payment (order_of "a") [];
  items = appended (elements (order_of "a").items);
  date_created = to_micros (order_of "a").date_created;
}

abbrev revised : Order
revised = record (order_of "a") { track_number = "NEW" }

old_stored : get_by_uid server "a" tables ≡ ok (some old)
unfolding save query explained exec lookup insert fits_timestamp
old_stored = get_by_uid-save server server (order_of "a") vacant server-IsUp refl

revised_saved : (save server (some revised) tables).1 ≡ none
unfolding save query explained exec lookup insert fits_timestamp
revised_saved = refl

abbrev filled : World LruCacheTtl Tables
filled = record { cache = empty_cache; db = tables }

missed : (get (pos 1) "a" empty_cache).2 ≡ false
unfolding read find_value new_lru_cache_ttl
missed = (get-read (pos 1) "a" empty_cache (new_lru_cache_ttl-IsValid (pos 2) (pos 0)).0).2

endless : empty_cache.ttl ≤ℤ pos 0
unfolding new_lru_cache_ttl
endless = omega arith

a-ne-empty : old.order_uid ≢ ""
a-ne-empty e = cc

race-get_by_uid_example :
    (let repo = postgres_repository server in
      let (w', tasks) =
        race repo memory_cache
          (overtaking (pos 1) (pos 2) (pos 3) (pos 4) (pos 5))
          (asking "a" ∷ saving revised ∷ [])
          filled in
      let (w'', answer) = get_order repo memory_cache (pos 6) (pos 7) "a" w' in
      (tasks ≡ answered "a" (ok (some old)) ∷ settled revised none ∷ [])
      × (answer ≡ ok (some old))
      × (get_by_uid server "a" w''.db
          ≡ ok (
              some (record revised {
                payment = upserted_payment revised tables.payments;
                items = appended (elements revised.items);
                date_created = to_micros revised.date_created;
              }))))
race-get_by_uid_example =
    race-get_by_uid server server (pos 1) (pos 2) (pos 3) (pos 4) (pos 5) (pos 6) (pos 7) old
      revised filled (new_lru_cache_ttl-IsValid (pos 2) (pos 0)).0 (inl endless) server-IsUp
      a-ne-empty refl missed old_stored revised_saved
