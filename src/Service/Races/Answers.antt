-- ===== src/Service/Races/Answers.antt =====
-- What the calls of the service answer, in whatever order their steps come.
use wb_tasks_l.Prelude.{
  ℕ, zero, suc, String, ◌≡◌, inl, inr, true, List, [], ◌∷◌, Option, none, some, All, All-map_of,
  Bool-cases, Option-cases,
}
use wb_tasks_l.Errors.{Result, ok, err, Result-cases}
use wb_tasks_l.Domain.{Time, Order}
use wb_tasks_l.Ports.{OrderRepository, OrderCache}
use wb_tasks_l.Service.{World}
use wb_tasks_l.Service.Races.{
  Task, asking, missed, filling, answered, saving, caching, settled, fetched, stored, advance, turn,
  race,
}

-- What a repository and a cache promise, whatever the order of their calls. `IsKnown` says that an
-- order with an identifier is stored, and `Only` that a cache holds identifiers of one kind alone.
pub record StoreLaws {Cache Db : Type 0} (repo : OrderRepository Db) (cache : OrderCache Cache)
    : Type 1 where
  pub IsKnown : Db → String → Type 0
  pub get_by_uid-own :
      (uid : String) (o : Order) (db : Db)
      → (repo.get_by_uid uid db).1 ≡ ok (some o)
      → (o.order_uid ≡ uid) × IsKnown (repo.get_by_uid uid db).0 uid
  pub get_by_uid-keeps :
      (uid other : String) (db : Db) → IsKnown db other → IsKnown (repo.get_by_uid uid db).0 other
  pub save-keeps :
      (o : Order) (other : String) (db : Db)
      → IsKnown db other
      → IsKnown (repo.save (some o) db).0 other
  pub save-IsKnown :
      (o : Order) (db : Db)
      → (repo.save (some o) db).1 ≡ none
      → IsKnown (repo.save (some o) db).0 o.order_uid
  pub Only : (String → Type 0) → Cache → Type 0
  pub Only-map_of :
      (P Q : String → Type 0) (c : Cache) → ((k : String) → P k → Q k) → Only P c → Only Q c
  pub get-Only :
      (P : String → Type 0) (now : Time) (uid : String) (c : Cache)
      → Only P c
      → Only P (cache.get now uid c).0
  pub get-own :
      (P : String → Type 0) (now : Time) (uid : String) (c : Cache)
      → Only P c
      → (cache.get now uid c).2 ≡ true
      → (o : Order) × ((cache.get now uid c).1 ≡ some o) × (o.order_uid ≡ uid) × P uid
  pub set-Only :
      (P : String → Type 0) (now : Time) (o : Order) (c : Cache)
      → P o.order_uid
      → Only P c
      → Only P (cache.set now (some o) c).0

-- A call that has not made a step.
abbrev pub IsNew : Task → Type 0
IsNew (asking uid) = Unit
IsNew (saving o) = Unit
IsNew _ = ⊥

-- The order of an answer has the identifier asked for, and is one that the repository knows.
abbrev pub IsOwn : (String → Type 0) → String → Result (Option Order) → Type 0
IsOwn P uid (ok (some o)) = (o.order_uid ≡ uid) × P uid
IsOwn P uid _ = Unit

-- What the variables of a call say of the repository.
abbrev pub IsHonest : (String → Type 0) → Task → Type 0
IsHonest P (filling uid o) = (o.order_uid ≡ uid) × P uid
IsHonest P (answered uid answer) = IsOwn P uid answer
IsHonest P (caching o) = P o.order_uid
IsHonest P (settled o none) = P o.order_uid
IsHonest P _ = Unit

IsHonest-new : (P : String → Type 0) (task : Task) → IsNew task → IsHonest P task
IsHonest-new P (asking uid) h = tt
IsHonest-new P (saving o) h = tt
IsHonest-new P (missed uid) h = tt
IsHonest-new P (filling uid o) h = elim h [ ]
IsHonest-new P (answered uid answer) h = elim h [ ]
IsHonest-new P (caching o) h = elim h [ ]
IsHonest-new P (settled o failed) h = elim h [ ]

IsOwn-map_of :
    (P Q : String → Type 0) (uid : String) (answer : Result (Option Order))
    → ((k : String) → P k → Q k)
    → IsOwn P uid answer
    → IsOwn Q uid answer
IsOwn-map_of P Q uid (err e) f h = tt
IsOwn-map_of P Q uid (ok none) f h = tt
IsOwn-map_of P Q uid (ok (some o)) f h = (h.0, f uid h.1)

IsHonest-map_of :
    (P Q : String → Type 0) (task : Task)
    → ((k : String) → P k → Q k)
    → IsHonest P task
    → IsHonest Q task
IsHonest-map_of P Q (asking uid) f h = tt
IsHonest-map_of P Q (missed uid) f h = tt
IsHonest-map_of P Q (filling uid o) f h = (h.0, f uid h.1)
IsHonest-map_of P Q (answered uid answer) f h = IsOwn-map_of P Q uid answer f h
IsHonest-map_of P Q (saving o) f h = tt
IsHonest-map_of P Q (caching o) f h = f o.order_uid h
IsHonest-map_of P Q (settled o none) f h = f o.order_uid h
IsHonest-map_of P Q (settled o (some e)) f h = tt

module _ {Cache Db : Type 0} (repo : OrderRepository Db) (cache : OrderCache Cache)
    (laws : StoreLaws repo cache) where
  -- The step of one call: the repository forgets nothing, the cache holds only what it knows, and
  -- so does the call.
  record Kept (w w' : World Cache Db) (task' : Task) : Type 0 where
    grows : (k : String) → laws.IsKnown w.db k → laws.IsKnown w'.db k
    only : laws.Only (laws.IsKnown w'.db) w'.cache
    honest : IsHonest (laws.IsKnown w'.db) task'

  advance-Kept :
      (now : Time) (task : Task) (w : World Cache Db)
      → laws.Only (laws.IsKnown w.db) w.cache
      → IsHonest (laws.IsKnown w.db) task
      → (let (w', task') = advance repo cache now task w in Kept w w' task')
  unfolding advance
  advance-Kept now (asking uid) w only h =
      let after = laws.get-Only (laws.IsKnown w.db) now uid w.cache only in
      elim (Bool-cases (cache.get now uid w.cache).2) [
        | inr miss ↦ rw miss (record { grows = λ k known. known; only = after; honest = tt })
        | inl hit ↦
            let (o, same, own, known) = laws.get-own (laws.IsKnown w.db) now uid w.cache only hit in
            rw (hit, same)
              (record { grows = λ k known. known; only = after; honest = (own, known) })
      ]
  advance-Kept now (missed uid) w only h =
      let grows =
        λ (k : String) (known : laws.IsKnown w.db k). laws.get_by_uid-keeps uid k w.db known in
      let after =
        laws.Only-map_of (laws.IsKnown w.db) (laws.IsKnown (repo.get_by_uid uid w.db).0) w.cache
          grows only in
      elim (Result-cases (repo.get_by_uid uid w.db).1) [
        | inr (e, failed) ↦
            rw (failed, fetched) (record { grows = grows; only = after; honest = tt })
        | inl (order, found) ↦ elim (Option-cases order) [
          | inl nil ↦ rw (found, nil, fetched) (record { grows = grows; only = after; honest = tt })
          | inr (o, there) ↦
              rw (found, there, fetched)
                (record {
                  grows = grows;
                  only = after;
                  honest = laws.get_by_uid-own uid o w.db (rw (found, there));
                })
        ]
      ]
  advance-Kept now (filling uid o) w only h = record {
    grows = λ k known. known;
    only = laws.set-Only (laws.IsKnown w.db) now o w.cache (rw h.0 h.1) only;
    honest = h;
  }
  advance-Kept now (answered uid answer) w only h = record {
    grows = λ k known. known;
    only = only;
    honest = h;
  }
  advance-Kept now (saving o) w only h =
      let grows = λ (k : String) (known : laws.IsKnown w.db k). laws.save-keeps o k w.db known in
      let after =
        laws.Only-map_of (laws.IsKnown w.db) (laws.IsKnown (repo.save (some o) w.db).0) w.cache
          grows only in
      elim (Option-cases (repo.save (some o) w.db).1) [
        | inr (e, failed) ↦
            rw (failed, stored) (record { grows = grows; only = after; honest = tt })
        | inl done ↦
            rw (done, stored)
              (record { grows = grows; only = after; honest = laws.save-IsKnown o w.db done })
      ]
  advance-Kept now (caching o) w only h = record {
    grows = λ k known. known;
    only = laws.set-Only (laws.IsKnown w.db) now o w.cache h only;
    honest = h;
  }
  advance-Kept now (settled o failed) w only h = record {
    grows = λ k known. known;
    only = only;
    honest = h;
  }

  record AllKept (w w' : World Cache Db) (tasks' : List Task) : Type 0 where
    grows : (k : String) → laws.IsKnown w.db k → laws.IsKnown w'.db k
    only : laws.Only (laws.IsKnown w'.db) w'.cache
    honest : All (IsHonest (laws.IsKnown w'.db)) tasks'

  turn-AllKept :
      (i : ℕ) (now : Time) (tasks : List Task) (w : World Cache Db)
      → laws.Only (laws.IsKnown w.db) w.cache
      → All (IsHonest (laws.IsKnown w.db)) tasks
      → (let (w', tasks') = turn repo cache i now tasks w in AllKept w w' tasks')
  unfolding turn
  turn-AllKept i now [] w only h = record { grows = λ k known. known; only = only; honest = tt }
  turn-AllKept zero now (task ∷ tasks) w only h =
      let kept = advance-Kept now task w only h.0 in
      record {
        grows = kept.grows;
        only = kept.only;
        honest = (
          kept.honest,
          All-map_of
              (λ other own.
                IsHonest-map_of (laws.IsKnown w.db)
                  (laws.IsKnown (advance repo cache now task w).0.db) other kept.grows own)
              tasks h.1,
        );
      }
  turn-AllKept (suc i) now (task ∷ tasks) w only h =
      let kept = turn-AllKept i now tasks w only h.1 in
      record {
        grows = kept.grows;
        only = kept.only;
        honest = (
          IsHonest-map_of (laws.IsKnown w.db) (laws.IsKnown (turn repo cache i now tasks w).0.db)
              task kept.grows h.0,
          kept.honest,
        );
      }

  race-Honest :
      (schedule : List (ℕ × Time)) (tasks : List Task) (w : World Cache Db)
      → laws.Only (laws.IsKnown w.db) w.cache
      → All (IsHonest (laws.IsKnown w.db)) tasks
      → (let (w', tasks') = race repo cache schedule tasks w in
          laws.Only (laws.IsKnown w'.db) w'.cache × All (IsHonest (laws.IsKnown w'.db)) tasks')
  unfolding race
  race-Honest [] tasks w only h = (only, h)
  race-Honest ((i, now) ∷ schedule) tasks w only h =
      let kept = turn-AllKept i now tasks w only h in
      let (w', tasks') = turn repo cache i now tasks w in
      race-Honest schedule tasks' w' kept.only kept.honest

  -- Calls of `GetOrder` and saves, however many and with their steps in whatever order, started
  -- where the cache holds only what the repository knows, end there too; each order that a
  -- `GetOrder` has returned has the identifier asked for and is known to the repository, and so is
  -- each order whose save has returned no error.
  pub race-IsHonest :
      (schedule : List (ℕ × Time)) (tasks : List Task) (w : World Cache Db)
      → laws.Only (laws.IsKnown w.db) w.cache
      → All IsNew tasks
      → (let (w', tasks') = race repo cache schedule tasks w in
          laws.Only (laws.IsKnown w'.db) w'.cache × All (IsHonest (laws.IsKnown w'.db)) tasks')
  race-IsHonest schedule tasks w only new =
      race-Honest schedule tasks w only
        (All-map_of (λ task own. IsHonest-new (laws.IsKnown w.db) task own) tasks new)
