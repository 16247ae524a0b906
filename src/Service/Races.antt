-- ===== src/Service/Races.antt =====
-- `GetOrder` and the end of `SaveFromMessage` (internal/usecase/order_service.go) as they run side
-- by side. The service has no lock of its own: an access to the cache or to the repository is one
-- step, and between two steps of a call any other call may make its own. The cache is guarded by
-- its mutex; a call of the repository is one step here, its statements are not interleaved.
pub mod Alone
pub mod Answers
pub mod Stale
mod Tests
use wb_tasks_l.Prelude.{
  ℕ, zero, suc, String, Bool, true, false, List, [], ◌∷◌, Option, none, some, if◌then◌else◌,
}
use wb_tasks_l.Errors.{Error, plain, wrap, Result, ok, err}
use wb_tasks_l.Domain.{Time, Order}
use wb_tasks_l.Ports.{OrderRepository, OrderCache}
use wb_tasks_l.Service.{World}

-- Where a call stands, with the variables that are live there.
pub data Task : Type 0 where
  asking : (uid : String) → Task  -- before cache.Get
  missed : (uid : String) → Task  -- before repo.GetByUID
  filling : (uid : String) → (o : Order) → Task  -- before the cache.Set of GetOrder
  answered : (uid : String) → (answer : Result (Option Order)) → Task
  saving : (o : Order) → Task  -- before repo.Save
  caching : (o : Order) → Task  -- before the cache.Set of SaveFromMessage
  settled : (o : Order) → (failed : Option Error) → Task

-- GetOrder, once the repository has answered.
unfoldable pub fetched : String → Result (Option Order) → Task
fetched uid (err e) = answered uid (err e)
fetched uid (ok none) = answered uid (ok none)
fetched uid (ok (some o)) = filling uid o

-- SaveFromMessage, once the repository has answered.
unfoldable pub stored : Order → Option Error → Task
stored o (some e) = settled o (some (wrap (plain "failed to save order") e))
stored o none = caching o

module _ {Cache Db : Type 0} (repo : OrderRepository Db) (cache : OrderCache Cache) where
  -- One step of a call, at the time at which it reads the clock.
  unfoldable pub advance : Time → Task → World Cache Db → World Cache Db × Task
  unfolding fetched stored
  advance now (asking uid) w =
      let (c, order, found) = cache.get now uid w.cache in
      (record w { cache = c }, if found then answered uid (ok order) else missed uid)
  advance now (missed uid) w =
      let (db, answer) = repo.get_by_uid uid w.db in (record w { db = db }, fetched uid answer)
  advance now (filling uid o) w =
      (record w { cache = (cache.set now (some o) w.cache).0 }, answered uid (ok (some o)))
  advance now (answered uid answer) w = (w, answered uid answer)
  advance now (saving o) w =
      let (db, failed) = repo.save (some o) w.db in (record w { db = db }, stored o failed)
  advance now (caching o) w =
      (record w { cache = (cache.set now (some o) w.cache).0 }, settled o none)
  advance now (settled o failed) w = (w, settled o failed)

  -- A call that runs alone, a step at each of the times.
  unfoldable pub run_alone : List Time → Task → World Cache Db → World Cache Db × Task
  unfolding advance
  run_alone [] task w = (w, task)
  run_alone (now ∷ times) task w = let (w', task') = advance now task w in run_alone times task' w'

  -- The scheduler lets the call number `i` make a step.
  unfoldable pub turn : ℕ → Time → List Task → World Cache Db → World Cache Db × List Task
  unfolding advance
  turn i now [] w = (w, [])
  turn zero now (task ∷ tasks) w = let (w', task') = advance now task w in (w', task' ∷ tasks)
  turn (suc i) now (task ∷ tasks) w = let (w', tasks') = turn i now tasks w in (w', task ∷ tasks')

  unfoldable pub race : List (ℕ × Time) → List Task → World Cache Db → World Cache Db × List Task
  unfolding turn
  race [] tasks w = (w, tasks)
  race ((i, now) ∷ schedule) tasks w =
      let (w', tasks') = turn i now tasks w in race schedule tasks' w'
