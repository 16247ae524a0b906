-- ===== src/Service/Races/Alone.antt =====
-- A call of the service that no other call interrupts.
use wb_tasks_l.Prelude.{String, ◌≡◌, inl, inr, [], ◌∷◌, some, arith, Bool-cases, Option-cases}
use wb_tasks_l.Errors.{Result-cases}
use wb_tasks_l.Domain.{Time, Order}
use wb_tasks_l.Ports.{OrderRepository, OrderCache}
use wb_tasks_l.Service.{World, cache_result, get_order, save_order}
use wb_tasks_l.Service.Races.{asking, answered, saving, settled, stored, advance, run_alone}

module _ {Cache Db : Type 0} (repo : OrderRepository Db) (cache : OrderCache Cache)
    (now mid later : Time) (w : World Cache Db) where
  run_alone-get_order :
      (uid : String)
      → run_alone repo cache (now ∷ mid ∷ later ∷ []) (asking uid) w
        ≡ (let (w', answer) = get_order repo cache now later uid w in (w', answered uid answer))
  unfolding run_alone get_order cache_result
  run_alone-get_order uid = elim (Bool-cases (cache.get now uid w.cache).2) [
    | inl hit ↦ rw hit
    | inr miss ↦ elim (Result-cases (repo.get_by_uid uid w.db).1) [
      | inr (e, failed) ↦ rw (miss, failed)
      | inl (order, found) ↦ elim (Option-cases order) [
        | inl nil ↦ rw (miss, found, nil)
        | inr (o, there) ↦ rw (miss, found, there)
      ]
    ]
  ]

  run_alone-save_order :
      (o : Order)
      → run_alone repo cache (now ∷ later ∷ []) (saving o) w
        ≡ (let (w', failed) = save_order repo cache later o w in (w', settled o failed))
  unfolding run_alone save_order advance stored
  run_alone-save_order o = elim (Option-cases (repo.save (some o) w.db).1) [
    | inl done ↦ ground (arith, done)
    | inr (e, failed) ↦ ground (arith, failed)
  ]

  -- The steps of a call, run one after the other with no other call between them, end in the state
  -- and the result of that call, on every path: those of `GetOrder` in its state and its answer,
  -- and those of a save in the state and the error of `SaveFromMessage` from the call of the
  -- repository on.
  pub run_alone-whole :
      (uid : String) (o : Order)
      → (run_alone repo cache (now ∷ mid ∷ later ∷ []) (asking uid) w
          ≡ (let (w', answer) = get_order repo cache now later uid w in (w', answered uid answer)))
        × (run_alone repo cache (now ∷ later ∷ []) (saving o) w
            ≡ (let (w', failed) = save_order repo cache later o w in (w', settled o failed)))
  run_alone-whole uid o = (run_alone-get_order uid, run_alone-save_order o)
