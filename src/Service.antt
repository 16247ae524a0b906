-- ===== src/Service.antt =====
-- internal/usecase/order_service.go over its ports. The state is that of the cache and of the
-- repository; the logger is left out, since no result depends on it. Each method takes the times
-- at which its calls read the clock.
pub mod Saves
pub mod Gets
pub mod Warming
pub mod Races
use wb_tasks_l.Prelude.{
  ℕ, String, Bool, true, false, List, Option, none, some, ℤ, pos, leb_ℤ, if◌then◌else◌,
}
use wb_tasks_l.Errors.{Error, Message, plain, new, wrap, Result, ok, err}
use wb_tasks_l.Domain.{Time, Order}
use wb_tasks_l.Ports.{Moment, OrderRepository, OrderCache, OrderValidator, JsonDecoder}

pub record World (Cache Db : Type 0) : Type 0 where
  pub cache : Cache
  pub db : Db

-- What the decoder makes of a message: unknown fields and trailing data are errors.
unfoldable pub parse_message : JsonDecoder → List ℕ → Result Order
parse_message json raw = elim (json.decode raw) [
  | err e ↦ err (wrap (plain "invalid json") e)
  | ok (o, rest) ↦
      if json.at_eof rest then ok o else err (new (plain "invalid json: trailing data"))
]

module _ {Cache Db : Type 0} (repo : OrderRepository Db) (cache : OrderCache Cache) where
  -- GetOrder, once the cache has missed and the repository has answered. An error of the cache is
  -- logged and dropped.
  unfoldable pub cache_result :
      Time → Result (Option Order) → World Cache Db → World Cache Db × Result (Option Order)
  cache_result now (err e) w = (w, err e)
  cache_result now (ok none) w = (w, ok none)
  cache_result now (ok (some o)) w =
      (record w { cache = (cache.set now (some o) w.cache).0 }, ok (some o))

  unfoldable pub get_order :
      Time → Time → String → World Cache Db → World Cache Db × Result (Option Order)
  unfolding cache_result
  get_order now later uid w =
      let (c, order, found) = cache.get now uid w.cache in
      if found
      then (record w { cache = c }, ok order)
      else (let (db, answer) = repo.get_by_uid uid w.db in
          cache_result later answer (record { cache = c; db = db }))

  abbrev pub orders_by_customer :
      String → ℤ → ℤ → World Cache Db → World Cache Db × Result (List Order)
  orders_by_customer customer limit offset w =
      let (db, answer) = repo.list_by_customer customer limit offset w.db in
      (record w { db = db }, answer)

  warm_up_with : (ℕ → Moment) → Result (List Order) → World Cache Db → World Cache Db × Option Error
  warm_up_with moments (err e) w = (w, some e)
  warm_up_with moments (ok orders) w =
      (record w { cache = (cache.warm_up moments orders w.cache).0 }, none)

  pub warm_up_cache : (ℕ → Moment) → ℤ → World Cache Db → World Cache Db × Option Error
  unfolding warm_up_with
  warm_up_cache moments n w =
      if leb_ℤ n (pos 0)
      then (w, none)
      else (let (db, answer) = repo.last_n n w.db in
          warm_up_with moments answer (record w { db = db }))

  -- SaveFromMessage from the call of the repository on.
  unfoldable pub save_order : Time → Order → World Cache Db → World Cache Db × Option Error
  save_order now o w =
      let (db, failed) = repo.save (some o) w.db in
      (elim failed [
        | some e ↦ (record w { db = db }, some (wrap (plain "failed to save order") e))
        | none ↦ (record { cache = (cache.set now (some o) w.cache).0; db = db }, none)
      ])

  module _ (validator : OrderValidator) where
    -- From the validation on.
    unfoldable pub accept_order : Time → Order → World Cache Db → World Cache Db × Option Error
    unfolding save_order
    accept_order now o w = elim (validator.validate (some o)) [
      | err e ↦ (w, some (wrap (plain "validation failed") e))
      | ok _ ↦ save_order now o w
    ]

    unfoldable pub save_from_message :
        JsonDecoder → Time → List ℕ → World Cache Db → World Cache Db × Option Error
    unfolding accept_order parse_message
    save_from_message json now raw w = elim (parse_message json raw) [
      | err e ↦ (w, some e)
      | ok o ↦ accept_order now o w
    ]
