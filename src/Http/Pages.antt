-- ===== src/Http/Pages.antt =====
-- Which pages the list handler asks for, and what an API client gets for a saved order.
use wb_tasks_l.Prelude.{
  String, ◌≡◌, refl, ◌≢◌, inl, inr, List, [], Option, none, some, ℕ, ℤ, pos, ◌≤ℤ◌, arith,
  Bool-cases, eq_iff, ◌==◌,
}
use wb_tasks_l.Errors.{ok}
use wb_tasks_l.Domain.{Time, Order}
use wb_tasks_l.Ports.{OrderRepository, OrderCache, CacheLaws, OrderValidator, JsonDecoder}
use wb_tasks_l.Service.{World, parse_message, save_from_message, get_order, orders_by_customer}
use wb_tasks_l.Service.Gets.{get_order-save_from_message}
use wb_tasks_l.Http.{
  OrderReadService, one, clamp_int, parse_limit, parse_offset, parse_limit_offset, get_order_by_id,
  list_orders_by_customer,
}

module _ (atoi : String → Option ℤ) (itoa : ℤ → String) where
  parse_offset-bounds : (query : String → Option String) → pos 0 ≤ℤ parse_offset atoi itoa query
  unfolding parse_offset
  parse_offset-bounds query = ground arith

  parse_limit-bounds :
      (query : String → Option String) (default_limit max_limit : ℤ)
      → pos 1 ≤ℤ default_limit
      → default_limit ≤ℤ max_limit
      → (pos 1 ≤ℤ parse_limit atoi itoa query default_limit max_limit)
        × (parse_limit atoi itoa query default_limit max_limit ≤ℤ max_limit)
  unfolding parse_limit clamp_int
  parse_limit-bounds query default_limit max_limit low high = ground arith

  -- Whatever the query says, the limit is between 1 and the greatest limit and the offset is not
  -- negative, where the default limit is in that range.
  pub parse_limit_offset-bounds :
      (query : String → Option String) (default_limit max_limit : ℤ)
      → pos 1 ≤ℤ default_limit
      → default_limit ≤ℤ max_limit
      → (let (limit, offset) = parse_limit_offset atoi itoa query default_limit max_limit in
          (pos 1 ≤ℤ limit) × (limit ≤ℤ max_limit) × (pos 0 ≤ℤ offset))
  unfolding parse_limit_offset
  parse_limit_offset-bounds query default_limit max_limit low high =
      let (above, below) = parse_limit-bounds query default_limit max_limit low high in
      (above, below, parse_offset-bounds query)

  -- The list handler asks the service for no page but those with a limit from 1 to 100 and an
  -- offset that is not negative: two services that agree on these pages give the same response, and
  -- end in the same state, for every query.
  pub list_orders_by_customer-pages :
      {Service : Type 0} (a b : OrderReadService Service) (query : String → Option String)
      (id : String) (s : Service)
      → ((customer : String) (limit offset : ℤ)
          → pos 1 ≤ℤ limit
          → limit ≤ℤ pos 100
          → pos 0 ≤ℤ offset
          → a.orders_by_customer customer limit offset s
            ≡ b.orders_by_customer customer limit offset s)
      → list_orders_by_customer a atoi itoa query id s
        ≡ list_orders_by_customer b atoi itoa query id s
  unfolding list_orders_by_customer
  list_orders_by_customer-pages a b query id s agree =
      let (low, high, start) =
        parse_limit_offset-bounds query (pos 20) (pos 100) (omega arith) (omega arith) in
      let same = agree id _ _ low high start in
      elim (Bool-cases (id == "")) [ inl q ↦ rw q | inr q ↦ rw (q, same) ]

-- The service of internal/usecase as the port that the handlers depend on, at the times of a
-- request.
abbrev pub read_service :
    {Cache Db : Type 0}
    → OrderRepository Db
    → OrderCache Cache
    → Time
    → Time
    → OrderReadService (World Cache Db)
read_service repo cache now later = record {
  get_order = get_order repo cache now later;
  orders_by_customer = orders_by_customer repo cache;
}

module _ {Cache Db : Type 0} (repo : OrderRepository Db) (cache : OrderCache Cache)
    (laws : CacheLaws cache) where
  -- A client of the API sees a saved order: where `SaveFromMessage` returned no error for a message
  -- that holds `o`, a request for its identifier, while the cached entry is fresh, gets status 200
  -- with `o`, and does not touch the repository. The order has an identifier and a slice of items
  -- that is not empty without being nil.
  pub get_order_by_id-save_from_message :
      (validator : OrderValidator) (json : JsonDecoder) (now later after : Time) (raw : List ℕ)
      (o : Order) (w : World Cache Db)
      → laws.IsSound w.cache
      → laws.IsFresh w.cache now later
      → o.order_uid ≢ ""
      → o.items ≢ some []
      → parse_message json raw ≡ ok o
      → (save_from_message repo cache validator json now raw w).1 ≡ none
      → (let w' = (save_from_message repo cache validator json now raw w).0 in
          let (w'', response) =
            get_order_by_id (read_service repo cache later after) o.order_uid w' in
          (response ≡ record { status = 200; body = one o }) × (w''.db ≡ w'.db))
  unfolding get_order_by_id
  get_order_by_id-save_from_message validator json now later after raw o w sound fresh named full
        parsed done =
      let (answer, same) =
        get_order-save_from_message repo cache laws validator json now later after raw o w sound
          fresh named full parsed done in
      elim (Bool-cases (o.order_uid == "")) [
        | inl q ↦ absurd (named ((eq_iff o.order_uid "").0 q))
        | inr q ↦ rw (q, answer) (refl, same)
      ]
