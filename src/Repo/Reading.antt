-- ===== src/Repo/Reading.antt =====
-- OrderRepository.GetByUID of internal/repo/postgres/order_repository.go. A failed scan of the rows
-- of a query stands as a failure of the query.
pub mod RoundTrip
pub mod Frame
pub mod Torn
pub mod Listing
use wb_tasks_l.Prelude.{String, List, [], ◌∷◌, Option, none, some, pos, ◌==◌, if◌then◌else◌}
use wb_tasks_l.Errors.{Result, ok, ◌>>=◌, ◌>>◌}
use wb_tasks_l.Domain.{Delivery, Payment, Item, Order}
use wb_tasks_l.Container.{lookup}
use wb_tasks_l.Repo.{
  OrderRow, Tables, select_order, select_delivery, select_payment, select_items, Server, explained,
  query,
}

-- The rows of an order.
unfoldable pub rows_of : String → List (String × Item) → List Item
rows_of uid [] = []
rows_of uid ((key, item) ∷ items) =
    let rest = rows_of uid items in if key == uid then item ∷ rest else rest

abbrev pub no_delivery : Delivery
no_delivery = record {
  name = "";
  phone = "";
  zip = "";
  city = "";
  address = "";
  region = "";
  email = "";
}

abbrev pub no_payment : Payment
no_payment = record {
  transaction = "";
  request_id = "";
  currency = "";
  provider = "";
  amount = pos 0;
  payment_dt = pos 0;
  bank = "";
  delivery_cost = pos 0;
  goods_total = pos 0;
  custom_fee = pos 0;
}

-- A row that is not there leaves the zero value.
abbrev pub row_or {ℓ} : {A : Type ℓ} → A → Option A → A
row_or zero_value none = zero_value
row_or zero_value (some row) = row

-- `append` to a nil slice.
abbrev pub appended : List Item → Option (List Item)
appended [] = none
appended (item ∷ items) = some (item ∷ items)

abbrev pub assemble : String → OrderRow → Delivery → Payment → List Item → Order
assemble uid row delivery payment items = record {
  order_uid = uid;
  track_number = row.track_number;
  entry = row.entry;
  delivery = delivery;
  payment = payment;
  items = appended items;
  locale = row.locale;
  internal_signature = row.internal_signature;
  customer_id = row.customer_id;
  delivery_service = row.delivery_service;
  shard_key = row.shard_key;
  sm_id = row.sm_id;
  date_created = row.date_created;
  oof_shard = row.oof_shard;
}

-- The rest of GetByUID, once the row of the order is read.
unfoldable pub read_parts : Server → String → OrderRow → Tables → Result (Option Order)
unfolding rows_of
read_parts server uid row t = do
  explained "select delivery" (query server select_delivery)
  explained "select payment" (query server select_payment)
  explained "select items" (query server select_items)
  ok (
      some (
        assemble uid row (row_or no_delivery (lookup uid t.deliveries))
          (row_or no_payment (lookup uid t.payments)) (server.arrange (rows_of uid t.items))))

unfoldable pub get_by_uid : Server → String → Tables → Result (Option Order)
unfolding read_parts
get_by_uid server uid t = do
  explained "select order" (query server select_order)
  elim (lookup uid t.orders) [ none ↦ ok none | some row ↦ read_parts server uid row t ]
