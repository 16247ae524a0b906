-- ===== src/Samples.antt =====
-- Concrete orders, and small implementations of the parameters, for the tests.
use wb_tasks_l.Prelude.{
  String, ℕ, eqb, Bool, true, List, [], ◌∷◌, Option, none, some, pos, ◌==◌, if◌then◌else◌,
}
use wb_tasks_l.Errors.{Error, new, plain, Result, ok, err}
use wb_tasks_l.Domain.{Item, Order}
use wb_tasks_l.Validate.{year_2000}
use wb_tasks_l.Ports.{OrderRepository, JsonDecoder}

abbrev pub cup : Item
cup = record {
  chrt_id = pos 9934930;
  track_number = "TRACK";
  price = pos 453;
  rid = "rid";
  name = "Cup";
  sale = pos 30;
  size = "0";
  total_price = pos 317;
  nm_id = pos 2389212;
  brand = "Brand";
  status = pos 202;
}

-- An order with the identifier `uid`.
abbrev pub order_of : String → Order
order_of uid = record {
  order_uid = uid;
  track_number = "TRACK";
  entry = "WBIL";
  delivery = record {
    name = "Name";
    phone = "+1";
    zip = "1";
    city = "City";
    address = "Street 1";
    region = "Region";
    email = "user@example.com";
  };
  payment = record {
    transaction = "txn";
    request_id = "";
    currency = "USD";
    provider = "wbpay";
    amount = pos 1817;
    payment_dt = pos 1637907727;
    bank = "alpha";
    delivery_cost = pos 1500;
    goods_total = pos 317;
    custom_fee = pos 0;
  };
  items = some (cup ∷ []);
  locale = "en";
  internal_signature = "";
  customer_id = "customer";
  delivery_service = "meest";
  shard_key = "9";
  sm_id = pos 99;
  date_created = year_2000;
  oof_shard = "1";
}

-- Every address parses.
abbrev pub any_address : String → Bool
any_address text = true

-- A message that begins with 1 is the order "a", with 2 an order with no identifier, with 3 the
-- order "b", and nothing else is JSON.
abbrev pub first : List ℕ → ℕ
first [] = 0
first (n ∷ raw) = n

abbrev pub decode_sample : List ℕ → Result (Order × Unit {0})
decode_sample raw =
    if eqb (first raw) 1
    then ok (order_of "a", tt)
    else if eqb (first raw) 2
    then ok (order_of "", tt)
    else if eqb (first raw) 3
    then ok (order_of "b", tt)
    else err (new (plain "syntax error"))

abbrev pub sample_json : JsonDecoder
sample_json = record { Rest = Unit; decode = decode_sample; at_eof = λ rest. true }

abbrev find_order : String → List Order → Option Order
find_order uid [] = none
find_order uid (o ∷ orders) = if o.order_uid == uid then some o else find_order uid orders

-- A repository that keeps orders in a list, and refuses those of the customer "".
abbrev save_sample : Option Order → List Order → List Order × Option Error
save_sample none db = (db, some (new (plain "order is empty")))
save_sample (some o) db =
    if o.customer_id == ""
    then (db, some (new (plain "customer_id is required")))
    else (o ∷ db, none)

abbrev pub sample_repo : OrderRepository (List Order)
sample_repo = record {
  save = save_sample;
  get_by_uid = λ uid db. (db, ok (find_order uid db));
  list_by_customer = λ customer limit offset db. (db, ok db);
  last_n = λ n db. (db, ok db);
}
