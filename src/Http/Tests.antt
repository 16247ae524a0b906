-- ===== src/Http/Tests.antt =====
-- The handlers on small requests.
use wb_tasks_l.Prelude.{
  String, ℕ, suc, leb_ℤ, ◌≡◌, refl, [], ◌∷◌, Option, none, some, ℤ, pos, negsuc, ◌≤ℤ◌, arith, ◌==◌,
  if◌then◌else◌,
}
use wb_tasks_l.Errors.{ok, err, new, plain}
use wb_tasks_l.Samples.{order_of}
use wb_tasks_l.Http.{
  OrderReadService, failure, clamp_int, parse_limit, parse_offset, parse_limit_offset,
  get_order_by_id, list_orders_by_customer,
}
use wb_tasks_l.Http.Pages.{list_orders_by_customer-pages}

program : Unit {0}
unfolding clamp_int parse_limit parse_offset parse_limit_offset get_order_by_id
    list_orders_by_customer
program = tt

-- It reads three texts.
abbrev atoi : String → Option ℤ
atoi text =
    if text == "500"
    then some (pos 500)
    else if text == "-3"
    then some (negsuc 2)
    else if text == "0"
    then some (pos 0)
    else none

abbrev itoa : ℤ → String
itoa n = "20"

-- ?limit=500&offset=-3
abbrev query : String → Option String
query key = if key == "limit" then some "500" else if key == "offset" then some "-3" else none

-- A service that knows one order, and refuses a page of no orders.
abbrev service : OrderReadService ℕ
service = record {
  get_order = λ id n. (suc n, if id == "a" then ok (some (order_of "a")) else ok none);
  orders_by_customer = λ customer limit offset n.
      (suc n, if leb_ℤ limit (pos 0) then err (new (plain "no limit")) else ok (order_of "a" ∷ []));
}

-- The same, but for a page of no orders.
abbrev lenient : OrderReadService ℕ
lenient = record {
  get_order = service.get_order;
  orders_by_customer = λ customer limit offset n. (suc n, ok (order_of "a" ∷ []));
}

page : parse_limit_offset atoi itoa query (pos 20) (pos 100) ≡ (pos 100, pos 0)
unfolding program
page = refl

missing :
    get_order_by_id service "b" 0 ≡ (1, record { status = 404; body = failure "order not found" })
unfolding program
missing = refl

list_orders_by_customer-pages_example :
    list_orders_by_customer service atoi itoa query "customer" 0
    ≡ list_orders_by_customer lenient atoi itoa query "customer" 0
list_orders_by_customer-pages_example =
    list_orders_by_customer-pages atoi itoa service lenient query "customer" 0 agree
  where
    agree :
        (customer : String) (limit offset : ℤ)
        → pos 1 ≤ℤ limit
        → limit ≤ℤ pos 100
        → pos 0 ≤ℤ offset
        → service.orders_by_customer customer limit offset 0
          ≡ lenient.orders_by_customer customer limit offset 0
    agree customer limit offset low high start = ground arith
