-- ===== src/Repo/Reading/Listing.antt =====
-- OrderRepository.ListByCustomer and LastN of internal/repo/postgres/order_repository.go. WHERE,
-- ORDER BY, LIMIT and OFFSET are written out; a tie that an ORDER BY leaves open is the server's. A
-- row of a page is an order in the Go slice, to which the map `byUID` points.
pub mod Pages
pub mod Paging
pub mod Loops
pub mod Glue
pub mod Last
pub mod Agreement
use wb_tasks_l.Prelude.{
  ℕ, zero, suc, String, Bool, true, false, List, [], ◌∷◌, ◌++◌, map, Option, none, some, ℤ, pos,
  pos_part, ltb_ℤ, leb_ℤ, take, ◌==◌, if◌then◌else◌,
}
use wb_tasks_l.Errors.{Result, ok, err, ◌>>=◌, ◌>>◌}
use wb_tasks_l.Domain.{Delivery, Payment, Item, Order}
use wb_tasks_l.Container.{lookup, insert}
use wb_tasks_l.Repo.{
  OrderRow, Tables, select_page, select_payments, select_deliveries, select_page_items, select_last,
  Server, explained, query,
}
use wb_tasks_l.Repo.Reading.{no_delivery, no_payment, assemble, get_by_uid}

-- ORDER BY with a test for what comes first: rows that it does not put first keep their order.
module _ {ℓ} {A : Type ℓ} (first : A → A → Bool) where
  unfoldable pub place : A → List A → List A
  place x [] = x ∷ []
  place x (y ∷ ys) = let rest = place x ys in if first x y then x ∷ y ∷ ys else y ∷ rest

  unfoldable pub order_by : List A → List A
  unfolding place
  order_by [] = []
  order_by (x ∷ xs) = place x (order_by xs)

unfoldable pub drop {ℓ} : {A : Type ℓ} → ℕ → List A → List A
drop zero xs = xs
drop (suc n) [] = []
drop (suc n) (x ∷ xs) = drop n xs

-- ORDER BY date_created DESC, and what decides between equal dates.
abbrev pub newer : (String → String → Bool) → String × OrderRow → String × OrderRow → Bool
newer tie (u, r) (v, s) =
    if ltb_ℤ s.date_created r.date_created
    then true
    else if ltb_ℤ r.date_created s.date_created
    then false
    else tie u v

-- WHERE customer_id = $1
unfoldable pub rows_of_customer : String → List (String × OrderRow) → List (String × OrderRow)
rows_of_customer customer [] = []
rows_of_customer customer ((uid, row) ∷ rows) =
    let rest = rows_of_customer customer rows in
    if row.customer_id == customer then (uid, row) ∷ rest else rest

-- The page of the first query, for a limit and an offset that are not negative.
unfoldable pub page_of : Server → String → ℤ → ℤ → Tables → List (String × OrderRow)
unfolding order_by drop rows_of_customer
page_of server customer limit offset t = take (pos_part limit) (
    drop (pos_part offset) (order_by (newer server.uid_first) (rows_of_customer customer t.orders)))

abbrev pub normal_limit : ℤ → ℤ
normal_limit limit = if leb_ℤ limit (pos 0) then pos 20 else limit

abbrev pub normal_offset : ℤ → ℤ
normal_offset offset = if ltb_ℤ offset (pos 0) then pos 0 else offset

-- The order as the first query fills it.
abbrev pub base_order : String × OrderRow → Order
base_order (uid, row) = assemble uid row no_delivery no_payment []

unfoldable pub contains : String → List String → Bool
contains uid [] = false
contains uid (other ∷ uids) = let rest = contains uid uids in if other == uid then true else rest

-- WHERE order_uid = ANY($1)
unfoldable pub rows_among {ℓ} : {V : Type ℓ} → List String → List (String × V) → List (String × V)
unfolding contains
rows_among uids [] = []
rows_among uids ((uid, v) ∷ rows) =
    let rest = rows_among uids rows in if contains uid uids then (uid, v) ∷ rest else rest

module _ {ℓ} {V : Type ℓ} (fill : V → Order → Order) where
  -- `if order := byUID[uid]; order != nil { order.… = … }`
  unfoldable pub fill_order : String → V → List Order → List Order
  fill_order uid v [] = []
  fill_order uid v (o ∷ orders) =
      (if o.order_uid == uid then fill v o else o) ∷ fill_order uid v orders

  -- The loop over the rows of a query.
  unfoldable pub fill_orders : List (String × V) → List Order → List Order
  unfolding fill_order
  fill_orders [] orders = orders
  fill_orders ((uid, v) ∷ rows) orders = fill_orders rows (fill_order uid v orders)

abbrev pub fill_payment : Payment → Order → Order
fill_payment p o = record o { payment = p }

abbrev pub fill_delivery : Delivery → Order → Order
fill_delivery d o = record o { delivery = d }

-- itemsByUID[uid], which is nil where there is none.
abbrev pub items_at : String → List (String × List Item) → List Item
items_at uid groups = elim (lookup uid groups) [ none ↦ [] | some items ↦ items ]

-- itemsByUID[uid] = append(itemsByUID[uid], item)
unfoldable pub group_items :
    List (String × Item) → List (String × List Item) → List (String × List Item)
group_items [] groups = groups
group_items ((uid, item) ∷ rows) groups =
    group_items rows (insert uid (items_at uid groups ++ item ∷ []) groups)

-- `if len(items) > 0 { order.Items = items }`
abbrev pub give_items : List Item → Order → Order
give_items [] o = o
give_items (item ∷ items) o = record o { items = some (item ∷ items) }

-- The last three queries, and the loops over their rows.
unfoldable pub complete_page : Server → List (String × OrderRow) → Tables → Result (List Order)
unfolding fill_orders rows_among group_items
complete_page server page t = do
  let uids : List String = map (λ r. r.0) page
  explained "select payments" (query server select_payments)
  let paid : List Order =
      fill_orders fill_payment (rows_among uids t.payments) (map base_order page)
  explained "select deliveries" (query server select_deliveries)
  let delivered : List Order = fill_orders fill_delivery (rows_among uids t.deliveries) paid
  explained "select items" (query server select_page_items)
  let groups : List (String × List Item) =
      group_items (server.sort_items (rows_among uids t.items)) []
  ok (map (λ o. give_items (items_at o.order_uid groups) o) delivered)

unfoldable pub list_by_customer : Server → String → ℤ → ℤ → Tables → Result (List Order)
unfolding page_of complete_page
list_by_customer server customer limit offset t = do
  explained "select customer orders" (query server select_page)
  elim (page_of server customer (normal_limit limit) (normal_offset offset) t) [
    | [] ↦ ok []
    | row ∷ rows ↦ complete_page server (row ∷ rows) t
  ]

-- The loop of LastN over the identifiers.
unfoldable pub read_all : Server → List String → Tables → Result (List Order)
read_all server [] t = ok []
read_all server (uid ∷ uids) t = do
  order ← get_by_uid server uid t
  orders ← read_all server uids t
  ok (elim order [ none ↦ orders | some o ↦ o ∷ orders ])

-- The identifiers of the N newest orders.
unfoldable pub last_uids : Server → ℤ → Tables → List String
unfolding order_by
last_uids server n t = map (λ r. r.0) (take (pos_part n) (order_by (newer server.tie) t.orders))

unfoldable pub last_n : Server → ℤ → Tables → Result (List Order)
unfolding last_uids read_all
last_n server n t = if leb_ℤ n (pos 0) then ok [] else (do
  explained "select last uids" (query server select_last)
  read_all server (last_uids server n t) t)
