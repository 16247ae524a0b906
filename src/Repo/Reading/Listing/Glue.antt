-- ===== src/Repo/Reading/Listing/Glue.antt =====
-- The four queries of ListByCustomer, put together: the order that they make of each row of the
-- page.
use wb_tasks_l.Prelude.{
  map_congr, map-compose, String, ◌≡◌, refl, ap, ◌∙◌, true, List, [], ◌∷◌, map, none, some, inl,
  inr, All, All-map_of, Option-cases,
}
use wb_tasks_l.Errors.{ok}
use wb_tasks_l.Domain.{Delivery, Payment, Item, Order}
use wb_tasks_l.Container.{lookup}
use wb_tasks_l.Repo.Saving.Keys.{IsKeyed}
use wb_tasks_l.Repo.{
  OrderRow, Tables, select_payments, select_deliveries, select_page_items, Server, IsUp, query-up,
}
use wb_tasks_l.Repo.Reading.{rows_of, no_delivery, no_payment, row_or, assemble}
use wb_tasks_l.Repo.Reading.Listing.{
  base_order, contains, rows_among, fill_orders, fill_payment, fill_delivery, items_at, group_items,
  give_items, complete_page,
}
use wb_tasks_l.Repo.Reading.Listing.Loops.{
  settle, fill_orders-settle, settle-absent, settle-present, lookup-rows_among, All-rows_among,
  contains-keys, items_at-group_items,
}

-- The order that the queries for a page make of a row.
abbrev pub row_order : Server → List String → Tables → String × OrderRow → Order
row_order server uids t (uid, row) =
    assemble uid row (row_or no_delivery (lookup uid t.deliveries))
      (row_or no_payment (lookup uid t.payments))
      (rows_of uid (server.sort_items (rows_among uids t.items)))

module _ {ℓ} {V : Type ℓ} (fill : V → Order → Order) (table : List (String × V))
    (keyed : IsKeyed table) (keeps : (v : V) (o : Order) → (fill v o).order_uid ≡ o.order_uid)
    (overwrites : (v w : V) (o : Order) → fill v (fill w o) ≡ fill v o) where
  fill_from : Order → Order
  fill_from o = elim (lookup o.order_uid table) [ none ↦ o | some v ↦ fill v o ]

  settle-fill_from :
      (uids : List String) (o : Order)
      → contains o.order_uid uids ≡ true
      → settle fill (rows_among uids table) o ≡ fill_from o
  unfolding fill_from
  settle-fill_from uids o here =
      let found : lookup o.order_uid (rows_among uids table) ≡ lookup o.order_uid table =
        lookup-rows_among uids o.order_uid table ∙ rw here in
      elim (Option-cases (lookup o.order_uid table)) [
        | inl e ↦
            rw (e, fill_from)
              (settle-absent fill table keeps overwrites (rows_among uids table) o (found ∙ e))
        | inr (v, e) ↦
            rw (e, fill_from)
              (settle-present fill table keeps overwrites (rows_among uids table) o v
                (All-rows_among (λ r. lookup r.0 table ≡ some r.1) uids table keyed) e (found ∙ e))
      ]

give_items-assemble :
    (uid : String) (row : OrderRow) (d : Delivery) (p : Payment) (items : List Item)
    → give_items items (assemble uid row d p []) ≡ assemble uid row d p items
give_items-assemble uid row d p [] = refl
give_items-assemble uid row d p (item ∷ items) = refl

module _ (server : Server) (t : Tables) (paid : IsKeyed t.payments) (sent : IsKeyed t.deliveries)
    (uids : List String) where
  groups : List (String × List Item)
  groups = group_items (server.sort_items (rows_among uids t.items)) []

  glue : Order → Order
  glue o =
      let settled =
        settle fill_delivery (rows_among uids t.deliveries)
          (settle fill_payment (rows_among uids t.payments) o) in
      give_items (items_at settled.order_uid groups) settled

  paid_order :
      (uid : String) (row : OrderRow)
      → contains uid uids ≡ true
      → settle fill_payment (rows_among uids t.payments) (base_order (uid, row))
        ≡ assemble uid row no_delivery (row_or no_payment (lookup uid t.payments)) []
  unfolding fill_from
  paid_order uid row here =
      settle-fill_from fill_payment t.payments paid (λ p o. refl) (λ p q o. refl) uids
        (base_order (uid, row)) here
      ∙ elim (Option-cases (lookup uid t.payments)) [
        | inl e ↦ rw (e, fill_from)
        | inr (p, e) ↦ rw (e, fill_from)
      ]

  delivered_order :
      (uid : String) (row : OrderRow) (p : Payment)
      → contains uid uids ≡ true
      → settle fill_delivery (rows_among uids t.deliveries) (assemble uid row no_delivery p [])
        ≡ assemble uid row (row_or no_delivery (lookup uid t.deliveries)) p []
  unfolding fill_from
  delivered_order uid row p here =
      settle-fill_from fill_delivery t.deliveries sent (λ d o. refl) (λ d e o. refl) uids
        (assemble uid row no_delivery p []) here
      ∙ elim (Option-cases (lookup uid t.deliveries)) [
        | inl e ↦ rw (e, fill_from)
        | inr (d, e) ↦ rw (e, fill_from)
      ]

  glue-row_order :
      (r : String × OrderRow)
      → contains r.0 uids ≡ true
      → glue (base_order r) ≡ row_order server uids t r
  unfolding glue groups lookup rows_of
  glue-row_order (uid, row) here =
      let d = row_or no_delivery (lookup uid t.deliveries) in
      let p = row_or no_payment (lookup uid t.payments) in
      ap (λ o. give_items (items_at o.order_uid groups) o)
        (ap (settle fill_delivery (rows_among uids t.deliveries)) (paid_order uid row here)
          ∙ delivered_order uid row p here)
      ∙ ap (λ items. give_items items (assemble uid row d p []))
          (items_at-group_items uid (server.sort_items (rows_among uids t.items)) [])
      ∙ give_items-assemble uid row d p (rows_of uid (server.sort_items (rows_among uids t.items)))

module _ (server : Server) (t : Tables) (up : IsUp server) (paid : IsKeyed t.payments)
    (sent : IsKeyed t.deliveries) where
  joined :
      (page : List (String × OrderRow)) (uids : List String)
      → All (λ r. contains r.0 uids ≡ true) page
      → map
          (λ o. give_items (items_at o.order_uid (groups server t paid sent uids)) o)
          (fill_orders fill_delivery
            (rows_among uids t.deliveries)
            (fill_orders fill_payment (rows_among uids t.payments) (map base_order page)))
        ≡ map (row_order server uids t) page
  unfolding glue
  joined page uids here =
      let first = settle fill_payment (rows_among uids t.payments) in
      let second = settle fill_delivery (rows_among uids t.deliveries) in
      let give =
        λ (o : Order). give_items (items_at o.order_uid (groups server t paid sent uids)) o in
      ap (map give) (
        ap (fill_orders fill_delivery (rows_among uids t.deliveries)) (
          fill_orders-settle fill_payment (rows_among uids t.payments) (map base_order page)
          ∙ map-compose base_order first page)
        ∙ fill_orders-settle fill_delivery (rows_among uids t.deliveries)
            (map (λ r. first (base_order r)) page)
        ∙ map-compose (λ r. first (base_order r)) second page)
      ∙ map-compose (λ r. second (first (base_order r))) give page
      ∙ map_congr (λ r. give (second (first (base_order r)))) (row_order server uids t) page
          (All-map_of (λ r h. glue-row_order server t paid sent uids r h) page here)

  pub complete_page-row_order :
      (page : List (String × OrderRow))
      → complete_page server page t ≡ ok (map (row_order server (map (λ r. r.0) page) t) page)
  unfolding complete_page groups
  complete_page-row_order page =
      query-up server "select payments" select_payments _ up
      ∙ query-up server "select deliveries" select_deliveries _ up
      ∙ query-up server "select items" select_page_items _ up
      ∙ ap ok (joined page (map (λ r. r.0) page) (contains-keys page))
