-- ===== src/Repo/Reading/Listing/Agreement.antt =====
-- ListByCustomer against GetByUID, order by order.
use wb_tasks_l.Prelude.{
  map_congr, map-compose, String, ◌≡◌, refl, ap, sym, ◌∙◌, true, List, [], ◌∷◌, map, some, ℤ,
  All-map_of, All-both,
}
use wb_tasks_l.Errors.{ok}
use wb_tasks_l.Domain.{Item, Order}
use wb_tasks_l.Container.{lookup}
use wb_tasks_l.Repo.Saving.Keys.{IsKeyedTables}
use wb_tasks_l.Repo.{OrderRow, Tables, select_page, Server, IsUp, query-up}
use wb_tasks_l.Repo.Reading.{rows_of, no_delivery, no_payment, row_or, assemble, get_by_uid}
use wb_tasks_l.Repo.Reading.RoundTrip.{get_by_uid_found}
use wb_tasks_l.Repo.Reading.Listing.{
  page_of, normal_limit, normal_offset, contains, rows_among, complete_page, list_by_customer,
}
use wb_tasks_l.Repo.Reading.Listing.Pages.{All-page_of}
use wb_tasks_l.Repo.Reading.Listing.Loops.{contains-keys}
use wb_tasks_l.Repo.Reading.Listing.Glue.{row_order, complete_page-row_order}

-- ORDER BY order_uid, chrt_id arranges the items of each order in one way, whatever other orders
-- are selected with it.
pub record IsSortedBy (server : Server) (by_chrt : List Item → List Item) : Type 0 where
  pub each :
      (uids : List String) (uid : String) (items : List (String × Item))
      → contains uid uids ≡ true
      → rows_of uid (server.sort_items (rows_among uids items)) ≡ by_chrt (rows_of uid items)

module _ (server : Server) (by_chrt : List Item → List Item) (t : Tables) (up : IsUp server)
    (sorts : IsSortedBy server by_chrt) (keyed : IsKeyedTables t) where
  pub reader : Server
  reader = record server { arrange = by_chrt }

  reader-IsUp : IsUp reader
  unfolding reader
  reader-IsUp = record { answers = up.answers }

  row_order-get_by_uid :
      (uids : List String) (r : String × OrderRow)
      → contains r.0 uids ≡ true
      → lookup r.0 t.orders ≡ some r.1
      → get_by_uid reader r.0 t ≡ ok (some (row_order server uids t r))
  unfolding reader
  row_order-get_by_uid uids (uid, row) here found =
      get_by_uid_found reader uid t row reader-IsUp found
      ∙ ap
          (λ items. ok (
            some (
              assemble uid row (row_or no_delivery (lookup uid t.deliveries))
                (row_or no_payment (lookup uid t.payments)) items)))
          (sym (sorts.each uids uid t.items here))

  -- An empty page needs no further query.
  pub page_or_nothing :
      (page : List (String × OrderRow))
      → elim page [ [] ↦ ok [] | row ∷ rows ↦ complete_page server (row ∷ rows) t ]
        ≡ ok (map (row_order server (map (λ r. r.0) page) t) page)
  page_or_nothing [] = refl
  page_or_nothing (row ∷ rows) =
      complete_page-row_order server t up keyed.payments keyed.deliveries (row ∷ rows)

  -- ListByCustomer does not fail on a server that is up, and every order of the page that it
  -- returns is the one that GetByUID reads under the identifier of the row, in the order of the
  -- page. The items of GetByUID are in the arrangement that ORDER BY gives them.
  pub list_by_customer-get_by_uid :
      (customer : String) (limit offset : ℤ)
      → (orders : List Order) × (list_by_customer server customer limit offset t ≡ ok orders)
        × (map
              (λ r. get_by_uid reader r.0 t)
              (page_of server customer (normal_limit limit) (normal_offset offset) t)
            ≡ map (λ o. ok (some o)) orders)
  unfolding list_by_customer
  list_by_customer-get_by_uid customer limit offset =
      let page = page_of server customer (normal_limit limit) (normal_offset offset) t in
      let uids : List String = map (λ r. r.0) page in
      let stored =
        All-page_of server customer t (λ r. lookup r.0 t.orders ≡ some r.1) (normal_limit limit)
          (normal_offset offset) keyed.orders in
      let reads : map (λ r. get_by_uid reader r.0 t) page
          ≡ map (λ r. ok (some (row_order server uids t r))) page =
        map_congr _ _ page (
          All-map_of (λ r h. row_order-get_by_uid uids r h.0 h.1) page
            (All-both _ _ page (contains-keys page) stored)) in
      (
        map (row_order server uids t) page,
        query-up server "select customer orders" select_page _ up ∙ page_or_nothing page,
        reads ∙ sym (map-compose (row_order server uids t) (λ o. ok (some o)) page),
      )
