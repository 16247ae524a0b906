-- ===== src/Repo/Reading/RoundTrip.antt =====
-- What GetByUID reads after Save.
use wb_tasks_l.Prelude.{
  String, ◌≡◌, refl, ap, ◌∙◌, List, [], ◌∷◌, ◌++◌, map, none, some, arith, eq_refl,
}
use wb_tasks_l.Errors.{ok}
use wb_tasks_l.Domain.{Item, Order}
use wb_tasks_l.Validate.{elements}
use wb_tasks_l.Container.{lookup, delete}
use wb_tasks_l.Repo.{
  OrderRow, Tables, select_order, select_delivery, select_payment, select_items, Server, IsUp,
  to_micros, explained, query,
}
use wb_tasks_l.Repo.Saving.{order_row, upserted_payment, save}
use wb_tasks_l.Repo.Saving.Constraints.{saved_tables, save-saved_tables, lookup-insert_same}
use wb_tasks_l.Repo.Reading.{
  rows_of, no_delivery, no_payment, row_or, appended, assemble, read_parts, get_by_uid,
}

rows_of-delete :
    (uid : String) (items rows : List (String × Item))
    → rows_of uid (delete uid items ++ rows) ≡ rows_of uid rows
unfolding rows_of delete
rows_of-delete uid [] rows = refl
rows_of-delete uid ((key, item) ∷ items) rows = ground (arith, rows_of-delete uid items rows)

rows_of-map :
    (uid : String) (items : List Item) → rows_of uid (map (λ item. (uid, item)) items) ≡ items
unfolding rows_of
rows_of-map uid [] = refl
rows_of-map uid (item ∷ items) = rw (eq_refl uid) (ap (◌∷◌ item) (rows_of-map uid items))

-- The items of an order after it was stored.
pub rows_of-replaced :
    (uid : String) (new : List Item) (items : List (String × Item))
    → rows_of uid (delete uid items ++ map (λ item. (uid, item)) new) ≡ new
rows_of-replaced uid new items =
    rows_of-delete uid items (map (λ item. (uid, item)) new) ∙ rows_of-map uid new

-- GetByUID on a server that is up.
pub get_by_uid_found :
    (server : Server) (uid : String) (t : Tables) (row : OrderRow)
    → IsUp server
    → lookup uid t.orders ≡ some row
    → get_by_uid server uid t
      ≡ ok (
          some (
            assemble uid row
              (row_or no_delivery (lookup uid t.deliveries))
              (row_or no_payment (lookup uid t.payments))
              (server.arrange (rows_of uid t.items))))
unfolding get_by_uid read_parts query explained
get_by_uid_found server uid t row up found = ground (
  arith,
  found,
  up.answers select_order,
  up.answers select_delivery,
  up.answers select_payment,
  up.answers select_items,
)

pub get_by_uid_missing :
    (server : Server) (uid : String) (t : Tables)
    → IsUp server
    → lookup uid t.orders ≡ none
    → get_by_uid server uid t ≡ ok none
unfolding get_by_uid query explained
get_by_uid_missing server uid t up missing = ground (arith, missing, up.answers select_order)

-- What `Save` stored, `GetByUID` reads: where `Save` returned no error, on whatever server, a
-- server that is up reads the order back with every field but three. Its items come in the order in
-- which the server returns their rows, as a nil slice if there are none; its date is cut to whole
-- microseconds; and its payment keeps the `transaction` of the payment that was stored under the
-- identifier before, if there was one.
pub get_by_uid-save :
    (server reader : Server) (o : Order) (t : Tables)
    → IsUp reader
    → (save server (some o) t).1 ≡ none
    → get_by_uid reader o.order_uid (save server (some o) t).0
      ≡ ok (
          some (record o {
            payment = upserted_payment o t.payments;
            items = appended (reader.arrange (elements o.items));
            date_created = to_micros o.date_created;
          }))
unfolding saved_tables
get_by_uid-save server reader o t up done =
    ap (get_by_uid reader o.order_uid) (save-saved_tables server o t done)
    ∙ get_by_uid_found reader o.order_uid (saved_tables o t) (order_row o) up
        (lookup-insert_same o.order_uid (order_row o) t.orders)
    ∙ rw (
      lookup-insert_same o.order_uid o.delivery t.deliveries,
      lookup-insert_same o.order_uid (upserted_payment o t.payments) t.payments,
      rows_of-replaced o.order_uid (elements o.items) t.items,
    )
