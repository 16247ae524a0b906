-- ===== src/Repo/Reading/Frame.antt =====
-- What GetByUID reads of the orders that Save does not write.
use wb_tasks_l.Prelude.{
  fun_ext, List, Option, String, ◌≡◌, ◌≢◌, refl, ap, ◌∙◌, false, some, none, arith, eq_iff, ◌==◌,
}
use wb_tasks_l.Errors.{Result, ok, ◌>>◌}
use wb_tasks_l.Domain.{Delivery, Payment, Item, Order}
use wb_tasks_l.Validate.{elements}
use wb_tasks_l.Container.{lookup}
use wb_tasks_l.Container.Laws.{lookup-insert}
use wb_tasks_l.Repo.{
  OrderRow, select_order, select_delivery, select_payment, select_items, Tables, Server, query,
  explained,
}
use wb_tasks_l.Repo.Saving.{order_row, upserted_payment, save}
use wb_tasks_l.Repo.Saving.Constraints.{saved_tables, save-kept}
use wb_tasks_l.Repo.Saving.Integrity.{rows_of-replaced_ne}
use wb_tasks_l.Repo.Reading.{
  rows_of, no_delivery, no_payment, row_or, assemble, read_parts, get_by_uid,
}

-- The four tables as far as GetByUID reads them.
parts_of :
    Server
    → String
    → OrderRow
    → Option Delivery
    → Option Payment
    → List Item
    → Result (Option Order)
parts_of server uid row delivery payment items = do
  explained "select delivery" (query server select_delivery)
  explained "select payment" (query server select_payment)
  explained "select items" (query server select_items)
  ok (
      some (
        assemble uid row (row_or no_delivery delivery) (row_or no_payment payment)
          (server.arrange items)))

found_of : Server → Option OrderRow → (OrderRow → Result (Option Order)) → Result (Option Order)
found_of server row next = do
  explained "select order" (query server select_order)
  elim row [ none ↦ ok none | some r ↦ next r ]

get_by_uid_congr :
    (server : Server) (uid : String) (t t' : Tables)
    → lookup uid t.orders ≡ lookup uid t'.orders
    → lookup uid t.deliveries ≡ lookup uid t'.deliveries
    → lookup uid t.payments ≡ lookup uid t'.payments
    → rows_of uid t.items ≡ rows_of uid t'.items
    → get_by_uid server uid t ≡ get_by_uid server uid t'
unfolding get_by_uid read_parts parts_of found_of
get_by_uid_congr server uid t t' o d p i =
    let parts : (row : OrderRow) → read_parts server uid row t ≡ read_parts server uid row t' =
      λ row.
        ap (λ x. parts_of server uid row x (lookup uid t.payments) (rows_of uid t.items)) d
        ∙ ap (λ x. parts_of server uid row (lookup uid t'.deliveries) x (rows_of uid t.items)) p
        ∙ ap (parts_of server uid row (lookup uid t'.deliveries) (lookup uid t'.payments)) i in
    ap (λ x. found_of server x (λ row. read_parts server uid row t)) o
    ∙ ap (found_of server (lookup uid t'.orders)) (fun_ext parts)

-- A save, whether it succeeds or not, leaves every other order as it is read.
pub get_by_uid-save_ne :
    (server reader : Server) (o : Order) (uid : String) (t : Tables)
    → uid ≢ o.order_uid
    → get_by_uid reader uid (save server (some o) t).0 ≡ get_by_uid reader uid t
unfolding saved_tables
get_by_uid-save_ne server reader o uid t other =
    let apart : (o.order_uid == uid) ≡ false = ground (arith, other, eq_iff o.order_uid uid) in
    save-kept server o t (λ t'. get_by_uid reader uid t' ≡ get_by_uid reader uid t) refl
      (λ v.
        get_by_uid_congr reader uid (saved_tables o t) t
          (rw (lookup-insert o.order_uid uid (order_row o) t.orders, apart) refl)
          (rw (lookup-insert o.order_uid uid o.delivery t.deliveries, apart) refl)
          (rw (lookup-insert o.order_uid uid (upserted_payment o t.payments) t.payments, apart)
            refl)
          (rows_of-replaced_ne o.order_uid uid (elements o.items) t.items apart))
