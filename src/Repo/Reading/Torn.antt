-- ===== src/Repo/Reading/Torn.antt =====
-- GetByUID of internal/repo/postgres/order_repository.go while another transaction commits: its
-- four queries run outside a transaction, so that each sees the tables of its own moment.
use wb_tasks_l.Prelude.{String, ◌≡◌, refl, ap, ◌∙◌, Option, none, some, arith}
use wb_tasks_l.Errors.{Result, ok, ◌>>◌}
use wb_tasks_l.Domain.{Order}
use wb_tasks_l.Validate.{elements}
use wb_tasks_l.Container.{lookup}
use wb_tasks_l.Repo.{
  OrderRow, Tables, Statement, select_order, select_delivery, select_payment, select_items, Server,
  IsUp, explained, query,
}
use wb_tasks_l.Repo.Saving.{upserted_payment, save}
use wb_tasks_l.Repo.Saving.Constraints.{saved_tables, save-saved_tables, lookup-insert_same}
use wb_tasks_l.Repo.Reading.{
  rows_of, no_delivery, no_payment, row_or, assemble, read_parts, get_by_uid,
}
use wb_tasks_l.Repo.Reading.RoundTrip.{rows_of-replaced}

-- GetByUID, over the tables that each query sees.
unfoldable pub get_by_uid_at : Server → String → (Statement → Tables) → Result (Option Order)
get_by_uid_at server uid at_query = do
  explained "select order" (query server select_order)
  elim (lookup uid (at_query select_order).orders) [
    | none ↦ ok none
    | some row ↦ do
      explained "select delivery" (query server select_delivery)
      explained "select payment" (query server select_payment)
      explained "select items" (query server select_items)
      ok (
          some (
            assemble uid row (row_or no_delivery (lookup uid (at_query select_delivery).deliveries))
              (row_or no_payment (lookup uid (at_query select_payment).payments))
              (server.arrange (rows_of uid (at_query select_items).items))))
  ]

-- A commit after the first query.
abbrev pub committed_between : Tables → Tables → Statement → Tables
committed_between before after select_order = before
committed_between before after select_delivery = after
committed_between before after select_payment = after
committed_between before after select_items = after
committed_between before after _ = after

get_by_uid_at-found :
    (server : Server) (uid : String) (at_query : Statement → Tables) (row : OrderRow)
    → IsUp server
    → lookup uid (at_query select_order).orders ≡ some row
    → get_by_uid_at server uid at_query
      ≡ ok (
          some (
            assemble uid row
              (row_or no_delivery (lookup uid (at_query select_delivery).deliveries))
              (row_or no_payment (lookup uid (at_query select_payment).payments))
              (server.arrange (rows_of uid (at_query select_items).items))))
unfolding get_by_uid_at query explained
get_by_uid_at-found server uid at_query row up found = ground (
  arith,
  found,
  up.answers select_order,
  up.answers select_delivery,
  up.answers select_payment,
  up.answers select_items,
)

-- Of an order that has a row in `orders`: where nothing commits between its queries, `GetByUID`
-- reads one state of the tables; where a save of a new version commits after the first of them, on
-- a server that is up, it returns the fields of the old row with the delivery, the payment and the
-- items of the new version.
pub get_by_uid_at-torn :
    (server writer : Server) (t : Tables) (o : Order) (row : OrderRow)
    → IsUp server
    → lookup o.order_uid t.orders ≡ some row
    → (save writer (some o) t).1 ≡ none
    → (get_by_uid_at server o.order_uid (λ s. t) ≡ get_by_uid server o.order_uid t)
      × (get_by_uid_at server o.order_uid (committed_between t (save writer (some o) t).0)
          ≡ ok (
              some (
                assemble o.order_uid row o.delivery
                  (upserted_payment o t.payments)
                  (server.arrange (elements o.items)))))
unfolding get_by_uid_at get_by_uid read_parts saved_tables
get_by_uid_at-torn server writer t o row up found done = (
  refl,
  ap (λ after. get_by_uid_at server o.order_uid (committed_between t after))
        (save-saved_tables writer o t done)
      ∙ get_by_uid_at-found server o.order_uid (committed_between t (saved_tables o t)) row up found
      ∙ rw (
        lookup-insert_same o.order_uid o.delivery t.deliveries,
        lookup-insert_same o.order_uid (upserted_payment o t.payments) t.payments,
        rows_of-replaced o.order_uid (elements o.items) t.items,
      ),
)
