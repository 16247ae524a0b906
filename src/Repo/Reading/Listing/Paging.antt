-- ===== src/Repo/Reading/Listing/Paging.antt =====
-- ListByCustomer page after page.
use wb_tasks_l.Prelude.{String, List}
use wb_tasks_l.Domain.{Item, Order}
use wb_tasks_l.Container.{lookup}
use wb_tasks_l.Repo.Saving.Keys.{IsKeyedTables}
use wb_tasks_l.Repo.{OrderRow, Tables, Server, IsUp}
use wb_tasks_l.Repo.Reading.{rows_of, no_delivery, no_payment, row_or, assemble}
use wb_tasks_l.Repo.Reading.Listing.Agreement.{IsSortedBy}

module _ (server : Server) (by_chrt : List Item → List Item) (t : Tables) (up : IsUp server)
    (sorts : IsSortedBy server by_chrt) (keyed : IsKeyedTables t) (customer : String) where
  -- The order that ListByCustomer builds for a row.
  listed : String × OrderRow → Order
  listed (uid, row) =
      assemble uid row (row_or no_delivery (lookup uid t.deliveries))
        (row_or no_payment (lookup uid t.payments)) (by_chrt (rows_of uid t.items))
