-- ===== src/Repo/Reading/Listing/Last.antt =====
-- LastN, over the rows that its query selects.
use wb_tasks_l.Prelude.{String, List, [], ◌∷◌, ◌≤ℤ◌, All}
use wb_tasks_l.Domain.{Order}
use wb_tasks_l.Container.{lookup}
use wb_tasks_l.Repo.{OrderRow, Tables, Server}
use wb_tasks_l.Repo.Reading.{rows_of, no_delivery, no_payment, row_or, assemble}

-- Orders whose dates do not rise from the front to the back.
abbrev pub IsRecentFirst : List Order → Type 0
IsRecentFirst [] = Unit
IsRecentFirst (o ∷ orders) =
    All (λ p. p.date_created ≤ℤ o.date_created) orders × IsRecentFirst orders

module _ (server : Server) (t : Tables) where
  -- The order that GetByUID finds for a row.
  found_order : String × OrderRow → Order
  found_order (uid, row) =
      assemble uid row (row_or no_delivery (lookup uid t.deliveries))
        (row_or no_payment (lookup uid t.payments)) (server.arrange (rows_of uid t.items))
