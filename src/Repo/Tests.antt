-- ===== src/Repo/Tests.antt =====
-- The repository on small tables: those with no row, and those with the orders "a" and "b".
use wb_tasks_l.Prelude.{
  String, ◌≡◌, ◌⊎◌, refl, ap, ◌∙◌, true, List, [], ◌∷◌, map, none, some, pos, ltb_ℤ, arith, Option,
  eq_iff, Bool-cases, inl, inr, ◌==◌, if◌then◌else◌,
}
use wb_tasks_l.Errors.{Error, plain, new, ok}
use wb_tasks_l.Domain.{Item, Order}
use wb_tasks_l.Validate.{elements}
use wb_tasks_l.Samples.{order_of}
use wb_tasks_l.Container.{lookup, insert}
use wb_tasks_l.Repo.Saving.Keys.{IsKeyedTables}
use wb_tasks_l.Repo.Samples.{refusal, before, by_chrt, server, server-IsUp, vacant}
use wb_tasks_l.Repo.{
  Tables, Server, Statement, commit_tx, fits_timestamp, to_micros, exec, explained, query,
}
use wb_tasks_l.Repo.Saving.{order_row, upserted_payment, save}
use wb_tasks_l.Repo.Saving.Constraints.{IsStorable, saved_tables, save_atomic}
use wb_tasks_l.Repo.Reading.{rows_of, appended, assemble, get_by_uid}
use wb_tasks_l.Repo.Reading.Torn.{get_by_uid_at, committed_between, get_by_uid_at-torn}
use wb_tasks_l.Repo.Reading.RoundTrip.{get_by_uid-save}
use wb_tasks_l.Repo.Reading.Listing.{
  place, order_by, contains, rows_among, page_of, list_by_customer,
}
use wb_tasks_l.Repo.Reading.Listing.Agreement.{IsSortedBy, reader, list_by_customer-get_by_uid}

abbrev order_a : Order
order_a = order_of "a"

abbrev order_b : Order
order_b = record (order_of "b") {
  payment = record (order_of "b").payment { transaction = "other" };
}

-- The tables that hold the two orders.
abbrev two : Tables
two = (save server (some order_b) (save server (some order_a) vacant).0).0

rows_of-place :
    (uid key : String) (x : Item) (items : List (String × Item))
    → rows_of uid (place before (key, x) items) ≡ (
        if key == uid
        then place (λ i j. ltb_ℤ i.chrt_id j.chrt_id) x (rows_of uid items)
        else rows_of uid items)
unfolding rows_of place
rows_of-place uid key x [] = ground arith
rows_of-place uid key x ((k, y) ∷ items) =
    ground (arith, rows_of-place uid key x items, eq_iff key uid, eq_iff k uid, eq_iff key k)

rows_of-order_by :
    (uid : String) (items : List (String × Item))
    → rows_of uid (order_by before items) ≡ by_chrt (rows_of uid items)
unfolding rows_of order_by
rows_of-order_by uid [] = refl
rows_of-order_by uid ((k, y) ∷ items) = elim (Bool-cases (k == uid)) [
  | inl q ↦ rw (rows_of-place uid k y (order_by before items), rows_of-order_by uid items, q)
  | inr q ↦ rw (rows_of-place uid k y (order_by before items), rows_of-order_by uid items, q)
]

rows_of-rows_among :
    (uids : List String) (uid : String) (items : List (String × Item))
    → contains uid uids ≡ true
    → rows_of uid (rows_among uids items) ≡ rows_of uid items
unfolding rows_of rows_among
rows_of-rows_among uids uid [] here = refl
rows_of-rows_among uids uid ((k, y) ∷ items) here =
    ground (arith, rows_of-rows_among uids uid items here, eq_iff k uid, here)

server-IsSortedBy : IsSortedBy server by_chrt
server-IsSortedBy = record {
  each = λ uids uid items here.
      rows_of-order_by uid (rows_among uids items)
      ∙ ap by_chrt (rows_of-rows_among uids uid items here);
}

saved_a : (save server (some order_a) vacant).1 ≡ none
unfolding save query explained exec lookup insert fits_timestamp
saved_a = refl

abbrev fails_at_commit : Statement → Option Error
fails_at_commit commit_tx = some refusal
fails_at_commit _ = none

-- The customer is missing.
abbrev nobody : Order
nobody = record order_a { customer_id = "" }

abbrev no_customer : Error
no_customer = new (plain "customer_id is required")

refused_nobody : (save server (some nobody) two).1 ≡ some no_customer
unfolding save query explained exec lookup insert fits_timestamp
refused_nobody = refl

-- The connection is lost while the server commits.
abbrev unconfirmed : Server
unconfirmed = record server { fails = fails_at_commit; keeps_commit = true }

-- The order is stored, and Save returns an error.
kept_a : (save unconfirmed (some order_a) vacant).0 ≡ saved_tables order_a vacant
unfolding save query explained exec lookup insert saved_tables fits_timestamp
kept_a = refl

save_atomic_example :
    (let (t, failed) = save unconfirmed (some order_a) vacant in
      ((IsStorable order_a vacant × (t ≡ saved_tables order_a vacant)) ⊎ (t ≡ vacant))
      × (failed ≡ none → t ≡ saved_tables order_a vacant)
      × ((e : Error) → failed ≡ some e → (unconfirmed.keeps_commit ≡ true) ⊎ (t ≡ vacant)))
save_atomic_example = save_atomic unconfirmed order_a vacant

get_by_uid-save_example :
    get_by_uid server "a" (save server (some order_a) vacant).0
    ≡ ok (
        some (record order_a {
          payment = upserted_payment order_a [];
          items = appended (elements order_a.items);
          date_created = to_micros order_a.date_created;
        }))
get_by_uid-save_example = get_by_uid-save server server order_a vacant server-IsUp saved_a

two-IsKeyedTables : IsKeyedTables two
unfolding save query explained exec lookup insert upserted_payment fits_timestamp
two-IsKeyedTables = record {
  orders = (refl, (refl, tt));
  deliveries = (refl, (refl, tt));
  payments = (refl, (refl, tt));
}

list_by_customer-get_by_uid_example :
    (orders : List Order) × (list_by_customer server "customer" (pos 0) (pos 0) two ≡ ok orders)
    × (map
          (λ r.
            get_by_uid
              (reader server by_chrt two server-IsUp server-IsSortedBy two-IsKeyedTables)
              r.0
              two)
          (page_of server "customer" (pos 20) (pos 0) two)
        ≡ map (λ o. ok (some o)) orders)
list_by_customer-get_by_uid_example =
    list_by_customer-get_by_uid server by_chrt two server-IsUp server-IsSortedBy two-IsKeyedTables
      "customer" (pos 0) (pos 0)

-- A version of the order for another customer.
abbrev moved_a : Order
moved_a = record order_a { customer_id = "other" }

abbrev one_order : Tables
one_order = (save server (some order_a) vacant).0

row_a : lookup "a" one_order.orders ≡ some (order_row order_a)
unfolding save query explained exec lookup insert fits_timestamp
row_a = refl

saved_moved : (save server (some moved_a) one_order).1 ≡ none
unfolding save query explained exec lookup insert fits_timestamp
saved_moved = refl

get_by_uid_at-torn_example :
    (get_by_uid_at server "a" (λ s. one_order) ≡ get_by_uid server "a" one_order)
    × (get_by_uid_at server "a"
          (committed_between one_order (save server (some moved_a) one_order).0)
        ≡ ok (
            some (
              assemble "a"
                (order_row order_a)
                moved_a.delivery
                (upserted_payment moved_a one_order.payments)
                (server.arrange (elements moved_a.items)))))
get_by_uid_at-torn_example =
    get_by_uid_at-torn server server one_order moved_a (order_row order_a) server-IsUp row_a
      saved_moved
