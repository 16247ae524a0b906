-- ===== src/Repo/Saving.antt =====
-- OrderRepository.Save with copyItems, of internal/repo/postgres/order_repository.go: its
-- statements on the working tables of a transaction. An upsert, a DELETE and a COPY are the updates
-- that Postgres documents, refused where a constraint of migrations/ does not hold.
pub mod Constraints
pub mod Integrity
pub mod Keys
use wb_tasks_l.Prelude.{
  String, Bool, true, false, not, ◌&&◌, pos, leb_ℤ, List, [], ◌∷◌, ◌++◌, map, Option, none, some,
  ◌==◌, if◌then◌else◌,
}
use wb_tasks_l.Errors.{Error, plain, new, wrap, Result, ok, err, ◌>>=◌, ◌>>◌}
use wb_tasks_l.Domain.{Payment, Item, Order}
use wb_tasks_l.Validate.{elements}
use wb_tasks_l.Container.{lookup, delete, insert}
use wb_tasks_l.Repo.{
  OrderRow, Tables, begin_tx, insert_customer, upsert_order, upsert_delivery, upsert_payment,
  delete_items, copy_rows, commit_tx, Server, to_micros, fits_integer, fits_amount, fits_timestamp,
  exec, explained, query,
}

abbrev pub order_row : Order → OrderRow
order_row o = record {
  track_number = o.track_number;
  entry = o.entry;
  locale = o.locale;
  internal_signature = o.internal_signature;
  customer_id = o.customer_id;
  delivery_service = o.delivery_service;
  shard_key = o.shard_key;
  sm_id = o.sm_id;
  date_created = to_micros o.date_created;
  oof_shard = o.oof_shard;
}

-- REFERENCES: the row that a foreign key points at.
abbrev pub is_known {ℓ} : {V : Type ℓ} → String → List (String × V) → Bool
is_known key table = elim (lookup key table) [ none ↦ false | some _ ↦ true ]

-- INSERT INTO customers … ON CONFLICT (id) DO NOTHING
abbrev pub put_customer : Order → Tables → Tables
put_customer o t = record t { customers = insert o.customer_id tt t.customers }

-- The upsert of `orders`.
abbrev pub allows_order : Order → Tables → Bool
allows_order o t =
    is_known o.customer_id t.customers && (fits_integer o.sm_id && fits_timestamp o.date_created)

abbrev pub put_order : Order → Tables → Tables
put_order o t = record t { orders = insert o.order_uid (order_row o) t.orders }

abbrev pub put_delivery : Order → Tables → Tables
put_delivery o t = record t { deliveries = insert o.order_uid o.delivery t.deliveries }

-- ON CONFLICT (order_uid) DO UPDATE sets every column but `transaction`.
unfoldable pub upserted_payment : Order → List (String × Payment) → Payment
upserted_payment o payments = elim (lookup o.order_uid payments) [
  | none ↦ o.payment
  | some old ↦ record o.payment { transaction = old.transaction }
]

abbrev pub put_payment : Order → Tables → Tables
put_payment o t = record t {
  payments = insert o.order_uid (upserted_payment o t.payments) t.payments;
}

-- PRIMARY KEY (transaction): a row that is inserted brings a new transaction.
unfoldable pub uses_transaction : String → List (String × Payment) → Bool
uses_transaction transaction [] = false
uses_transaction transaction ((uid, p) ∷ payments) =
    let rest = uses_transaction transaction payments in
    if p.transaction == transaction then true else rest

unfoldable pub allows_transaction : Order → List (String × Payment) → Bool
unfolding uses_transaction
allows_transaction o payments = elim (lookup o.order_uid payments) [
  | none ↦ not (uses_transaction o.payment.transaction payments)
  | some old ↦ true
]

-- The checks on the columns of `payments`.
unfoldable pub fits_payment : Payment → Bool
fits_payment p =
    fits_amount p.amount
    && (leb_ℤ (pos 0) p.payment_dt
        && (fits_amount p.delivery_cost && (fits_amount p.goods_total && fits_amount p.custom_fee)))

unfoldable pub allows_payment : Order → Tables → Bool
unfolding allows_transaction fits_payment
allows_payment o t =
    is_known o.order_uid t.orders && (fits_payment o.payment && allows_transaction o t.payments)

-- DELETE FROM items WHERE order_uid = $1
abbrev pub drop_items : Order → Tables → Tables
drop_items o t = record t { items = delete o.order_uid t.items }

-- The checks on the columns of `items`.
unfoldable pub fits_item : Item → Bool
fits_item i =
    fits_amount i.price
    && (fits_amount i.sale
        && (fits_amount i.total_price
            && (fits_integer i.chrt_id && (fits_integer i.nm_id && fits_integer i.status))))

unfoldable pub fits_items : List Item → Bool
unfolding fits_item
fits_items [] = true
fits_items (item ∷ items) = fits_item item && fits_items items

abbrev pub put_items : String → List Item → Tables → Tables
put_items uid items t = record t { items = t.items ++ map (λ item. (uid, item)) items }

-- copyItems, where there are items.
unfoldable pub copy_items : Server → String → List Item → Tables → Result Tables
unfolding fits_items
copy_items server uid [] t = ok t
copy_items server uid (item ∷ items) t = explained "copy items" (
    exec server copy_rows (is_known uid t.orders && fits_items (item ∷ items))
      (put_items uid (item ∷ items) t))

-- The statements from Begin to the last one before Commit: the working tables, or the error.
unfoldable pub save_tx : Server → Order → Tables → Result Tables
unfolding copy_items allows_payment
save_tx server o t = do
  query server begin_tx
  t1 ← explained "insert customer" (exec server insert_customer true (put_customer o t))
  t2 ← explained "upsert order" (exec server upsert_order (allows_order o t1) (put_order o t1))
  t3 ←
      explained "upsert delivery"
        (exec server upsert_delivery (is_known o.order_uid t2.orders) (put_delivery o t2))
  t4 ←
      explained "upsert payment"
        (exec server upsert_payment (allows_payment o t3) (put_payment o t3))
  t5 ← explained "delete items" (exec server delete_items true (drop_items o t4))
  copy_items server o.order_uid (elements o.items) t5

-- Commit puts the working tables in place. Where it returns an error, the server may have
-- committed or not; the rollback that follows finds the transaction closed.
unfoldable pub commit_with : Server → Tables → Tables → Tables × Option Error
commit_with server t t' = elim (server.fails commit_tx) [
  | none ↦ (t', none)
  | some e ↦ (if server.keeps_commit then t' else t, some (wrap (plain "commit") e))
]

-- After an error of a statement the deferred rollback leaves the tables of before.
abbrev pub finish_tx : Server → Tables → Result Tables → Tables × Option Error
finish_tx server t (ok t') = commit_with server t t'
finish_tx server t (err e) = (t, some e)

unfoldable pub save : Server → Option Order → Tables → Tables × Option Error
unfolding save_tx commit_with
save server none t = (t, some (new (plain "order is empty or order_uid is required")))
save server (some o) t =
    if o.order_uid == ""
    then (t, some (new (plain "order is empty or order_uid is required")))
    else if o.customer_id == ""
    then (t, some (new (plain "customer_id is required")))
    else finish_tx server t (save_tx server o t)
