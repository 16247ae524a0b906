-- ===== src/Repo/Saving/Keys.antt =====
-- The primary keys of the tables, through Save.
use wb_tasks_l.Prelude.{
  String, ◌≡◌, ◌∙◌, false, List, [], ◌∷◌, Option, none, some, arith, inl, inr, eq_iff, All,
  All-map_of, Bool-cases, ◌==◌,
}
use wb_tasks_l.Domain.{Order}
use wb_tasks_l.Container.{lookup, delete, insert}
use wb_tasks_l.Container.Laws.{lookup-insert}
use wb_tasks_l.Repo.{Tables, Server}
use wb_tasks_l.Repo.Saving.{order_row, upserted_payment, save}
use wb_tasks_l.Repo.Saving.Constraints.{saved_tables, save-kept, lookup-insert_same}

-- A primary key: every row is the one that is found under its key.
abbrev pub IsKeyed {ℓ} : {V : Type ℓ} → List (String × V) → Type ℓ
IsKeyed table = All (λ r. lookup r.0 table ≡ some r.1) table

-- At most one row for an order.
pub record IsKeyedTables (t : Tables) : Type 0 where
  pub orders : IsKeyed t.orders
  pub deliveries : IsKeyed t.deliveries
  pub payments : IsKeyed t.payments

module _ {ℓ} {V : Type ℓ} where
  All-delete {κ} :
      (P : String × V → Type κ) (k : String) (table : List (String × V))
      → All P table
      → All (λ r. P r × ((k == r.0) ≡ false)) (delete k table)
  unfolding delete
  All-delete P k [] h = tt
  All-delete P k ((key, v) ∷ table) h = elim (Bool-cases (key == k)) [
    | inl q ↦ rw q (All-delete P k table h.1)
    | inr q ↦ rw q ((h.0, ground (arith, q, eq_iff key k, eq_iff k key)), All-delete P k table h.1)
  ]

  insert-IsKeyed :
      (k : String) (v : V) (table : List (String × V)) → IsKeyed table → IsKeyed (insert k v table)
  unfolding insert
  insert-IsKeyed k v table h = (
    lookup-insert_same k v table,
    All-map_of (λ r kept. lookup-insert k r.0 v table ∙ rw kept.1 kept.0) (delete k table)
        (All-delete _ k table h),
  )

-- `Save` keeps at most one row for an order in each table.
pub save-IsKeyedTables :
    (server : Server) (order : Option Order) (t : Tables)
    → IsKeyedTables t
    → IsKeyedTables (save server order t).0
unfolding save saved_tables
save-IsKeyedTables server none t keyed = keyed
save-IsKeyedTables server (some o) t keyed = save-kept server o t IsKeyedTables keyed (λ v. record {
  orders = insert-IsKeyed o.order_uid (order_row o) t.orders keyed.orders;
  deliveries = insert-IsKeyed o.order_uid o.delivery t.deliveries keyed.deliveries;
  payments = insert-IsKeyed o.order_uid (upserted_payment o t.payments) t.payments keyed.payments;
})
