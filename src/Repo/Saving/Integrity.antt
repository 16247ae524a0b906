-- ===== src/Repo/Saving/Integrity.antt =====
-- What Save keeps true of the tables of migrations/, beyond single rows.
use wb_tasks_l.Prelude.{
  String, ◌≡◌, refl, ap, sym, ◌∙◌, ◌≢◌, ◌⊎◌, true, false, List, [], ◌∷◌, ◌++◌, map, Option, none,
  some, inl, inr, arith, eq_iff, Bool-cases, Option-cases, ◌==◌,
}
use wb_tasks_l.Domain.{Payment, Item, Order}
use wb_tasks_l.Validate.{elements}
use wb_tasks_l.Container.{lookup, delete, insert}
use wb_tasks_l.Container.Laws.{lookup-insert}
use wb_tasks_l.Repo.{OrderRow, Tables, Server}
use wb_tasks_l.Repo.Saving.{
  order_row, is_known, upserted_payment, uses_transaction, allows_transaction, save,
}
use wb_tasks_l.Repo.Saving.Constraints.{
  saved_tables, IsStorable, save-saved_tables, save-kept, is_known-insert,
}
use wb_tasks_l.Repo.Reading.{rows_of}

-- Foreign keys point at rows, and no two orders share a payment transaction.
pub record IsReferential (t : Tables) : Type 0 where
  pub customers :
      (uid : String) (row : OrderRow)
      → lookup uid t.orders ≡ some row
      → is_known row.customer_id t.customers ≡ true
  pub deliveries : (uid : String) → is_known uid t.deliveries ≡ true → is_known uid t.orders ≡ true
  pub payments : (uid : String) → is_known uid t.payments ≡ true → is_known uid t.orders ≡ true
  pub items : (uid : String) → rows_of uid t.items ≢ [] → is_known uid t.orders ≡ true
  pub transactions :
      (u v : String) (p q : Payment)
      → lookup u t.payments ≡ some p
      → lookup v t.payments ≡ some q
      → p.transaction ≡ q.transaction
      → u ≡ v

module _ {ℓ} {V : Type ℓ} where
  is_known-insert_kept :
      (k j : String) (v : V) (table : List (String × V))
      → is_known j table ≡ true
      → is_known j (insert k v table) ≡ true
  is_known-insert_kept k j v table h = ground (arith, h, lookup-insert k j v table)

  -- Two tables that get a row with the same key.
  is_known-insert_both {κ} :
      {W : Type κ} (k j : String) (v : V) (w : W) (table : List (String × V))
      (other : List (String × W))
      → (is_known j table ≡ true → is_known j other ≡ true)
      → is_known j (insert k v table) ≡ true
      → is_known j (insert k w other) ≡ true
  is_known-insert_both k j v w table other h known =
      ground (arith, h, known, lookup-insert k j v table, lookup-insert k j w other)

pub rows_of-replaced_ne :
    (uid j : String) (new : List Item) (items : List (String × Item))
    → (uid == j) ≡ false
    → rows_of j (delete uid items ++ map (λ item. (uid, item)) new) ≡ rows_of j items
unfolding rows_of delete
rows_of-replaced_ne uid j [] [] h = refl
rows_of-replaced_ne uid j (item ∷ new) [] h = ground (arith, h, rows_of-replaced_ne uid j new [] h)
rows_of-replaced_ne uid j new ((key, item) ∷ items) h =
    ground
      (arith, h, eq_iff key uid, eq_iff key j, eq_iff uid j, rows_of-replaced_ne uid j new items h)

uses_transaction-false :
    (transaction v : String) (q : Payment) (table : List (String × Payment))
    → uses_transaction transaction table ≡ false
    → lookup v table ≡ some q
    → q.transaction ≢ transaction
unfolding uses_transaction lookup
uses_transaction-false transaction v q [] h e same = cc
uses_transaction-false transaction v q ((uid, p) ∷ table) h e same = ground (
  arith,
  h,
  e,
  same,
  eq_iff p.transaction transaction,
  uses_transaction-false transaction v q table,
)

-- The new payment of an order shares its transaction with no other order.
transaction_own :
    (o : Order) (t : Tables) (v : String) (q : Payment)
    → IsReferential t
    → allows_transaction o t.payments ≡ true
    → (o.order_uid == v) ≡ false
    → lookup v t.payments ≡ some q
    → (upserted_payment o t.payments).transaction ≢ q.transaction
unfolding upserted_payment allows_transaction
transaction_own o t v q ref free other e same =
    elim (Option-cases (lookup o.order_uid t.payments)) [
      | inl missing ↦
          let unused : uses_transaction o.payment.transaction t.payments ≡ false =
            ground (arith, free, missing) in
          let shared : q.transaction ≡ o.payment.transaction = ground (arith, same, missing) in
          uses_transaction-false o.payment.transaction v q t.payments unused e shared
      | inr (old, present) ↦
          let shared : old.transaction ≡ q.transaction = ground (arith, same, present) in
          let one = ref.transactions o.order_uid v old q present e shared in
          ground (arith, other, (eq_iff o.order_uid v).1 one)
    ]

-- The row under a key after an insertion: the new one under its key, and the old one elsewhere.
lookup-insert_cases {ℓ} :
    {V : Type ℓ} (k j : String) (new v : V) (table : List (String × V))
    → lookup j (insert k new table) ≡ some v
    → ((k ≡ j) × (new ≡ v)) ⊎ (((k == j) ≡ false) × (lookup j table ≡ some v))
lookup-insert_cases k j new v table e = elim (Bool-cases (k == j)) [
  | inl q ↦ inl ((eq_iff k j).0 q, ground (arith, q, e, lookup-insert k j new table))
  | inr q ↦ inr (q, ground (arith, q, e, lookup-insert k j new table))
]

module _ (o : Order) (t : Tables) (v : IsStorable o t) (ref : IsReferential t) where
  customers_kept :
      (uid : String) (row : OrderRow)
      → lookup uid (saved_tables o t).orders ≡ some row
      → is_known row.customer_id (saved_tables o t).customers ≡ true
  unfolding saved_tables
  customers_kept uid row e =
      elim (lookup-insert_cases o.order_uid uid (order_row o) row t.orders e) [
        | inl (_, new) ↦ rw (← new) (is_known-insert o.customer_id tt t.customers)
        | inr (_, old) ↦
            is_known-insert_kept o.customer_id row.customer_id tt t.customers
              (ref.customers uid row old)
      ]

  items_kept :
      (uid : String)
      → rows_of uid (saved_tables o t).items ≢ []
      → is_known uid (saved_tables o t).orders ≡ true
  unfolding saved_tables
  items_kept uid h = elim (Bool-cases (o.order_uid == uid)) [
    | inl q ↦
        rw (← (eq_iff o.order_uid uid).0 q) (is_known-insert o.order_uid (order_row o) t.orders)
    | inr q ↦ is_known-insert_kept o.order_uid uid (order_row o) t.orders (
        ref.items uid
          (λ e. h (rows_of-replaced_ne o.order_uid uid (elements o.items) t.items q ∙ e)))
  ]

  transactions_kept :
      (u w : String) (p q : Payment)
      → lookup u (saved_tables o t).payments ≡ some p
      → lookup w (saved_tables o t).payments ≡ some q
      → p.transaction ≡ q.transaction
      → u ≡ w
  unfolding saved_tables
  transactions_kept u w p q eu ew same =
      let new = upserted_payment o t.payments in
      elim (lookup-insert_cases o.order_uid u new p t.payments eu) [
        | inl (at_u, new_p) ↦ elim (lookup-insert_cases o.order_uid w new q t.payments ew) [
          | inl (at_w, _) ↦ sym at_u ∙ at_w
          | inr (other, old) ↦ absurd (
              transaction_own o t w q ref v.new_transaction other old
                (ap (λ x. x.transaction) new_p ∙ same))
        ]
        | inr (other, old) ↦ elim (lookup-insert_cases o.order_uid w new q t.payments ew) [
          | inl (at_w, new_q) ↦ absurd (
              transaction_own o t u p ref v.new_transaction other old
                (ap (λ x. x.transaction) new_q ∙ sym same))
          | inr (_, old_w) ↦ ref.transactions u w p q old old_w same
        ]
      ]

saved_tables-IsReferential :
    (o : Order) (t : Tables) → IsStorable o t → IsReferential t → IsReferential (saved_tables o t)
unfolding saved_tables
saved_tables-IsReferential o t v ref = record {
  customers = customers_kept o t v ref;
  deliveries = λ uid h.
      is_known-insert_both o.order_uid uid o.delivery (order_row o) t.deliveries t.orders
        (ref.deliveries uid) h;
  payments = λ uid h.
      is_known-insert_both o.order_uid uid (upserted_payment o t.payments) (order_row o) t.payments
        t.orders (ref.payments uid) h;
  items = items_kept o t v ref;
  transactions = transactions_kept o t v ref;
}

-- `Save` keeps the tables referential, whether it stores the order or fails: every order has its
-- customer, every delivery, payment and item its order, and no two orders share a payment
-- transaction.
pub save-IsReferential :
    (server : Server) (order : Option Order) (t : Tables)
    → IsReferential t
    → IsReferential (save server order t).0
unfolding save
save-IsReferential server none t ref = ref
save-IsReferential server (some o) t ref =
    save-kept server o t IsReferential ref (λ v. saved_tables-IsReferential o t v ref)

-- `Save` removes no order.
pub is_known-save :
    (server : Server) (order : Option Order) (t : Tables) (uid : String)
    → is_known uid t.orders ≡ true
    → is_known uid (save server order t).0.orders ≡ true
unfolding save saved_tables
is_known-save server none t uid h = h
is_known-save server (some o) t uid h =
    save-kept server o t (λ t'. is_known uid t'.orders ≡ true) h
      (λ v. is_known-insert_kept o.order_uid uid (order_row o) t.orders h)

-- An order that is saved is there.
pub is_known-saved :
    (server : Server) (o : Order) (t : Tables)
    → (save server (some o) t).1 ≡ none
    → is_known o.order_uid (save server (some o) t).0.orders ≡ true
unfolding saved_tables
is_known-saved server o t done =
    rw (save-saved_tables server o t done) (is_known-insert o.order_uid (order_row o) t.orders)
