-- ===== src/Repo/Reading/Listing/Loops.antt =====
-- The loops over the rows of the queries of ListByCustomer, as each order meets them.
use mathlib.Core.List.{append-nil, append_assoc}
use wb_tasks_l.Prelude.{
  map-compose, String, ◌≡◌, refl, ap, sym, ◌∙◌, true, List, [], ◌∷◌, ◌++◌, map, none, some, inl,
  inr, arith, eq_iff, eq_refl, All, All-map_of, Bool-cases, ◌==◌, if◌then◌else◌,
}
use wb_tasks_l.Domain.{Item, Order}
use wb_tasks_l.Container.{lookup, insert}
use wb_tasks_l.Container.Laws.{lookup-insert}
use wb_tasks_l.Repo.Reading.{rows_of}
use wb_tasks_l.Repo.Reading.Listing.{
  contains, rows_among, fill_order, fill_orders, items_at, group_items,
}

module _ {ℓ} {V : Type ℓ} (fill : V → Order → Order) where
  -- The loop as it meets one order.
  pub settle : List (String × V) → Order → Order
  settle [] o = o
  settle ((uid, v) ∷ rows) o = settle rows (if o.order_uid == uid then fill v o else o)

  fill_order-map :
      (uid : String) (v : V) (orders : List Order)
      → fill_order fill uid v orders ≡ map (λ o. if o.order_uid == uid then fill v o else o) orders
  unfolding fill_order
  fill_order-map uid v [] = refl
  fill_order-map uid v (o ∷ orders) =
      ap (◌∷◌ (if o.order_uid == uid then fill v o else o)) (fill_order-map uid v orders)

  map_same : (orders : List Order) → orders ≡ map (λ o. o) orders
  map_same [] = refl
  map_same (o ∷ orders) = ap (◌∷◌ o) (map_same orders)

  pub fill_orders-settle :
      (rows : List (String × V)) (orders : List Order)
      → fill_orders fill rows orders ≡ map (settle rows) orders
  unfolding fill_orders settle
  fill_orders-settle [] orders = map_same orders
  fill_orders-settle ((uid, v) ∷ rows) orders =
      fill_orders-settle rows (fill_order fill uid v orders)
      ∙ ap (map (settle rows)) (fill_order-map uid v orders)
      ∙ map-compose (λ o. if o.order_uid == uid then fill v o else o) (settle rows) orders

  -- A loop whose body overwrites, on rows that agree with a table.
  module _ (table : List (String × V))
      (keeps : (v : V) (o : Order) → (fill v o).order_uid ≡ o.order_uid)
      (overwrites : (v w : V) (o : Order) → fill v (fill w o) ≡ fill v o) where
    pub settle-absent :
        (rows : List (String × V)) (o : Order) → lookup o.order_uid rows ≡ none → settle rows o ≡ o
    unfolding settle lookup
    settle-absent [] o h = refl
    settle-absent ((uid, v) ∷ rows) o h = elim (Bool-cases (o.order_uid == uid)) [
      | inl q ↦
          absurd
            (ground (arith, h, (eq_iff uid o.order_uid).1 (sym ((eq_iff o.order_uid uid).0 q))))
      | inr q ↦ rw q (
          settle-absent rows o
            (ground (arith, h, q, eq_iff uid o.order_uid, eq_iff o.order_uid uid)))
    ]

    -- A row that agrees with the table brings the value that the table has.
    same_value :
        (uid : String) (o : Order) (v w : V)
        → (o.order_uid == uid) ≡ true
        → lookup o.order_uid table ≡ some v
        → lookup uid table ≡ some w
        → w ≡ v
    same_value uid o v w q e e' =
        ground (arith, e, e', ap (λ k. lookup k table) ((eq_iff o.order_uid uid).0 q))

    settle_again :
        (rows : List (String × V)) (o : Order) (v : V)
        → All (λ r. lookup r.0 table ≡ some r.1) rows
        → lookup o.order_uid table ≡ some v
        → settle rows (fill v o) ≡ fill v o
    unfolding settle
    settle_again [] o v agree e = refl
    settle_again ((uid, w) ∷ rows) o v agree e =
        ap (settle rows) step ∙ settle_again rows o v agree.1 e
      where
        step : (if (fill v o).order_uid == uid then fill w (fill v o) else fill v o) ≡ fill v o
        step = elim (Bool-cases (o.order_uid == uid)) [
          | inl q ↦
              rw (ap (λ k. k == uid) (keeps v o) ∙ q)
                (ap (λ x. fill x (fill v o)) (same_value uid o v w q e agree.0) ∙ overwrites v v o)
          | inr q ↦ rw (ap (λ k. k == uid) (keeps v o) ∙ q)
        ]

    pub settle-present :
        (rows : List (String × V)) (o : Order) (v : V)
        → All (λ r. lookup r.0 table ≡ some r.1) rows
        → lookup o.order_uid table ≡ some v
        → lookup o.order_uid rows ≡ some v
        → settle rows o ≡ fill v o
    unfolding settle lookup
    settle-present [] o v agree e h = cc
    settle-present ((uid, w) ∷ rows) o v agree e h = elim (Bool-cases (o.order_uid == uid)) [
      | inl q ↦ rw (q, same_value uid o v w q e agree.0) (settle_again rows o v agree.1 e)
      | inr q ↦ rw q (
          settle-present rows o v agree.1 e
            (ground (arith, h, q, eq_iff uid o.order_uid, eq_iff o.order_uid uid)))
    ]

module _ {ℓ} {V : Type ℓ} where
  pub lookup-rows_among :
      (uids : List String) (k : String) (table : List (String × V))
      → lookup k (rows_among uids table) ≡ (if contains k uids then lookup k table else none)
  unfolding lookup rows_among
  lookup-rows_among uids k [] = ground arith
  lookup-rows_among uids k ((uid, v) ∷ table) =
      ground (arith, eq_iff uid k, lookup-rows_among uids k table)

  pub All-rows_among {κ} :
      (P : String × V → Type κ) (uids : List String) (table : List (String × V))
      → All P table
      → All P (rows_among uids table)
  unfolding rows_among
  All-rows_among P uids [] h = tt
  All-rows_among P uids ((uid, v) ∷ table) h = elim (Bool-cases (contains uid uids)) [
    | inl q ↦ rw q (h.0, All-rows_among P uids table h.1)
    | inr q ↦ rw q (All-rows_among P uids table h.1)
  ]

  pub contains-keys :
      (rows : List (String × V)) → All (λ r. contains r.0 (map (λ s. s.0) rows) ≡ true) rows
  unfolding contains
  contains-keys [] = tt
  contains-keys ((uid, v) ∷ rows) =
      (rw (eq_refl uid), All-map_of (λ r h. ground (arith, h)) rows (contains-keys rows))

items_at-insert :
    (k j : String) (new : List Item) (groups : List (String × List Item))
    → items_at j (insert k new groups) ≡ (if k == j then new else items_at j groups)
items_at-insert k j new groups = ground (arith, lookup-insert k j new groups)

pub items_at-group_items :
    (uid : String) (rows : List (String × Item)) (groups : List (String × List Item))
    → items_at uid (group_items rows groups) ≡ items_at uid groups ++ rows_of uid rows
unfolding group_items rows_of
items_at-group_items uid [] groups = sym (append-nil _)
items_at-group_items uid ((key, item) ∷ rows) groups =
    items_at-group_items uid rows (insert key (items_at key groups ++ item ∷ []) groups)
    ∙ elim (Bool-cases (key == uid)) [
      | inl q ↦
          rw (items_at-insert key uid (items_at key groups ++ item ∷ []) groups, q)
            (ap (λ k. (items_at k groups ++ item ∷ []) ++ rows_of uid rows) ((eq_iff key uid).0 q)
              ∙ append_assoc (items_at uid groups) (item ∷ []) (rows_of uid rows))
      | inr q ↦ rw (items_at-insert key uid (items_at key groups ++ item ∷ []) groups, q)
    ]
