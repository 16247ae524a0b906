-- ===== src/Repo/Saving/Constraints.antt =====
-- Which orders Save stores, and which it can never store.
use mathlib.Core.List.{append-nil}
use wb_tasks_l.Prelude.{
  String, ◌≡◌, refl, ap, sym, ◌∙◌, ◌≢◌, ◌⊎◌, Bool, true, ◌&&◌, List, [], ◌∷◌, Option, none, some,
  inl, inr, arith, Option-cases, eq_refl, eq_iff, Bool-cases, ◌==◌,
}
use wb_tasks_l.Errors.{
  ok-injective, Error, plain, wrap, Result, ok, err, Result-cases, ◌>>=◌, bind-ok,
}
use wb_tasks_l.Domain.{Item, Order}
use wb_tasks_l.Validate.{elements}
use wb_tasks_l.Container.{lookup, insert}
use wb_tasks_l.Repo.{
  Tables, Statement, Server, IsUp, fits_integer, fits_timestamp, exec, explained, query, begin_tx,
  insert_customer, upsert_order, upsert_delivery, upsert_payment, delete_items, copy_rows,
  commit_tx,
}
use wb_tasks_l.Repo.Saving.{
  order_row, is_known, put_customer, put_order, put_delivery, put_payment, drop_items, put_items,
  allows_transaction, fits_payment, allows_payment, fits_items, copy_items, commit_with, finish_tx,
  save_tx, save,
}

-- The tables after a save.
unfoldable pub saved_tables : Order → Tables → Tables
saved_tables o t =
    put_items o.order_uid (elements o.items)
      (drop_items o (put_payment o (put_delivery o (put_order o (put_customer o t)))))

-- What the columns of the tables can hold.
abbrev pub fits_order : Order → Bool
fits_order o =
    (fits_integer o.sm_id && fits_timestamp o.date_created)
    && (fits_payment o.payment && fits_items (elements o.items))

pub lookup-insert_same {ℓ} :
    {V : Type ℓ} (k : String) (v : V) (table : List (String × V))
    → lookup k (insert k v table) ≡ some v
unfolding lookup insert
lookup-insert_same k v table = rw (eq_refl k)

exec-ok :
    (server : Server) (s : Statement) (allowed : Bool) (t t' : Tables)
    → exec server s allowed t ≡ ok t'
    → (t' ≡ t) × (allowed ≡ true)
unfolding exec
exec-ok server s allowed t t' h = ground arith

explained-ok {ℓ} :
    {A : Type ℓ} (reason : String) (r : Result A) (a : A) → explained reason r ≡ ok a → r ≡ ok a
unfolding explained
explained-ok reason (ok a) b h = h
explained-ok reason (err e) b h = cc

pub is_known-insert {ℓ} :
    {V : Type ℓ} (k : String) (v : V) (table : List (String × V))
    → is_known k (insert k v table) ≡ true
is_known-insert k v table = ground (arith, lookup-insert_same k v table)

-- The working tables after a statement that succeeds, and what its constraints asked.
step-ok :
    (reason : String) (server : Server) (s : Statement) (allowed : Bool) (t : Tables)
    (next : Tables → Result Tables) (t' : Tables)
    → (explained reason (exec server s allowed t) >>= next) ≡ ok t'
    → (allowed ≡ true) × (next t ≡ ok t')
step-ok reason server s allowed t next t' h =
    let (t1, e, rest) = bind-ok (explained reason (exec server s allowed t)) next t' h in
    let (same, holds) = exec-ok server s allowed t t1 (explained-ok reason _ t1 e) in
    (holds, ap next (sym same) ∙ rest)

copy_items-ok :
    (server : Server) (uid : String) (items : List Item) (t t' : Tables)
    → copy_items server uid items t ≡ ok t'
    → (t' ≡ put_items uid items t) × (fits_items items ≡ true)
unfolding copy_items fits_items
copy_items-ok server uid [] t t' h = (
  sym (ok-injective h) ∙ ap (λ items. record t { items = items }) (sym (append-nil t.items)),
  refl,
)
copy_items-ok server uid (item ∷ items) t t' h =
    let (same, holds) = exec-ok server copy_rows _ _ t' (explained-ok "copy items" _ t' h) in
    (same, ground (arith, holds))

save_tx-ok :
    (server : Server) (o : Order) (t t' : Tables)
    → save_tx server o t ≡ ok t'
    → (t' ≡ saved_tables o t) × (fits_order o ≡ true) × (allows_transaction o t.payments ≡ true)
unfolding save_tx saved_tables
save_tx-ok server o t t' h0 =
    let (_, _, h1) = bind-ok (query server begin_tx) _ t' h0 in
    let (_, h2) = step-ok "insert customer" server insert_customer _ _ _ t' h1 in
    let (row, h3) = step-ok "upsert order" server upsert_order _ _ _ t' h2 in
    let (_, h4) = step-ok "upsert delivery" server upsert_delivery _ _ _ t' h3 in
    let (paid, h5) = step-ok "upsert payment" server upsert_payment _ _ _ t' h4 in
    let (_, h6) = step-ok "delete items" server delete_items _ _ _ t' h5 in
    let (same, fit) = copy_items-ok server o.order_uid (elements o.items) _ t' h6 in
    (same, ground (arith, row, paid, fit), ground (arith, paid))

-- What Save asks of an order and of the tables.
pub record IsStorable (o : Order) (t : Tables) : Type 0 where
  pub identified : o.order_uid ≢ ""
  pub owned : o.customer_id ≢ ""
  pub fits : fits_order o ≡ true
  pub new_transaction : allows_transaction o t.payments ≡ true

-- What Commit leaves.
commit_with-cases :
    (server : Server) (t t' : Tables)
    → (((commit_with server t t').1 ≡ none) × ((commit_with server t t').0 ≡ t'))
      ⊎ ((e : Error) × ((commit_with server t t').1 ≡ some e)
          × (((commit_with server t t').0 ≡ t)
              ⊎ ((server.keeps_commit ≡ true) × ((commit_with server t t').0 ≡ t'))))
unfolding commit_with
commit_with-cases server t t' = elim (Option-cases (server.fails commit_tx)) [
  | inl p ↦ rw (commit_with, p) (inl (refl, refl))
  | inr (e, p) ↦ elim (Bool-cases server.keeps_commit) [
    | inl q ↦ rw (commit_with, p, q) (inr (wrap (plain "commit") e, refl, inr (refl, refl)))
    | inr q ↦ rw (commit_with, p, q) (inr (wrap (plain "commit") e, refl, inl refl))
  ]
]

-- What a call of Save leaves, on any server.
pub data Saved (server : Server) (o : Order) (t : Tables) (answer : Tables × Option Error)
    : Type 0 where
  stored_whole :
      IsStorable o t → answer.1 ≡ none → answer.0 ≡ saved_tables o t → Saved server o t answer
  kept_whole :
      (e : Error)
      → IsStorable o t
      → server.keeps_commit ≡ true
      → answer.1 ≡ some e
      → answer.0 ≡ saved_tables o t
      → Saved server o t answer
  untouched : (e : Error) → answer.1 ≡ some e → answer.0 ≡ t → Saved server o t answer

module _ (server : Server) (o : Order) (t : Tables) where
  save-finish_tx :
      o.order_uid ≢ ""
      → o.customer_id ≢ ""
      → save server (some o) t ≡ finish_tx server t (save_tx server o t)
  unfolding save
  save-finish_tx named owned = elim (Bool-cases (o.order_uid == "")) [
    | inl q ↦ absurd (named ((eq_iff o.order_uid "").0 q))
    | inr q ↦ elim (Bool-cases (o.customer_id == "")) [
      | inl r ↦ absurd (owned ((eq_iff o.customer_id "").0 r))
      | inr r ↦ rw (q, r)
    ]
  ]

  finish_tx-Saved :
      o.order_uid ≢ ""
      → o.customer_id ≢ ""
      → Saved server o t (finish_tx server t (save_tx server o t))
  finish_tx-Saved named owned = elim (Result-cases (save_tx server o t)) [
    | inr (e, p) ↦ rw p (untouched e refl refl)
    | inl (t', p) ↦
        let (same, fit, free) = save_tx-ok server o t t' p in
        let v : IsStorable o t = record {
          identified = named;
          owned = owned;
          fits = fit;
          new_transaction = free;
        } in
        rw p (elim (commit_with-cases server t t') [
          | inl (done, kept) ↦ stored_whole v done (kept ∙ same)
          | inr (e, failed, inl kept) ↦ untouched e failed kept
          | inr (e, failed, inr (keeps, kept)) ↦ kept_whole e v keeps failed (kept ∙ same)
        ])
  ]

  pub save-Saved : Saved server o t (save server (some o) t)
  unfolding save
  save-Saved = elim (Bool-cases (o.order_uid == "")) [
    | inl q ↦ rw (save, q) (untouched _ refl refl)
    | inr q ↦ elim (Bool-cases (o.customer_id == "")) [
      | inl r ↦ rw (save, q, r) (untouched _ refl refl)
      | inr r ↦
          let named : o.order_uid ≢ "" = λ e. ground (arith, (eq_iff o.order_uid "").1 e) in
          let owned : o.customer_id ≢ "" = λ e. ground (arith, (eq_iff o.customer_id "").1 e) in
          rw (save-finish_tx named owned) (finish_tx-Saved named owned)
    ]
  ]

  pub save-IsStorable : (save server (some o) t).1 ≡ none → IsStorable o t
  save-IsStorable h = elim save-Saved [
    | stored_whole v done same ↦ v
    | kept_whole e v keeps failed same ↦ v
    | untouched e failed same ↦ cc
  ]

  pub save-saved_tables :
      (save server (some o) t).1 ≡ none → (save server (some o) t).0 ≡ saved_tables o t
  save-saved_tables h = elim save-Saved [
    | stored_whole v done same ↦ same
    | kept_whole e v keeps failed same ↦ same
    | untouched e failed same ↦ cc
  ]

  -- `Save` is all or nothing: whatever statement fails, and where Commit fails whether the server has
  -- committed or not, the tables hold every row of the order, which fits them, or are as they were.
  -- Without an error they hold the order; with an error they can hold it only where the server has
  -- kept a commit that it did not confirm.
  pub save_atomic :
      ((IsStorable o t × ((save server (some o) t).0 ≡ saved_tables o t))
        ⊎ ((save server (some o) t).0 ≡ t))
      × ((save server (some o) t).1 ≡ none → (save server (some o) t).0 ≡ saved_tables o t)
      × ((e : Error)
          → (save server (some o) t).1 ≡ some e
          → (server.keeps_commit ≡ true) ⊎ ((save server (some o) t).0 ≡ t))
  save_atomic = elim save-Saved [
    | stored_whole v done same ↦ (inl (v, same), (λ _. same), (λ e failed. cc))
    | kept_whole e v keeps failed same ↦ (inl (v, same), (λ _. same), (λ _ _. inl keeps))
    | untouched e failed same ↦ (inr same, (λ done. cc), (λ _ _. inr same))
  ]

  pub save-kept :
      (P : Tables → Type 0)
      → P t
      → (IsStorable o t → P (saved_tables o t))
      → P (save server (some o) t).0
  save-kept P before after = elim save-Saved [
    | stored_whole v done same ↦ rw same (after v)
    | kept_whole e v keeps failed same ↦ rw same (after v)
    | untouched e failed same ↦ rw same before
  ]

  step-up :
      (up : IsUp server) (reason : String) (s : Statement) (allowed : Bool) (working : Tables)
      (next : Tables → Result Tables)
      → allowed ≡ true
      → (explained reason (exec server s allowed working) >>= next) ≡ next working
  unfolding exec explained
  step-up up reason s allowed working next h =
      ap (λ r. r >>= next) {y = ok working} (rw (exec, up.answers s, h, explained))

  query-up :
      (up : IsUp server) (s : Statement) (next : Unit {0} → Result Tables)
      → (query server s >>= next) ≡ next tt
  unfolding query
  query-up up s next = ap (λ r. r >>= next) {y = ok tt} (rw (query, up.answers s))

  copy_items-up :
      (up : IsUp server) (items : List Item) (working : Tables)
      → is_known o.order_uid working.orders ≡ true
      → fits_items items ≡ true
      → copy_items server o.order_uid items working ≡ ok (put_items o.order_uid items working)
  unfolding copy_items exec explained
  copy_items-up up [] working known fit =
      ap (λ rows. ok (record working { items = rows })) (sym (append-nil working.items))
  copy_items-up up (item ∷ items) working known fit =
      rw (copy_items, exec, up.answers copy_rows, known, fit, explained)

  save_tx-up : IsUp server → IsStorable o t → save_tx server o t ≡ ok (saved_tables o t)
  unfolding save_tx saved_tables allows_payment
  save_tx-up up v =
      let customer = is_known-insert o.customer_id tt t.customers in
      let order = is_known-insert o.order_uid (order_row o) t.orders in
      query-up up begin_tx _
      ∙ step-up up "insert customer" insert_customer true _ _ refl
      ∙ step-up up "upsert order" upsert_order _ _ _ (ground (arith, customer, v.fits))
      ∙ step-up up "upsert delivery" upsert_delivery _ _ _ order
      ∙ step-up up "upsert payment" upsert_payment _ _ _
          (ground (arith, order, v.fits, v.new_transaction))
      ∙ step-up up "delete items" delete_items true _ _ refl
      ∙ copy_items-up up (elements o.items) _ order (ground (arith, v.fits))

  pub save-up : IsUp server → IsStorable o t → save server (some o) t ≡ (saved_tables o t, none)
  unfolding commit_with
  save-up up v =
      save-finish_tx v.identified v.owned
      ∙ ap (finish_tx server t) (save_tx-up up v)
      ∙ rw (commit_with, up.answers commit_tx)

  -- A server that is up refuses an order by a constraint, or by the checks of Save.
  pub save_refused :
      IsUp server
      → (e : Error) → (save server (some o) t).1 ≡ some e
      → (save server (some o) t).0 ≡ t
  save_refused up e failed = elim save-Saved [
    | stored_whole v done same ↦ cc
    | kept_whole e' v keeps failed' same ↦ let done = ap (λ r. r.1) (save-up up v) in cc
    | untouched e' failed' same ↦ same
  ]
