-- ===== src/Intake/Postgres.antt =====
-- The intake over the repository of internal/repo/postgres: which messages are committed, and what
-- is read after them.
mod Tests
use wb_tasks_l.Prelude.{
  ℕ, String, ◌≡◌, refl, ap, subst, ◌↔◌, ◌⊎◌, inl, inr, Bool, true, false, List, [], ◌∷◌, none, some,
  arith, Option-cases,
}
use wb_tasks_l.Errors.{
  Error, errors_is, order_validation_failed, Result, ok, err, ◌>>=◌, Result-cases,
}
use wb_tasks_l.Domain.{Time, Item, Order}
use wb_tasks_l.Validate.{elements, validate}
use wb_tasks_l.Ports.{OrderCache, OrderValidator, JsonDecoder}
use wb_tasks_l.Repo.{Tables, Statement, commit_tx, Server, IsUp, to_micros, exec, explained, query}
use wb_tasks_l.Repo.Saving.{copy_items, commit_with, save_tx, upserted_payment, save}
use wb_tasks_l.Repo.Reading.{appended}
use wb_tasks_l.Repo.Reading.RoundTrip.{get_by_uid-save}
use wb_tasks_l.Repo.Saving.Constraints.{IsStorable, save-up, save-kept, save-IsStorable}
use wb_tasks_l.Repo.Port.{postgres_repository}
use wb_tasks_l.Service.{World, parse_message, save_from_message, get_order}
use wb_tasks_l.Service.Gets.{get_order_miss}
use wb_tasks_l.Service.Saves.{save_from_message-Outcome, unreadable, refused, unsaved, saved}
use wb_tasks_l.Kafka.{should_commit}
use wb_tasks_l.Intake.{
  order_validator, intake, invalid, stored, IsForeignDecoder, IsForeignRepository,
  should_commit_iff,
}

-- The errors of the server and the driver are not the validator's.
pub record IsForeignServer (server : Server) : Type 0 where
  pub failures :
      (s : Statement) (e : Error)
      → server.fails s ≡ some e
      → errors_is e order_validation_failed ≡ false
  pub violations : (s : Statement) → errors_is (server.violation s) order_validation_failed ≡ false

-- A result whose error, if it has one, is not the validator's.
abbrev IsForeign {ℓ} : {A : Type ℓ} → Result A → Type ℓ
IsForeign r = (e : Error) → r ≡ err e → errors_is e order_validation_failed ≡ false

module _ {ℓ} {A : Type ℓ} where
  explained-IsForeign :
      (reason : String) (r : Result A) → IsForeign r → IsForeign (explained reason r)
  unfolding explained
  explained-IsForeign reason (ok a) h e p = cc
  explained-IsForeign reason (err e') h e p = ground (arith, h e' refl)

  bind-IsForeign {κ} :
      {B : Type κ} (r : Result A) (next : A → Result B)
      → IsForeign r
      → ((a : A) → IsForeign (next a))
      → IsForeign (r >>= next)
  bind-IsForeign (ok a) next h k e p = k a e p
  bind-IsForeign (err e') next h k e p = h e (ground arith)

module _ (server : Server) (foreign : IsForeignServer server) where
  exec_error : (s : Statement) (allowed : Bool) (t : Tables) → IsForeign (exec server s allowed t)
  unfolding exec
  exec_error s allowed t e p = elim (Option-cases (server.fails s)) [
    | inl q ↦ ground (arith, foreign.violations s)
    | inr (e', q) ↦ ground (arith, foreign.failures s e' q)
  ]

  exec-IsForeign :
      (reason : String) (s : Statement) (allowed : Bool) (t : Tables)
      → IsForeign (explained reason (exec server s allowed t))
  exec-IsForeign reason s allowed t =
      explained-IsForeign reason (exec server s allowed t) (exec_error s allowed t)

  query-IsForeign : (s : Statement) → IsForeign (query server s)
  unfolding query
  query-IsForeign s e p = elim (Option-cases (server.fails s)) [
    | inl q ↦ ground arith
    | inr (e', q) ↦ ground (arith, foreign.failures s e' q)
  ]

  copy_items-IsForeign :
      (uid : String) (items : List Item) (t : Tables) → IsForeign (copy_items server uid items t)
  unfolding copy_items
  copy_items-IsForeign uid [] t e p = cc
  copy_items-IsForeign uid (item ∷ items) t e p = exec-IsForeign _ _ _ _ e p

  save_tx-IsForeign : (o : Order) (t : Tables) → IsForeign (save_tx server o t)
  unfolding save_tx
  save_tx-IsForeign o t = bind-IsForeign _ _ (query-IsForeign _) λ _.
      bind-IsForeign _ _ (exec-IsForeign _ _ _ _) λ t1.
        bind-IsForeign _ _ (exec-IsForeign _ _ _ _) λ t2.
          bind-IsForeign _ _ (exec-IsForeign _ _ _ _) λ t3.
            bind-IsForeign _ _ (exec-IsForeign _ _ _ _)
              λ t4. bind-IsForeign _ _ (exec-IsForeign _ _ _ _) λ t5. copy_items-IsForeign _ _ _

  commit_with-IsForeign :
      (t t' : Tables) (e : Error)
      → (commit_with server t t').1 ≡ some e
      → errors_is e order_validation_failed ≡ false
  unfolding commit_with
  commit_with-IsForeign t t' e p = elim (Option-cases (server.fails commit_tx)) [
    | inl q ↦ ground arith
    | inr (e', q) ↦ ground (arith, foreign.failures commit_tx e' q)
  ]

  pub postgres-IsForeignRepository : IsForeignRepository (postgres_repository server)
  unfolding save
  postgres-IsForeignRepository = record {
    foreign = λ order t e h.
        elim order
            as (λ order.
              (save server order t).1 ≡ some e → errors_is e order_validation_failed ≡ false) [
                | none ↦ λ h. ground arith
                | some o ↦ λ h. elim (Result-cases (save_tx server o t)) [
                  | inl (t', q) ↦ ground (arith, commit_with-IsForeign t t' e)
                  | inr (e', q) ↦ ground (arith, save_tx-IsForeign o t e' q)
                ]
              ]
          h;
  }

module _ {Cache : Type 0} (server : Server) (cache : OrderCache Cache)
    (parse_address : String → Bool) (json : JsonDecoder) where
  -- With Postgres behind the service, on a server that is up, the consumer commits a message
  -- exactly when it holds an order that breaks the rules of the validator, or one that passes them
  -- and that the tables can store. The errors of the decoder and of the server are not the
  -- validator's.
  pub should_commit-IsStorable :
      (clock : ℕ → Time) (raw : List ℕ) (n : ℕ) (w : World Cache Tables)
      → IsForeignDecoder json
      → IsForeignServer server
      → IsUp server
      → (should_commit
            (intake (postgres_repository server) cache parse_address json clock raw (n, w)).1
          ≡ true)
        ↔ ((o : Order) × (parse_message json raw ≡ ok o)
            × (((e : Error) × (validate parse_address (some o) ≡ err e))
                ⊎ ((validate parse_address (some o) ≡ ok tt) × IsStorable o w.db)))
  should_commit-IsStorable clock raw n w foreign_json foreign up =
      let repo = postgres_repository server in
      let (settled, committed) =
        should_commit_iff repo cache parse_address json clock raw n w foreign_json
          (postgres-IsForeignRepository server foreign) in
      (
        (λ q. elim (settled q) [
          | invalid o e p v ↦ (o, p, inl (e, v))
          | stored o p v done ↦ (o, p, inr (v, save-IsStorable server o w.db done))
        ]),
        (λ s. elim s.2 [
          | inl broken ↦ committed (invalid s.0 broken.0 s.1 broken.1)
          | inr fine ↦
              committed (stored s.0 s.1 fine.0 (ap (λ r. r.1) (save-up server s.0 w.db up fine.1)))
        ]),
      )

  -- An order that passes the validator but that the tables cannot store, as one with no customer,
  -- blocks its message: whatever the server does, the message is not committed and the tables stay
  -- as they are.
  pub intake-not_storable :
      (clock : ℕ → Time) (raw : List ℕ) (n : ℕ) (w : World Cache Tables) (o : Order)
      → IsForeignServer server
      → parse_message json raw ≡ ok o
      → validate parse_address (some o) ≡ ok tt
      → ¬ IsStorable o w.db
      → (let ((_, w'), failed) =
            intake (postgres_repository server) cache parse_address json clock raw (n, w) in
          (should_commit failed ≡ false) × (w'.db ≡ w.db))
  unfolding intake should_commit
  intake-not_storable clock raw n w o foreign parsed valid unstorable =
      let repo = postgres_repository server in
      elim (save_from_message-Outcome repo cache (order_validator parse_address) json (clock n) raw
        w) [
          | unreadable e p _ _ ↦ cc
          | refused o' e p v _ _ ↦ cc
          | saved o' p _ done _ _ ↦
              let same : o' ≡ o = ground arith in
              absurd (
                unstorable
                  (subst (λ x. IsStorable x w.db) same (save-IsStorable server o' w.db done)))
          | unsaved o' e p _ failed same f ↦
              let other =
                (postgres-IsForeignRepository server foreign).foreign (some o') w.db e failed in
              let same_order : o' ≡ o = ground arith in
              rw (f, same)
                (
                  ground (arith, other),
                  save-kept server o' w.db (λ t. t ≡ w.db) refl
                      (λ v. absurd (unstorable (subst (λ x. IsStorable x w.db) same_order v))),
                )
        ]

module _ {Cache : Type 0} (server : Server) (cache : OrderCache Cache) (json : JsonDecoder) where
  -- A saved order outlives the cache: where `SaveFromMessage` returned no error for a message that
  -- holds `o`, `GetOrder` with any cache that misses, as after a restart, returns `o` as the tables
  -- keep it: the date in whole microseconds, and the transaction that the payment had first. The
  -- reading server is up.
  pub get_order-restart :
      (reader : Server) (validator : OrderValidator) (now later after : Time) (raw : List ℕ)
      (o : Order) (w : World Cache Tables) (cold : Cache)
      → IsUp reader
      → parse_message json raw ≡ ok o
      → (save_from_message (postgres_repository server) cache validator json now raw w).1 ≡ none
      → (cache.get later o.order_uid cold).2 ≡ false
      → (let w' =
            (save_from_message (postgres_repository server) cache validator json now raw w).0 in
          (get_order
            (postgres_repository reader)
            cache
            later
            after
            o.order_uid
            (record w' { cache = cold })).1
          ≡ ok (
              some (record o {
                payment = upserted_payment o w.db.payments;
                items = appended (reader.arrange (elements o.items));
                date_created = to_micros o.date_created;
              })))
  get_order-restart reader validator now later after raw o w cold up parsed done miss =
      elim (save_from_message-Outcome (postgres_repository server) cache validator json now raw w) [
        | unreadable e p _ f ↦ cc
        | refused o' e _ _ _ f ↦ cc
        | unsaved o' e _ _ _ _ f ↦ cc
        | saved o' p _ kept e f ↦
            let same : o' ≡ o = ground arith in
            let kept_o : (save server (some o) w.db).1 ≡ none = rw (← same) kept in
            let read = get_by_uid-save server reader o w.db up kept_o in
            rw (e, same)
              (get_order_miss (postgres_repository reader) cache later after o.order_uid _ _ miss
                read)
      ]
