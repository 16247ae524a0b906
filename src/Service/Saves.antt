-- ===== src/Service/Saves.antt =====
-- What `SaveFromMessage` does with a message, on every path.
use wb_tasks_l.Prelude.{ℕ, ◌≡◌, inl, inr, List, Option, none, some, Option-cases}
use wb_tasks_l.Errors.{Error, plain, wrap, ok, err, Result-cases}
use wb_tasks_l.Domain.{Time, Order}
use wb_tasks_l.Ports.{OrderRepository, OrderCache, OrderValidator, JsonDecoder}
use wb_tasks_l.Service.{World, parse_message, save_order, accept_order, save_from_message}

module _ {Cache Db : Type 0} (repo : OrderRepository Db) (cache : OrderCache Cache)
    (validator : OrderValidator) (json : JsonDecoder) (now : Time) (raw : List ℕ)
    (w : World Cache Db) where
  -- The outcomes of a message, each with the state and the error that it leaves.
  pub data Outcome (w' : World Cache Db) (failed : Option Error) : Type 0 where
    unreadable :
        (e : Error) → parse_message json raw ≡ err e → w' ≡ w → failed ≡ some e → Outcome w' failed
    refused :
        (o : Order) (e : Error)
        → parse_message json raw ≡ ok o
        → validator.validate (some o) ≡ err e
        → w' ≡ w
        → failed ≡ some (wrap (plain "validation failed") e)
        → Outcome w' failed
    unsaved :
        (o : Order) (e : Error)
        → parse_message json raw ≡ ok o
        → validator.validate (some o) ≡ ok tt
        → (repo.save (some o) w.db).1 ≡ some e
        → w' ≡ record w { db = (repo.save (some o) w.db).0 }
        → failed ≡ some (wrap (plain "failed to save order") e)
        → Outcome w' failed
    saved :
        (o : Order)
        → parse_message json raw ≡ ok o
        → validator.validate (some o) ≡ ok tt
        → (repo.save (some o) w.db).1 ≡ none
        → w'
          ≡ record { cache = (cache.set now (some o) w.cache).0; db = (repo.save (some o) w.db).0 }
        → failed ≡ none
        → Outcome w' failed

  -- Every message has one of four outcomes. One that does not parse, or that the validator refuses,
  -- leaves the repository and the cache as they were; one that the repository fails to save leaves
  -- the cache as it was; one that is saved is in the cache too, and there is no error.
  pub save_from_message-Outcome :
      Outcome
        (save_from_message repo cache validator json now raw w).0
        (save_from_message repo cache validator json now raw w).1
  unfolding save_from_message save_order
  save_from_message-Outcome = elim (Result-cases (parse_message json raw)) [
    | inr (e, p) ↦ unreadable e p (rw (save_from_message, p)) (rw (save_from_message, p))
    | inl (o, p) ↦ elim (Result-cases (validator.validate (some o))) [
      | inr (e, q) ↦
          refused o e p q (rw (save_from_message, p, accept_order, q))
            (rw (save_from_message, p, accept_order, q))
      | inl (_, q) ↦ elim (Option-cases (repo.save (some o) w.db).1) [
        | inr (e, r) ↦
            unsaved o e p q r (rw (save_from_message, p, accept_order, q, save_order, r))
              (rw (save_from_message, p, accept_order, q, save_order, r))
        | inl r ↦
            saved o p q r (rw (save_from_message, p, accept_order, q, save_order, r))
              (rw (save_from_message, p, accept_order, q, save_order, r))
      ]
    ]
  ]
