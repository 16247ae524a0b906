-- ===== src/Intake.antt =====
-- The consumer over the service over the domain validator, as internal/app/bootstrap.go wires them.
pub mod Postgres
pub mod Durable
pub mod Races
pub mod Coherence
mod Tests
use wb_tasks_l.Prelude.{
  ℕ, suc, String, ◌≡◌, refl, sym, ap, ◌∙◌, ◌↔◌, ◌⊎◌, inl, inr, Bool, true, false, List, Option,
  none, some, arith, Bool-cases,
}
use wb_tasks_l.Errors.{
  Error, errors_is, order_validation_failed, Result, ok, err, plain, wrap, new, Result-cases,
}
use wb_tasks_l.Domain.{Time, Order}
use wb_tasks_l.Validate.{validate}
use wb_tasks_l.Validate.Rules.{validate-err}
use wb_tasks_l.Ports.{OrderRepository, OrderCache, OrderValidator, JsonDecoder}
use wb_tasks_l.Service.{World, parse_message, save_from_message}
use wb_tasks_l.Service.Saves.{save_from_message-Outcome, unreadable, refused, unsaved, saved}
use wb_tasks_l.Kafka.{should_commit}

-- validate.OrderValidator as the port that the service depends on.
abbrev pub order_validator : (String → Bool) → OrderValidator
order_validator parse_address = record { validate = validate parse_address }

module _ {Cache Db : Type 0} (repo : OrderRepository Db) (cache : OrderCache Cache)
    (parse_address : String → Bool) (json : JsonDecoder) where
  -- SaveFromMessage as the consumer calls it; the clock gives a time to each call.
  pub intake : (ℕ → Time) → List ℕ → ℕ × World Cache Db → (ℕ × World Cache Db) × Option Error
  intake clock raw (n, w) =
      let (w', failed) =
        save_from_message repo cache (order_validator parse_address) json (clock n) raw w in
      ((suc n, w'), failed)

module _ {Db : Type 0} (repo : OrderRepository Db) (parse_address : String → Bool)
    (json : JsonDecoder) where
  -- A message is settled in one of two ways: the order in it breaks the rules, or it was saved.
  pub data Settles (raw : List ℕ) (db : Db) : Type 0 where
    invalid :
        (o : Order) (e : Error)
        → parse_message json raw ≡ ok o
        → validate parse_address (some o) ≡ err e
        → Settles raw db
    stored :
        (o : Order)
        → parse_message json raw ≡ ok o
        → validate parse_address (some o) ≡ ok tt
        → (repo.save (some o) db).1 ≡ none
        → Settles raw db

-- A decoder, or a repository, whose errors are not the validator's.
pub record IsForeignDecoder (json : JsonDecoder) : Type 0 where
  pub foreign :
      (raw : List ℕ) (e : Error)
      → json.decode raw ≡ err e
      → errors_is e order_validation_failed ≡ false

pub record IsForeignRepository {Db : Type 0} (repo : OrderRepository Db) : Type 0 where
  pub foreign :
      (o : Option Order) (db : Db) (e : Error)
      → (repo.save o db).1 ≡ some e
      → errors_is e order_validation_failed ≡ false

parse_message-foreign :
    (json : JsonDecoder) (raw : List ℕ) (e : Error)
    → IsForeignDecoder json
    → parse_message json raw ≡ err e
    → errors_is e order_validation_failed ≡ false
unfolding parse_message
parse_message-foreign json raw e h p = elim (Result-cases (json.decode raw)) [
  | inr (e', q) ↦ ground (arith, h.foreign raw e' q)
  | inl (r, q) ↦ ground arith
]

module _ {Cache Db : Type 0} (repo : OrderRepository Db) (cache : OrderCache Cache)
    (parse_address : String → Bool) (json : JsonDecoder) where
  -- The consumer commits a message exactly when it is settled: the order in it breaks the rules of
  -- the validator, or the repository saved it. A message that does not parse is not committed, nor
  -- is one that the repository refuses. The decoder's and the repository's errors are not the
  -- validator's.
  pub should_commit_iff :
      (clock : ℕ → Time) (raw : List ℕ) (n : ℕ) (w : World Cache Db)
      → IsForeignDecoder json
      → IsForeignRepository repo
      → (should_commit (intake repo cache parse_address json clock raw (n, w)).1 ≡ true)
        ↔ Settles repo parse_address json raw w.db
  unfolding intake should_commit
  should_commit_iff clock raw n w fj fr =
      elim (save_from_message-Outcome repo cache (order_validator parse_address) json (clock n) raw
        w) [
          | unreadable e p _ f ↦
              let other = parse_message-foreign json raw e fj p in
              rw f ((λ q. cc), (λ s. elim s [ invalid o e' p' _ ↦ cc | stored o p' _ _ ↦ cc ]))
          | refused o e p v _ f ↦
              rw f ((λ q. invalid o e p v), (λ s. validate-err parse_address (some o) e v))
          | unsaved o e p v b _ f ↦
              let other = fr.foreign (some o) w.db e b in
              rw f ((λ q. cc), (λ s. elim s [ invalid o' e' p' v' ↦ cc | stored o' p' v' b' ↦ cc ]))
          | saved o p v b _ f ↦ rw f ((λ q. stored o p v b), (λ s. refl))
        ]
