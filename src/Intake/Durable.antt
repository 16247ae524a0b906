-- ===== src/Intake/Durable.antt =====
-- A run of the consumer over the service over the repository of internal/repo/postgres, on a server
-- that may fail at any statement.
use wb_tasks_l.Prelude.{
  ℕ, String, ◌≡◌, refl, ◌⊎◌, inl, inr, Bool, true, List, ◌∷◌, Option, some, arith, All, All-map_of,
  Option-cases, if◌then◌else◌,
}
use wb_tasks_l.Errors.{Error, ok, err}
use wb_tasks_l.Domain.{Time, Order}
use wb_tasks_l.Validate.{validate}
use wb_tasks_l.Validate.Rules.{validate-err}
use wb_tasks_l.Ports.{OrderCache, JsonDecoder}
use wb_tasks_l.Container.{lookup}
use wb_tasks_l.Repo.{Tables, Server, IsUp}
use wb_tasks_l.Repo.Saving.{is_known, save}
use wb_tasks_l.Repo.Saving.Integrity.{is_known-save, is_known-saved}
use wb_tasks_l.Repo.Reading.{get_by_uid}
use wb_tasks_l.Repo.Reading.RoundTrip.{get_by_uid_found}
use wb_tasks_l.Repo.Port.{unsteady_repository}
use wb_tasks_l.Service.{World, parse_message}
use wb_tasks_l.Service.Saves.{save_from_message-Outcome, unreadable, refused, unsaved, saved}
use wb_tasks_l.Kafka.{Message, ConsumerConfig, Fetch, should_commit, run}
use wb_tasks_l.Kafka.Rounds.{run-keeps}
use wb_tasks_l.Intake.{order_validator, intake, IsForeignDecoder, parse_message-foreign}
use wb_tasks_l.Intake.Postgres.{IsForeignServer, postgres-IsForeignRepository}

module _ {Cache : Type 0} (servers : ℕ → Server) (cache : OrderCache Cache)
    (parse_address : String → Bool) (json : JsonDecoder) where
  -- The message holds an order that breaks the rules, or one that has its row in the tables.
  abbrev IsKept : Tables → Message → Type 0
  IsKept t m =
      (o : Order) × (parse_message json m.value ≡ ok o)
      × (((e : Error) × (validate parse_address (some o) ≡ err e))
          ⊎ (is_known o.order_uid t.orders ≡ true))

  IsKept-save :
      (server : Server) (order : Option Order) (t : Tables) (m : Message)
      → IsKept t m
      → IsKept (save server order t).0 m
  IsKept-save server order t m (o, p, inl broken) = (o, p, inl broken)
  IsKept-save server order t m (o, p, inr known) =
      (o, p, inr (is_known-save server order t o.order_uid known))

  module _ (clock : ℕ → Time) (foreign_json : IsForeignDecoder json)
      (foreign : (n : ℕ) → IsForeignServer (servers n)) where
    abbrev AllKept : List Message → ℕ × World Cache (ℕ × Tables) → Type 0
    AllKept committed s = All (IsKept s.1.db.1) committed

    intake-AllKept :
        (m : Message) (committed : List Message) (s : ℕ × World Cache (ℕ × Tables))
        → AllKept committed s
        → AllKept
            (if should_commit
                (intake (unsteady_repository servers) cache parse_address json clock m.value s).1
              then m ∷ committed
              else committed)
            (intake (unsteady_repository servers) cache parse_address json clock m.value s).0
    unfolding intake should_commit
    intake-AllKept m committed (n, w) h =
        elim (save_from_message-Outcome (unsteady_repository servers) cache
          (order_validator parse_address) json (clock n) m.value w) [
            | unreadable e p same f ↦
                rw (same, f, parse_message-foreign json m.value e foreign_json p) h
            | refused o e p v same f ↦
                rw (same, f, validate-err parse_address (some o) e v) ((o, p, inl (e, v)), h)
            | unsaved o e p v failed same f ↦
                let other =
                  (postgres-IsForeignRepository (servers w.db.0) (foreign w.db.0)).foreign (some o)
                    w.db.1 e failed in
                rw (same, f, other)
                  (All-map_of (IsKept-save (servers w.db.0) (some o) w.db.1) committed h)
            | saved o p v done same f ↦
                rw (same, f)
                  (
                    (o, p, inr (is_known-saved (servers w.db.0) o w.db.1 done)),
                    All-map_of (IsKept-save (servers w.db.0) (some o) w.db.1) committed h,
                  )
          ]

    -- No committed order is lost: at the end of every run, each committed message holds an order
    -- that breaks the rules of the validator, or one whose identifier the repository finds,
    -- whatever statements failed during the run. The errors of the decoder and of the server are
    -- not the validator's, and the reading server is up.
    pub run-get_by_uid :
        (int63n : ℕ → ℕ → ℕ) (cfg : ConsumerConfig) (fs : List Fetch)
        (s : ℕ × World Cache (ℕ × Tables)) (reader : Server)
        → IsUp reader
        → (let r =
              (run
                (intake (unsteady_repository servers) cache parse_address json clock)
                int63n
                cfg
                fs
                s).0 in
            All
              (λ m.
                (o : Order) × (parse_message json m.value ≡ ok o)
                × (((e : Error) × (validate parse_address (some o) ≡ err e))
                    ⊎ ((found : Order) × (get_by_uid reader o.order_uid r.service.1.db.1
                          ≡ ok (some found))
                        × (found.order_uid ≡ o.order_uid))))
              r.committed)
    run-get_by_uid int63n cfg fs s reader up =
        let r =
          (run (intake (unsteady_repository servers) cache parse_address json clock) int63n cfg fs
            s).0 in
        All-map_of
          (λ m kept. elim kept.2 [
            | inl broken ↦ (kept.0, kept.1, inl broken)
            | inr known ↦ elim (Option-cases (lookup kept.0.order_uid r.service.1.db.1.orders)) [
              | inl missing ↦ absurd (ground (arith, known, missing))
              | inr (row, there) ↦ (
                kept.0,
                kept.1,
                inr (
                  _,
                  get_by_uid_found reader kept.0.order_uid r.service.1.db.1 row up there,
                  refl,
                ),
              )
            ]
          ])
          r.committed
          (run-keeps (intake (unsteady_repository servers) cache parse_address json clock) int63n
            cfg AllKept fs s intake-AllKept tt)
