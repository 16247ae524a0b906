-- ===== src/Kafka/Rounds.antt =====
-- What a run of the consumer commits, counts and waits, over every sequence of fetches.
use mathlib.Core.List.{reverse_aux, reverse-reverse}
use wb_tasks_l.Prelude.{
  ℕ, ◌+◌, ◌≡◌, refl, ap, ◌∙◌, true, false, List, [], ◌∷◌, reverse, Option, none, some, arith,
  Bool-cases, inl, inr, if◌then◌else◌,
}
use wb_tasks_l.Errors.{Error, errors_is, order_validation_failed}
use wb_tasks_l.Kafka.{
  ConsumerConfig, Message, KafkaMetrics, count_outcome, Run, Fetch, message, fetch_failed,
  should_commit, consume, step, start, loop, run,
}

module _ {Service : Type 0} (save_from_message : List ℕ → Service → Service × Option Error) where
  -- The outcome of each message that a run fetches, in order, up to the fetch that ends it.
  pub outcomes : List Fetch → Service → List (Message × Option Error)
  outcomes [] s = []
  outcomes (message m ∷ fs) s =
      let (s', err) = save_from_message m.value s in (m, err) ∷ outcomes fs s'
  outcomes (fetch_failed (some e) interrupted ∷ fs) s = []
  outcomes (fetch_failed none (some e) ∷ fs) s = []
  outcomes (fetch_failed none none ∷ fs) s = outcomes fs s

-- The messages to commit: those that were saved, and those that are invalid orders.
pub settled : List (Message × Option Error) → List Message
settled [] = []
settled ((m, none) ∷ rest) = m ∷ settled rest
settled ((m, some e) ∷ rest) =
    if errors_is e order_validation_failed then m ∷ settled rest else settled rest

settled_cons :
    (m : Message) (e : Option Error) (rest : List (Message × Option Error)) (base : List Message)
    → reverse_aux (settled rest) (if should_commit e then m ∷ base else base)
      ≡ reverse_aux (settled ((m, e) ∷ rest)) base
unfolding settled should_commit
settled_cons m none rest base = refl
settled_cons m (some e) rest base = elim (Bool-cases (errors_is e order_validation_failed)) [
  | inl q ↦ rw q
  | inr q ↦ rw q
]

settled_skip :
    (m : Message) (e : Option Error) (rest : List (Message × Option Error))
    → should_commit e ≡ false
    → settled ((m, e) ∷ rest) ≡ settled rest
unfolding settled should_commit
settled_skip m none rest h = cc
settled_skip m (some e) rest h = rw h

settled_keep :
    (m : Message) (e : Option Error) (rest : List (Message × Option Error))
    → should_commit e ≡ true
    → settled ((m, e) ∷ rest) ≡ m ∷ settled rest
unfolding settled should_commit
settled_keep m none rest h = refl
settled_keep m (some e) rest h = rw h

-- A message after a temporary error is not settled, and the next may be.
pub settled-outcomes_pair :
    {Service : Type 0} (save : List ℕ → Service → Service × Option Error) (m m' : Message)
    (fs : List Fetch) (s : Service)
    → should_commit (save m.value s).1 ≡ false
    → should_commit (save m'.value (save m.value s).0).1 ≡ true
    → settled (outcomes save (message m ∷ message m' ∷ fs) s)
      ≡ m' ∷ settled (outcomes save fs (save m'.value (save m.value s).0).0)
unfolding outcomes
settled-outcomes_pair save m m' fs s failed done =
    settled_skip m _ _ failed ∙ settled_keep m' _ _ done

counted :
    (e : Option Error) (m : KafkaMetrics)
    → m.consumed ≡ m.processed + m.failed
    → (let m' = count_outcome e (record m { consumed = m.consumed + 1 }) in
        m'.consumed ≡ m'.processed + m'.failed)
counted none m h = omega arith
counted (some e) m h = omega arith

module _ {Service : Type 0} (save_from_message : List ℕ → Service → Service × Option Error)
    (int63n : ℕ → ℕ → ℕ) (cfg : ConsumerConfig) where
  consume-service :
      (m : Message) (r : Run Service)
      → (consume save_from_message int63n cfg m r).service ≡ (save_from_message m.value r.service).0
  unfolding consume
  consume-service m r = elim (Bool-cases (should_commit (save_from_message m.value r.service).1)) [
    | inl q ↦ rw q
    | inr q ↦ rw q
  ]

  consume-committed :
      (m : Message) (r : Run Service)
      → (consume save_from_message int63n cfg m r).committed ≡ (
          if should_commit (save_from_message m.value r.service).1
          then m ∷ r.committed
          else r.committed)
  unfolding consume
  consume-committed m r =
      elim (Bool-cases (should_commit (save_from_message m.value r.service).1)) [
        | inl q ↦ rw q
        | inr q ↦ rw q
      ]

  consume-metrics :
      (m : Message) (r : Run Service)
      → (consume save_from_message int63n cfg m r).metrics
        ≡ count_outcome
            (save_from_message m.value r.service).1
            (record r.metrics { consumed = r.metrics.consumed + 1 })
  unfolding consume
  consume-metrics m r = elim (Bool-cases (should_commit (save_from_message m.value r.service).1)) [
    | inl q ↦ rw q
    | inr q ↦ rw q
  ]

  loop-committed :
      (fs : List Fetch) (r : Run Service)
      → (loop save_from_message int63n cfg fs r).0.committed
        ≡ reverse_aux (settled (outcomes save_from_message fs r.service)) r.committed
  unfolding loop step outcomes settled
  loop-committed [] r = refl
  loop-committed (message m ∷ fs) r =
      loop-committed fs (consume save_from_message int63n cfg m r)
      ∙ rw (consume-service m r, consume-committed m r)
          (settled_cons m (save_from_message m.value r.service).1 _ r.committed)
  loop-committed (fetch_failed (some e) i ∷ fs) r = refl
  loop-committed (fetch_failed none (some e) ∷ fs) r = refl
  loop-committed (fetch_failed none none ∷ fs) r = loop-committed fs _

  -- A run commits exactly the messages whose outcome is success or an invalid order, in the order
  -- in which they were fetched, each once for each time it was fetched: none after a temporary
  -- error.
  pub run-committed :
      (fs : List Fetch) (s : Service)
      → reverse (run save_from_message int63n cfg fs s).0.committed
        ≡ settled (outcomes save_from_message fs s)
  unfolding run
  run-committed fs s =
      ap reverse (loop-committed fs (start save_from_message int63n cfg s)) ∙ reverse-reverse _

  loop-metrics :
      (fs : List Fetch) (r : Run Service)
      → r.metrics.consumed ≡ r.metrics.processed + r.metrics.failed
      → (let m = (loop save_from_message int63n cfg fs r).0.metrics in
          m.consumed ≡ m.processed + m.failed)
  unfolding loop step
  loop-metrics [] r h = h
  loop-metrics (message m ∷ fs) r h =
      loop-metrics fs (consume save_from_message int63n cfg m r)
        (rw (consume-metrics m r) (counted (save_from_message m.value r.service).1 r.metrics h))
  loop-metrics (fetch_failed (some e) i ∷ fs) r h = h
  loop-metrics (fetch_failed none (some e) ∷ fs) r h = h
  loop-metrics (fetch_failed none none ∷ fs) r h = loop-metrics fs _ h

  -- At the end of every run each fetched message has been counted once, as processed or as failed.
  pub run-metrics :
      (fs : List Fetch) (s : Service)
      → (let m = (run save_from_message int63n cfg fs s).0.metrics in
          m.consumed ≡ m.processed + m.failed)
  unfolding run
  run-metrics fs s = loop-metrics fs (start save_from_message int63n cfg s) (omega arith)

  loop-keeps {κ} :
      (P : List Message → Service → Type κ) (fs : List Fetch) (r : Run Service)
      → ((m : Message) (committed : List Message) (s : Service)
          → P committed s
          → P
              (if should_commit (save_from_message m.value s).1 then m ∷ committed else committed)
              (save_from_message m.value s).0)
      → P r.committed r.service
      → P
          (loop save_from_message int63n cfg fs r).0.committed
          (loop save_from_message int63n cfg fs r).0.service
  unfolding loop step
  loop-keeps P [] r each h = h
  loop-keeps P (message m ∷ fs) r each h =
      loop-keeps P fs (consume save_from_message int63n cfg m r) each
        (rw (consume-service m r, consume-committed m r) (each m r.committed r.service h))
  loop-keeps P (fetch_failed (some e) i ∷ fs) r each h = h
  loop-keeps P (fetch_failed none (some e) ∷ fs) r each h = h
  loop-keeps P (fetch_failed none none ∷ fs) r each h = loop-keeps P fs _ each h

  -- What each message keeps of the service and the messages committed so far, a run keeps.
  pub run-keeps {κ} :
      (P : List Message → Service → Type κ) (fs : List Fetch) (s : Service)
      → ((m : Message) (committed : List Message) (s : Service)
          → P committed s
          → P
              (if should_commit (save_from_message m.value s).1 then m ∷ committed else committed)
              (save_from_message m.value s).0)
      → P [] s
      → P
          (run save_from_message int63n cfg fs s).0.committed
          (run save_from_message int63n cfg fs s).0.service
  unfolding run
  run-keeps P fs s each h = loop-keeps P fs (start save_from_message int63n cfg s) each h
