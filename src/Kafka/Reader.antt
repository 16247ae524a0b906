-- ===== src/Kafka/Reader.antt =====
-- readerConfig of internal/kafka/consumer_config.go and Consumer.Close of
-- internal/kafka/consumer.go. strings.ToLower and strings.TrimSpace are arguments.
use wb_tasks_l.Prelude.{
  ℕ, String, ◌≡◌, refl, Bool, true, false, List, [], ◌∷◌, ◌++◌, Option, none, some, ◌==◌,
  if◌then◌else◌,
}
use wb_tasks_l.Errors.{Error}
use wb_tasks_l.Kafka.{ConsumerConfig, Run, Fetch, message, fetch_failed, return, step, loop, run}

pub data StartOffset : Type 0 where
  first_offset last_offset : StartOffset

-- kafka.ReaderConfig, as far as the program sets it.
pub record ReaderConfig : Type 0 where
  pub brokers : List String
  pub group_id : String
  pub topic : String
  pub commit_interval : ℕ
  pub start_offset : StartOffset

module _ (to_lower trim_space : String → String) where
  abbrev pub reader_config : ConsumerConfig → ReaderConfig
  reader_config c = record {
    brokers = c.brokers;
    group_id = c.group_id;
    topic = c.topic;
    commit_interval = 0;
    start_offset =
        if to_lower (trim_space c.start_offset) == "first" then first_offset else last_offset;
  }

-- Close, with the state of `closeOnce`: whether it closes the reader, and the error that it
-- returns.
unfoldable pub close : Option Error → Bool → Bool × Bool × Option Error
close reader_err true = (true, false, none)
close reader_err false = (true, true, reader_err)

module _ {Service : Type 0} (save_from_message : List ℕ → Service → Service × Option Error)
    (int63n : ℕ → ℕ → ℕ) (cfg : ConsumerConfig) where
  loop_ends :
      (fs more : List Fetch) (e : Error) (interrupted : Option Error) (r : Run Service)
      → (failed : Option Error) × ((loop save_from_message int63n cfg
            (fs ++ fetch_failed (some e) interrupted ∷ more)
            r).1
          ≡ return failed)
        × (loop save_from_message int63n cfg (fs ++ fetch_failed (some e) interrupted ∷ more) r
            ≡ loop save_from_message int63n cfg (fs ++ fetch_failed (some e) interrupted ∷ []) r)
  unfolding loop step
  loop_ends [] more e interrupted r = (some e, refl, refl)
  loop_ends (message m ∷ fs) more e interrupted r = loop_ends fs more e interrupted _
  loop_ends (fetch_failed (some e') i ∷ fs) more e interrupted r = (some e', refl, refl)
  loop_ends (fetch_failed none (some e') ∷ fs) more e interrupted r = (some e', refl, refl)
  loop_ends (fetch_failed none none ∷ fs) more e interrupted r = loop_ends fs more e interrupted _

  -- Run ends once its context is done: after any rounds, the first fetch that fails with the
  -- context done makes it return, at the latest, and nothing that the reader would give afterwards
  -- is fetched.
  pub run_ends :
      (fs more : List Fetch) (e : Error) (interrupted : Option Error) (s : Service)
      → (failed : Option Error) × ((run save_from_message int63n cfg
            (fs ++ fetch_failed (some e) interrupted ∷ more)
            s).1
          ≡ return failed)
        × (run save_from_message int63n cfg (fs ++ fetch_failed (some e) interrupted ∷ more) s
            ≡ run save_from_message int63n cfg (fs ++ fetch_failed (some e) interrupted ∷ []) s)
  unfolding run
  run_ends fs more e interrupted s = loop_ends fs more e interrupted _
