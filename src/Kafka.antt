-- ===== src/Kafka.antt =====
-- internal/kafka: the consumer (consumer.go, consumer_helpers.go) and the metrics of pkg/metrics
-- that it writes. What the reader and the context do is an argument of each round of the loop; the
-- service is a function on its own state; `rand.Int63n` is an argument that may answer each call
-- differently.
pub mod Backoff
pub mod Rounds
pub mod Loss
pub mod Reader
mod Tests
use wb_tasks_l.Prelude.{
  ℕ, suc, ◌+◌, ◌-◌, ◌/◌, ◌%◌, String, Bool, true, false, List, [], ◌∷◌, ◌++◌, Option, none, some, ℤ,
  pos, negsuc, ◌*ℤ◌, ltb, ltb_ℤ, leb_ℤ, if◌then◌else◌,
}
use wb_tasks_l.Errors.{Error, errors_is, order_validation_failed}

-- int64 arithmetic: the integer in -2^63 … 2^63 - 1 that is equal modulo 2^64.
pub wrap64 : ℤ → ℤ
wrap64 (pos n) =
    let r = n % 18446744073709551616 in
    if ltb r 9223372036854775808 then pos r else negsuc (18446744073709551616 - r - 1)
wrap64 (negsuc n) =
    let r = n % 18446744073709551616 in
    if ltb r 9223372036854775808 then negsuc r else pos (18446744073709551616 - r - 1)

-- The durations are in nanoseconds.
pub record ConsumerConfig : Type 0 where
  pub brokers : List String
  pub topic : String
  pub group_id : String
  pub start_offset : String
  pub process_timeout : ℤ
  pub retry_initial : ℤ
  pub retry_max : ℤ

-- The defaults of NewConsumer.
abbrev or_default : ℤ → ℤ → ℤ
or_default d def = if leb_ℤ d (pos 0) then def else d

pub new_consumer : ConsumerConfig → ConsumerConfig
new_consumer cfg = record cfg {
  process_timeout = or_default cfg.process_timeout (pos 5000000000);
  retry_initial = or_default cfg.retry_initial (pos 1000000000);
  retry_max = or_default cfg.retry_max (pos 30000000000);
}

pub min_duration : ℤ → ℤ → ℤ
min_duration a b = if ltb_ℤ a b then a else b

pub next_backoff : ℤ → ℤ → ℤ
unfolding wrap64
next_backoff retry_max current =
    let doubled = wrap64 (current *ℤ pos 2) in
    if ltb_ℤ retry_max doubled then retry_max else doubled

-- `int63n` is what rand.Int63n answers. For a positive duration the bound is d - d/2 + 1.
pub with_jitter_equal : (ℕ → ℕ) → ℤ → ℤ
with_jitter_equal int63n (negsuc n) = pos 0
with_jitter_equal int63n (pos ℕ.zero) = pos 0
with_jitter_equal int63n (pos (suc n)) =
    let half = suc n / 2 in pos (half + int63n (suc n - half + 1))

-- kafka.Message, as far as the consumer and its commits look at it.
pub record Message : Type 0 where
  pub partition : ℤ
  pub offset : ℤ
  pub value : List ℕ

pub record KafkaMetrics : Type 0 where
  pub consumed : ℕ
  pub processed : ℕ
  pub failed : ℕ

-- The state of a run: the service's, the loop variable `retry`, the messages given to
-- CommitMessages and the pauses asked for, both with the last one first, and the number of jitters.
pub record Run (Service : Type 0) : Type 0 where
  pub service : Service
  pub retry : ℤ
  pub committed : List Message
  pub pauses : List ℤ
  pub jitters : ℕ
  pub metrics : KafkaMetrics

-- What FetchMessage and the context give to a round: a message; or an error, with the context's
-- error if it is done, and its error if it is done before the pause is over.
pub data Fetch : Type 0 where
  message : Message → Fetch
  fetch_failed : (ctx_err : Option Error) (interrupted : Option Error) → Fetch

-- How a round ends: the loop goes on, or Run returns an error, which may be nil.
pub data Flow : Type 0 where
  continue : Flow
  return : Option Error → Flow

-- The case distinction of handleMessage on the error of SaveFromMessage.
unfoldable pub should_commit : Option Error → Bool
should_commit none = true
should_commit (some e) = errors_is e order_validation_failed

abbrev pub count_outcome : Option Error → KafkaMetrics → KafkaMetrics
count_outcome none m = record m { processed = m.processed + 1 }
count_outcome (some e) m = record m { failed = m.failed + 1 }

module _ {Service : Type 0} (save_from_message : List ℕ → Service → Service × Option Error)
    (int63n : ℕ → ℕ → ℕ) (cfg : ConsumerConfig) where
  -- handleMessage: the run after the message, and whether to commit it.
  pub handle_message : Message → Run Service → Run Service × Bool
  unfolding should_commit
  handle_message msg r =
      let (service, err) = save_from_message msg.value r.service in
      (record r { service = service; metrics = count_outcome err r.metrics }, should_commit err)

  -- c.sleepWithBackoff(ctx, c.withJitterEqual(d)), as far as the pause.
  pub pause : ℤ → Run Service → Run Service
  unfolding with_jitter_equal
  pause d r = record r {
    pauses = with_jitter_equal (int63n r.jitters) d ∷ r.pauses;
    jitters = r.jitters + 1;
  }

  pub commit : Message → Run Service → Run Service
  commit msg r = record r { committed = msg ∷ r.committed }

  -- A message was fetched: the backoff starts anew, and the message is committed or, after a
  -- temporary error, left with a pause.
  pub consume : Message → Run Service → Run Service
  unfolding handle_message pause commit min_duration
  consume msg r =
      let fresh : Run Service = record r {
        retry = cfg.retry_initial;
        metrics = record r.metrics { consumed = r.metrics.consumed + 1 };
      } in
      let (handled, ok) = handle_message msg fresh in
      if ok
      then commit msg handled
      else pause (min_duration cfg.retry_initial (pos 500000000)) handled

  pub step : Fetch → Run Service → Run Service × Flow
  unfolding consume pause next_backoff
  step (message msg) r = (consume msg r, continue)
  step (fetch_failed (some e) interrupted) r = (r, return (some e))
  step (fetch_failed none (some e)) r = (pause r.retry r, return (some e))
  step (fetch_failed none none) r =
      let paused = pause r.retry r in
      (record paused { retry = next_backoff cfg.retry_max r.retry }, continue)

  abbrev start : Service → Run Service
  start s = record {
    service = s;
    retry = cfg.retry_initial;
    committed = [];
    pauses = [];
    jitters = 0;
    metrics = record { consumed = 0; processed = 0; failed = 0 };
  }

  -- The loop, for as long as the fetches last.
  pub loop : List Fetch → Run Service → Run Service × Flow
  loop [] r = (r, continue)
  loop (f ∷ fs) r =
      let (r', flow) = step f r in
      let rest = loop fs r' in (elim flow [ return e ↦ (r', return e) | continue ↦ rest ])

  pub run : List Fetch → Service → Run Service × Flow
  unfolding loop
  run fs s = loop fs (start s)
