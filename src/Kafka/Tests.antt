-- ===== src/Kafka/Tests.antt =====
-- The consumer on short runs, over a service that saves a message of one number 1, calls one of one
-- number 2 an invalid order, and fails for any other.
use wb_tasks_l.Prelude.{
  ℕ, zero, suc, ◌*◌, ◌/◌, ◌^◌, ◌≡◌, refl, List, [], ◌∷◌, map, reverse, Option, none, some, pos,
  ◌*ℤ◌, arith, ℤ, Bool, true, false, ◌&&◌, leb_ℤ, ◌+ℤ◌, ◌<ℤ◌, ◌≢◌, ◌⊎◌, ◌++◌, All, if◌then◌else◌,
}
use Prim.Native.Nat.{min}
use wb_tasks_l.Errors.{canceled, Error, sentinel, new, plain, order_validation_failed}
use wb_tasks_l.Kafka.{
  ConsumerConfig, Run, continue, Message, Fetch, message, fetch_failed, wrap64, new_consumer,
  next_backoff, with_jitter_equal, run, should_commit, handle_message, pause, commit, consume, step,
  loop, min_duration,
}
use wb_tasks_l.Kafka.Backoff.{outage, loop-backoff}
use wb_tasks_l.Kafka.Loss.{IsPosition, IsLater, loop-loses}
use wb_tasks_l.Kafka.Rounds.{outcomes, settled, run-committed}

program : Unit {0}
unfolding wrap64 new_consumer next_backoff with_jitter_equal run should_commit handle_message pause
    commit consume step loop min_duration ◌*ℤ◌
program = tt

abbrev save : List ℕ → ℕ → ℕ × Option Error
save (suc zero ∷ []) n = (suc n, none)
save (suc (suc zero) ∷ []) n = (n, some (sentinel order_validation_failed))
save _ n = (n, some (new (plain "temporary")))

abbrev half : ℕ → ℕ → ℕ
half i n = n / 2

abbrev defaults : ConsumerConfig
defaults = record {
  brokers = "kafka:9092" ∷ [];
  topic = "orders";
  group_id = "orders";
  start_offset = "last";
  process_timeout = pos 5000000000;
  retry_initial = pos 1000000000;
  retry_max = pos 30000000000;
}

abbrev fetches : List Fetch
fetches =
    message (record { partition = pos 0; offset = pos 7; value = 1 ∷ [] })
    ∷ fetch_failed none none
    ∷ message (record { partition = pos 0; offset = pos 8; value = 0 ∷ [] })
    ∷ message (record { partition = pos 0; offset = pos 9; value = 2 ∷ [] })
    ∷ []

run-committed_example :
    reverse (run save half defaults fetches 0).0.committed ≡ settled (outcomes save fetches 0)
run-committed_example = run-committed save half defaults fetches 0

-- The context is done when the fifth fetch fails.
abbrev done : Error
done = sentinel canceled

eq_ℤ : ℤ → ℤ → Bool
eq_ℤ a b = leb_ℤ a b && leb_ℤ b a

eq_ℤ_refl : (a : ℤ) → eq_ℤ a a ≡ true
unfolding eq_ℤ
eq_ℤ_refl a = ground arith

neq_ℤ : (a b : ℤ) → a ≢ b → eq_ℤ a b ≡ false
unfolding eq_ℤ
neq_ℤ a b apart = ground arith

abbrev any_message : Message
any_message = record { partition = pos 0; offset = pos 7; value = 1 ∷ [] }

-- A state of the loop after other fetches.
abbrev running : Run ℕ
running = (run save half defaults fetches 0).0

loop-backoff_example :
    (let (r', flow) = loop save half defaults (message any_message ∷ outage 3) running in
      (flow ≡ continue)
      × (r'.retry ≡ pos (min 30000000000 (1000000000 * 2 ^ 3)))
      × ((step save half defaults (fetch_failed none none) r').0.pauses
          ≡ with_jitter_equal (half r'.jitters) (pos (min 30000000000 (1000000000 * 2 ^ 3)))
            ∷ r'.pauses))
loop-backoff_example =
    loop-backoff save half defaults 1000000000 30000000000 any_message 3 running refl refl
      (omega arith) (omega arith)

-- The messages that were saved or invalid are committed, and the one at 8 is not.
offsets :
    map (λ (m : Message). m.offset) (reverse (run save half defaults fetches 0).0.committed)
    ≡ pos 7 ∷ pos 9 ∷ []
unfolding program
offsets = refl

-- The position behind the last commit of a partition.
abbrev behind : ℤ → List Message → Option ℤ
behind p [] = none
behind p (m ∷ commits) = if eq_ℤ m.partition p then some (m.offset +ℤ pos 1) else behind p commits

behind-IsPosition : IsPosition behind
behind-IsPosition = record {
  own = λ m commits. rw (eq_ℤ_refl m.partition) refl;
  other = λ p m commits apart. rw (neq_ℤ m.partition p apart) refl;
}

abbrev m8 : Message
m8 = record { partition = pos 0; offset = pos 8; value = 0 ∷ [] }

abbrev m9 : Message
m9 = record { partition = pos 0; offset = pos 9; value = 1 ∷ [] }

loop-loses_example :
    (let r' = (loop save half defaults (message m8 ∷ message m9 ∷ []) running).0 in
      (news : List Message) × (r'.committed ≡ news ++ running.committed)
      × All (IsLater m8) news
      × (All (λ m'. m'.partition ≢ m8.partition) news
          ⊎ ((k : ℤ) × (behind m8.partition r'.committed ≡ some k) × (m8.offset <ℤ k))))
loop-loses_example =
    loop-loses save half defaults behind m8 (message m9 ∷ []) running behind-IsPosition
      ((λ same. omega arith), tt) (unfold should_commit in refl)
