-- ===== src/Metrics.antt =====
-- pkg/metrics/metrics.go: MustRegister behind its sync.Once. The registry of prometheus is an argument; to
-- register a list of collectors it answers the new registry, or `none` where it panics.
use wb_tasks_l.Prelude.{◌≡◌, Bool, true, false, List, [], ◌∷◌, Option, none, some, arith}

pub data Collector : Type 0 where
  kafka_messages_consumed kafka_messages_processed kafka_messages_failed : Collector
  cache_ops cache_size : Collector

abbrev pub collectors : List Collector
collectors =
    kafka_messages_consumed ∷ kafka_messages_processed ∷ kafka_messages_failed ∷ cache_ops
    ∷ cache_size ∷ []

-- The state of registerOnce, and the registry.
pub record Registration (Registry : Type 0) : Type 0 where
  pub once : Bool
  pub registry : Registry

module _ {Registry : Type 0} (register : List Collector → Registry → Option Registry) where
  -- The function under sync.Once; a panic leaves the Once done and the registry as it was.
  unfoldable pub register_once : Registration Registry → Registration Registry × Bool
  register_once r = elim (register collectors r.registry) [
    | none ↦ (record r { once = true }, true)
    | some registry ↦ (record { once = true; registry = registry }, false)
  ]

  -- MustRegister, with whether it panics.
  unfoldable pub must_register : Registration Registry → Registration Registry × Bool
  unfolding register_once
  must_register r = elim r.once [ true ↦ (r, false) | false ↦ register_once r ]

  must_register_done : (r : Registration Registry) → r.once ≡ true → must_register r ≡ (r, false)
  unfolding must_register
  must_register_done r done = ground (arith, done)

  once-must_register : (r : Registration Registry) → (must_register r).0.once ≡ true
  unfolding must_register
  once-must_register r = ground arith

  -- However often `MustRegister` was called, calling it again changes nothing and does not panic.
  pub must_register-again :
      (r : Registration Registry) → (let r' = (must_register r).0 in must_register r' ≡ (r', false))
  must_register-again r = must_register_done (must_register r).0 (once-must_register r)
