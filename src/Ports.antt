-- ===== src/Ports.antt =====
-- internal/ports: the interfaces between the parts, each a record of operations over the state of
-- its implementation. An operation gets that state and returns it anew; `time.Now()` and what a
-- context says are arguments. The decoder of encoding/json stands here too: it is a parameter.
use wb_tasks_l.Prelude.{ℕ, String, Bool, true, ◌≡◌, ◌≢◌, List, [], Option, some, ℤ}
use wb_tasks_l.Errors.{Error, Result}
use wb_tasks_l.Domain.{Time, Order}

-- What a round of WarmUp finds: the error of a context that is done, and the time.
pub record Moment : Type 0 where
  pub ctx_err : Option Error
  pub now : Time

-- ports.OrderRepository. An error that is nil is `none`; a nil order is `none`.
pub record OrderRepository (Db : Type 0) : Type 0 where
  pub save : Option Order → Db → Db × Option Error
  pub get_by_uid : String → Db → Db × Result (Option Order)
  pub list_by_customer : String → ℤ → ℤ → Db → Db × Result (List Order)
  pub last_n : ℤ → Db → Db × Result (List Order)

-- ports.OrderCache. The moments are those of the rounds of the loop.
pub record OrderCache (Cache : Type 0) : Type 0 where
  pub get : Time → String → Cache → Cache × Option Order × Bool
  pub set : Time → Option Order → Cache → Cache × Option Error
  pub warm_up : (ℕ → Moment) → List Order → Cache → Cache × Option Error

-- ports.OrderValidator
pub record OrderValidator : Type 0 where
  pub validate : Option Order → Result (Unit {0})

-- A json.Decoder over a message with unknown fields disallowed: the first Decode gives an order and
-- the decoder's rest, and the second Decode finds io.EOF or not.
pub record JsonDecoder : Type 1 where
  pub Rest : Type 0
  pub decode : List ℕ → Result (Order × Rest)
  pub at_eof : Rest → Bool

-- What a cache promises to its clients: an invariant that its operations keep, and that an order
-- stored under its identifier is found again while it is fresh.
pub record CacheLaws {Cache : Type 0} (cache : OrderCache Cache) : Type 1 where
  pub IsSound : Cache → Type 0
  pub IsFresh : Cache → Time → Time → Type 0
  pub get-IsSound :
      (now : Time) (uid : String) (c : Cache) → IsSound c → IsSound (cache.get now uid c).0
  pub set-IsSound :
      (now : Time) (order : Option Order) (c : Cache)
      → IsSound c
      → IsSound (cache.set now order c).0
  pub get-set :
      (now later : Time) (o : Order) (c : Cache)
      → IsSound c
      → o.order_uid ≢ ""
      → o.items ≢ some []
      → IsFresh c now later
      → (let g = cache.get later o.order_uid (cache.set now (some o) c).0 in
          (g.1 ≡ some o) × (g.2 ≡ true))
