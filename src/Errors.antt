-- ===== src/Errors.antt =====
-- Go's `error` values as the program builds and inspects them: sentinels, `errors.New`, and the
-- chains of `fmt.Errorf("…: %w", err)` that `errors.Is` walks. The text of a message is kept; a
-- formatted index stands beside it.
use Prim.Native.String.{String}
use mathlib.Core.Bool.{Bool, true, false}
use wb_tasks_l.Prelude.{ℕ, ◌≡◌, refl, ◌⊎◌, inl, inr}

-- The named error values that the program compares with.
pub data Sentinel : Type 0 where
  -- pkg/validate.ErrInvalidOrder
  order_validation_failed : Sentinel
  -- internal/cache/memory.ErrInvalidOrder
  invalid_cache_order : Sentinel
  -- context.Canceled and context.DeadlineExceeded
  canceled deadline_exceeded : Sentinel
  -- http.ErrServerClosed
  server_closed : Sentinel

pub data Message : Type 0 where
  plain : String → Message
  -- `items[i]…`
  at_item : ℕ → String → Message

pub data Error : Type 0 where
  sentinel : Sentinel → Error
  new : Message → Error
  wrap : Message → Error → Error

abbrev pub same_sentinel : Sentinel → Sentinel → Bool
same_sentinel order_validation_failed order_validation_failed = true
same_sentinel invalid_cache_order invalid_cache_order = true
same_sentinel canceled canceled = true
same_sentinel deadline_exceeded deadline_exceeded = true
same_sentinel server_closed server_closed = true
same_sentinel _ _ = false

-- errors.Is(err, target) at a target that is a sentinel.
abbrev pub errors_is : Error → Sentinel → Bool
errors_is (sentinel s) t = same_sentinel s t
errors_is (new m) t = false
errors_is (wrap m e) t = errors_is e t

-- A call that returns a value and an error.
pub data Result {ℓ} (A : Type ℓ) : Type ℓ where
  ok : A → Result A
  err : Error → Result A

infixl 5 ◌>>◌ ◌>>=◌
-- The early return of an error.
abbrev pub ◌>>=◌ {ℓ κ} : {X : Type ℓ} {Y : Type κ} → Result X → (X → Result Y) → Result Y
err failure >>= next = err failure
ok value >>= next = next value

abbrev pub ◌>>◌ {ℓ} : {Y : Type ℓ} → Result (Unit {0}) → Result Y → Result Y
check >> next = check >>= λ done. next

-- `if b { return err }`
abbrev pub fail_if : Bool → Error → Result (Unit {0})
fail_if true e = err e
fail_if false e = ok tt

pub Result-cases {ℓ} :
    {A : Type ℓ} (r : Result A) → ((a : A) × (r ≡ ok a)) ⊎ ((e : Error) × (r ≡ err e))
Result-cases (ok a) = inl (a, refl)
Result-cases (err e) = inr (e, refl)

-- What a chain that succeeds has gone through.
pub bind-ok {ℓ κ} :
    {X : Type ℓ} {Y : Type κ} (r : Result X) (next : X → Result Y) (y : Y)
    → (r >>= next) ≡ ok y
    → (x : X) × (r ≡ ok x) × (next x ≡ ok y)
bind-ok (ok x) next y h = (x, refl, h)
bind-ok (err e) next y h = cc

pub ok-injective {ℓ} : {A : Type ℓ} {a b : A} → ok a ≡ ok b → a ≡ b
ok-injective h = cc
