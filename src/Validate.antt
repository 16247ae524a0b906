-- ===== src/Validate.antt =====
-- pkg/validate/order_validator.go: the domain rules for an order. `mail.ParseAddress` is the
-- argument `parse_address`, true of a text that it accepts.
pub mod Rules
pub mod Items
mod Tests
use wb_tasks_l.Prelude.{
  String, ℕ, ◌+◌, Bool, true, false, ◌||◌, List, [], ◌∷◌, Option, none, some, pos, ltb_ℤ, eqb,
  length, ◌==◌, if◌then◌else◌,
}
use wb_tasks_l.Errors.{
  Error, sentinel, wrap, Message, plain, at_item, order_validation_failed, Result, ok, err, ◌>>◌,
  ◌>>=◌, fail_if,
}
use wb_tasks_l.Domain.{Time, Delivery, Payment, Item, Order}

-- fmt.Errorf("%w: …", ErrInvalidOrder)
abbrev pub invalid : Message → Error
invalid m = wrap m (sentinel order_validation_failed)

abbrev refuse_if : Bool → String → Result (Unit {0})
refuse_if b reason = fail_if b (invalid (plain reason))

-- time.Date(2000, 1, 1, 0, 0, 0, 0, time.UTC), in nanoseconds since Go's zero time.
abbrev pub year_2000 : Time
year_2000 = pos 63082281600000000000

abbrev pub is_zero : Time → Bool
is_zero (pos n) = eqb n 0
is_zero _ = false

-- A slice that is nil has no elements.
abbrev pub elements {ℓ} : {A : Type ℓ} → Option (List A) → List A
elements none = []
elements (some xs) = xs

validate_order : Order → Result (Unit {0})
validate_order o = do
  refuse_if (o.order_uid == "") "order_uid обязателен"
  refuse_if (o.track_number == "") "track_number обязателен"
  refuse_if (o.entry == "") "entry (канал поступления) обязателен"
  refuse_if (is_zero o.date_created || ltb_ℤ o.date_created year_2000) "date_created некорректен"

-- The order is a pointer, so it may be nil.
unfoldable pub validate_core : Option Order → Result Order
unfolding validate_order
validate_core none = err (invalid (plain "заказ не может быть nil"))
validate_core (some o) = do validate_order o; ok o

unfoldable pub validate_payment : Payment → Result (Unit {0})
validate_payment p = do
  refuse_if (p.transaction == "") "payment.transaction обязателен"
  refuse_if (p.currency == "") "payment.currency обязателен"
  refuse_if (ltb_ℤ p.amount (pos 0)) "payment.amount должен быть неотрицательным"

unfoldable pub validate_delivery : (String → Bool) → Delivery → Result (Unit {0})
validate_delivery parse_address d = do
  refuse_if (d.email == "") "delivery.email обязателен"
  refuse_if (if parse_address d.email then false else true) "delivery.email некорректен"

-- The body of the loop over the items.
unfoldable pub validate_item : ℕ → Item → Result (Unit {0})
validate_item i item = do
  fail_if (item.name == "") (invalid (at_item i "name обязателен"))
  fail_if (ltb_ℤ item.price (pos 0)) (invalid (at_item i "price должен быть неотрицательным"))
  fail_if (ltb_ℤ item.total_price (pos 0))
      (invalid (at_item i "total_price должен быть неотрицательным"))

unfoldable pub validate_items_from : ℕ → List Item → Result (Unit {0})
validate_items_from i [] = ok tt
validate_items_from i (item ∷ items) = do validate_item i item; validate_items_from (i + 1) items

unfoldable pub validate_items : List Item → Result (Unit {0})
unfolding validate_items_from
validate_items items = do
  refuse_if (eqb (length items) 0) "items не должен быть пустым"
  validate_items_from 0 items

unfoldable pub validate : (String → Bool) → Option Order → Result (Unit {0})
validate parse_address order = do
  o ← validate_core order
  validate_payment o.payment
  validate_delivery parse_address o.delivery
  validate_items (elements o.items)
