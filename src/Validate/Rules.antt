-- ===== src/Validate/Rules.antt =====
-- The rules as a predicate on orders, written down apart from the code, and the validator as its
-- decision procedure.
use wb_tasks_l.Prelude.{
  String, ◌≡◌, refl, ◌≢◌, ◌↔◌, Bool, true, List, [], ◌∷◌, Option, none, some, pos, ◌≤ℤ◌, arith,
  eq_iff, All,
}
use wb_tasks_l.Errors.{Error, order_validation_failed, errors_is, ok, err}
use wb_tasks_l.Domain.{Delivery, Payment, Item, Order}
use wb_tasks_l.Validate.{
  elements, year_2000, validate_order, validate_core, validate_payment, validate_delivery,
  validate_items, validate,
}
use wb_tasks_l.Validate.Items.{
  IsValidItem, validate_items_from-ok, validate_items_from_of_All, validate_items_from-err,
}

pub record IsValidPayment (p : Payment) : Type 0 where
  pub identified : p.transaction ≢ ""
  pub in_currency : p.currency ≢ ""
  pub not_negative : pos 0 ≤ℤ p.amount

-- The rules that an order has to meet.
pub record IsValidOrder (parse_address : String → Bool) (o : Order) : Type 0 where
  pub identified : o.order_uid ≢ ""
  pub tracked : o.track_number ≢ ""
  pub entered : o.entry ≢ ""
  pub dated : year_2000 ≤ℤ o.date_created
  pub paid : IsValidPayment o.payment
  pub addressed : o.delivery.email ≢ ""
  pub mailable : parse_address o.delivery.email ≡ true
  pub with_items : elements o.items ≢ []
  pub items_valid : All IsValidItem (elements o.items)

abbrev HasCore : Order → Type 0
HasCore o =
    (o.order_uid ≢ "") × (o.track_number ≢ "") × (o.entry ≢ "") × (year_2000 ≤ℤ o.date_created)

validate_order-ok : (o : Order) → validate_order o ≡ ok tt → HasCore o
unfolding validate_order
validate_order-ok o h =
    ground (arith, eq_iff o.order_uid "", eq_iff o.track_number "", eq_iff o.entry "")

validate_order_of_HasCore : (o : Order) → HasCore o → validate_order o ≡ ok tt
unfolding validate_order
validate_order_of_HasCore o h =
    ground (arith, eq_iff o.order_uid "", eq_iff o.track_number "", eq_iff o.entry "")

validate_order-err :
    (o : Order) (e : Error) → validate_order o ≡ err e → errors_is e order_validation_failed ≡ true
unfolding validate_order
validate_order-err o e h = ground arith

validate_payment_iff : (p : Payment) → (validate_payment p ≡ ok tt) ↔ IsValidPayment p
unfolding validate_payment
validate_payment_iff p = ground (arith, eq_iff p.transaction "", eq_iff p.currency "")

validate_payment-err :
    (p : Payment) (e : Error)
    → validate_payment p ≡ err e
    → errors_is e order_validation_failed ≡ true
unfolding validate_payment
validate_payment-err p e h = ground arith

module _ (parse_address : String → Bool) where
  validate_delivery_iff :
      (d : Delivery)
      → (validate_delivery parse_address d ≡ ok tt)
        ↔ ((d.email ≢ "") × (parse_address d.email ≡ true))
  unfolding validate_delivery
  validate_delivery_iff d = ground (arith, eq_iff d.email "")

  validate_delivery-err :
      (d : Delivery) (e : Error)
      → validate_delivery parse_address d ≡ err e
      → errors_is e order_validation_failed ≡ true
  unfolding validate_delivery
  validate_delivery-err d e h = ground arith

validate_items-ok :
    (items : List Item) → validate_items items ≡ ok tt → (items ≢ []) × All IsValidItem items
unfolding validate_items
validate_items-ok [] h = ground arith
validate_items-ok (item ∷ items) h = ground (arith, validate_items_from-ok 0 (item ∷ items))

validate_items_of_All :
    (items : List Item) → items ≢ [] → All IsValidItem items → validate_items items ≡ ok tt
unfolding validate_items
validate_items_of_All [] h v = absurd (h refl)
validate_items_of_All (item ∷ items) h v =
    ground (arith, validate_items_from_of_All 0 (item ∷ items))

validate_items-err :
    (items : List Item) (e : Error)
    → validate_items items ≡ err e
    → errors_is e order_validation_failed ≡ true
unfolding validate_items
validate_items-err [] e h = ground arith
validate_items-err (item ∷ items) e h = ground (arith, validate_items_from-err 0 (item ∷ items) e)

module _ (parse_address : String → Bool) where
  validate-ok : (o : Order) → validate parse_address (some o) ≡ ok tt → IsValidOrder parse_address o
  unfolding validate validate_core
  validate-ok o h = ground (
    arith,
    validate_order-ok o,
    validate_payment_iff o.payment,
    validate_delivery_iff parse_address o.delivery,
    validate_items-ok (elements o.items),
  )

  validate_of_IsValidOrder :
      (o : Order) → IsValidOrder parse_address o → validate parse_address (some o) ≡ ok tt
  unfolding validate validate_core
  validate_of_IsValidOrder o v = ground (
    arith,
    validate_order_of_HasCore o,
    validate_payment_iff o.payment,
    validate_delivery_iff parse_address o.delivery,
    validate_items_of_All (elements o.items),
  )

  -- For every order that is not nil, `Validate` returns no error exactly when the order meets the
  -- rules: the named texts are present, the date is not before 2000, the amount is not negative,
  -- the address parses, and there are items, each with a name and without negative prices.
  pub validate_iff :
      (o : Order) → (validate parse_address (some o) ≡ ok tt) ↔ IsValidOrder parse_address o
  validate_iff o = (validate-ok o, validate_of_IsValidOrder o)

  -- Whatever error `Validate` returns, at a nil order too, is the sentinel
  -- `validate.ErrInvalidOrder` for `errors.Is`.
  pub validate-err :
      (order : Option Order) (e : Error)
      → validate parse_address order ≡ err e
      → errors_is e order_validation_failed ≡ true
  unfolding validate validate_core
  validate-err none e h = ground arith
  validate-err (some o) e h = ground (
    arith,
    validate_order-err o e,
    validate_payment-err o.payment e,
    validate_delivery-err parse_address o.delivery e,
    validate_items-err (elements o.items) e,
  )
