-- ===== src/Validate/Tests.antt =====
-- The validator on small orders.
use wb_tasks_l.Prelude.{◌≡◌, ◌↔◌, refl, arith, none, some}
use wb_tasks_l.Errors.{Error, plain, ok, err}
use wb_tasks_l.Domain.{Item}
use wb_tasks_l.Samples.{cup, order_of, any_address}
use wb_tasks_l.Validate.{
  invalid, validate_order, validate_core, validate_payment, validate_delivery, validate_item,
  validate_items_from, validate_items, validate,
}
use wb_tasks_l.Validate.Items.{IsValidItem}
use wb_tasks_l.Validate.Rules.{IsValidOrder, validate_iff}

program : Unit {0}
unfolding validate_order validate_core validate_payment validate_delivery validate_item
    validate_items_from validate_items validate
program = tt

validate_iff_example :
    (validate any_address (some (order_of "a")) ≡ ok tt) ↔ IsValidOrder any_address (order_of "a")
validate_iff_example = validate_iff any_address (order_of "a")

validate_a : validate any_address (some (order_of "a")) ≡ ok tt
unfolding program
validate_a = refl

no_order : Error
no_order = invalid (plain "заказ не может быть nil")

validate_nil : validate any_address none ≡ err no_order
unfolding program no_order
validate_nil = refl

abbrev nameless : Item
nameless = record cup { name = "" }

cup-IsValidItem : IsValidItem cup
cup-IsValidItem = record { named = λ e. cc; priced = omega arith; totalled = omega arith }
