-- ===== src/Validate/Items.antt =====
-- The loop over the items of an order.
use wb_tasks_l.Prelude.{
  ℕ, suc, ◌+◌, ◌≡◌, refl, ◌≢◌, inl, inr, true, List, [], ◌∷◌, ◌++◌, pos, ◌≤ℤ◌, arith, eq_iff,
  length, All,
}
use wb_tasks_l.Errors.{Error, order_validation_failed, errors_is, ok, err, Result-cases}
use wb_tasks_l.Domain.{Item}
use wb_tasks_l.Validate.{validate_item, validate_items_from}

-- What a stored item must satisfy.
pub record IsValidItem (item : Item) : Type 0 where
  pub named : item.name ≢ ""
  pub priced : pos 0 ≤ℤ item.price
  pub totalled : pos 0 ≤ℤ item.total_price

pub validate_item-ok : (i : ℕ) (item : Item) → validate_item i item ≡ ok tt → IsValidItem item
unfolding validate_item
validate_item-ok i item h = ground (arith, eq_iff item.name "")

pub validate_item_of_IsValidItem :
    (i : ℕ) (item : Item) → IsValidItem item → validate_item i item ≡ ok tt
unfolding validate_item
validate_item_of_IsValidItem i item v = ground (arith, eq_iff item.name "")

pub validate_item-err :
    (i : ℕ) (item : Item) (e : Error)
    → validate_item i item ≡ err e
    → errors_is e order_validation_failed ≡ true
unfolding validate_item
validate_item-err i item e h = ground arith

pub validate_items_from-ok :
    (i : ℕ) (items : List Item) → validate_items_from i items ≡ ok tt → All IsValidItem items
unfolding validate_items_from
validate_items_from-ok i [] h = tt
validate_items_from-ok i (item ∷ items) h =
    ground (arith, validate_item-ok i item, validate_items_from-ok (i + 1) items)

pub validate_items_from_of_All :
    (i : ℕ) (items : List Item) → All IsValidItem items → validate_items_from i items ≡ ok tt
unfolding validate_items_from
validate_items_from_of_All i [] v = refl
validate_items_from_of_All i (item ∷ items) v =
    ground (arith, validate_item_of_IsValidItem i item, validate_items_from_of_All (i + 1) items)

pub validate_items_from-err :
    (i : ℕ) (items : List Item) (e : Error)
    → validate_items_from i items ≡ err e
    → errors_is e order_validation_failed ≡ true
unfolding validate_items_from
validate_items_from-err i [] e h = ground arith
validate_items_from-err i (item ∷ items) e h =
    ground (arith, validate_item-err i item e, validate_items_from-err (i + 1) items e)

validate_items_from-skip :
    (i : ℕ) (good : List Item) (bad : Item) (after : List Item) (e : Error)
    → All IsValidItem good
    → validate_item (i + length good) bad ≡ err e
    → validate_items_from i (good ++ bad ∷ after) ≡ err e
unfolding validate_items_from
validate_items_from-skip i [] bad after e v h =
    let here : i + 0 ≡ i = omega arith in rw (rw here at h)
validate_items_from-skip i (item ∷ good) bad after e v h =
    let shift : i + suc (length good) ≡ i + 1 + length good = omega arith in
    rw (validate_item_of_IsValidItem i item v.0)
      (validate_items_from-skip (i + 1) good bad after e v.1 (rw shift at h))

-- The loop stops at the first item that breaks a rule: where every item of `good` meets the rules
-- and `bad` does not, it returns the error of `bad` at the index `i + length good`, whatever stands
-- behind it.
pub validate_items_from-first :
    (i : ℕ) (good : List Item) (bad : Item) (after : List Item)
    → All IsValidItem good
    → ¬ IsValidItem bad
    → (e : Error) × (validate_item (i + length good) bad ≡ err e)
      × (validate_items_from i (good ++ bad ∷ after) ≡ err e)
validate_items_from-first i good bad after v b = elim (Result-cases (validate_item at bad)) [
  | inl (tt, done) ↦ absurd (b (validate_item-ok at bad done))
  | inr (e, failed) ↦ (e, failed, validate_items_from-skip i good bad after e v failed)
]
  where
    at : ℕ
    at = i + length good
