-- ===== src/Testutil/Orders/Valid.antt =====
-- The orders of MakeOrder (internal/testutil/factory_orders_any.go) and the validator.
use wb_tasks_l.Prelude.{
  ℕ, zero, suc, ◌+◌, String, List, [], ◌∷◌, some, pos, ◌≤◌, ◌≡◌, ◌≢◌, refl, arith, Bool, true,
  append-ne-empty, ◌≤ℤ◌, All,
}
use wb_tasks_l.Errors.{ok}
use wb_tasks_l.Domain.{Order}
use wb_tasks_l.Validate.{year_2000, validate}
use wb_tasks_l.Validate.Items.{IsValidItem}
use wb_tasks_l.Validate.Rules.{IsValidOrder, validate_iff}
use wb_tasks_l.Testutil.Orders.{
  Suffixes, Opt, with_entry, with_customer, with_order_uid, with_items, base_order, items_from,
  apply, apply_all, make_order,
}

-- Options that keep an order valid.
abbrev pub IsProper : Opt → Type 0
IsProper (with_entry entry) = entry ≢ ""
IsProper (with_customer cust) = Unit
IsProper (with_order_uid uid) = uid ≢ ""
IsProper (with_items n) = 1 ≤ n

-- A valid order whose payment has the order's identifier.
record IsGood (parse_address : String → Bool) (o : Order) : Type 0 where
  valid : IsValidOrder parse_address o
  paid_under : o.payment.transaction ≡ o.order_uid

module _ (suffix : Suffixes) (parse_address : String → Bool) where
  base_order-IsGood :
      (now : ℕ)
      → year_2000 ≤ℤ pos now
      → parse_address "john@example.com" ≡ true
      → IsGood parse_address (base_order suffix now)
  unfolding base_order
  base_order-IsGood now late mail = record {
    valid = record {
      identified = append-ne-empty "ord-" (suffix 0) (λ e. cc);
      tracked = append-ne-empty "TR-" (suffix 1) (λ e. cc);
      entered = λ e. cc;
      dated = omega arith;
      paid = record {
        identified = append-ne-empty "ord-" (suffix 0) (λ e. cc);
        in_currency = λ e. cc;
        not_negative = omega arith;
      };
      addressed = λ e. cc;
      mailable = mail;
      with_items = λ e. cc;
      items_valid = (record { named = λ e. cc; priced = omega arith; totalled = omega arith }, tt);
    };
    paid_under = refl;
  }

  items_from-IsValidItem : (n i used : ℕ) → All IsValidItem (items_from suffix n i used)
  unfolding items_from
  items_from-IsValidItem zero i used = tt
  items_from-IsValidItem (suc n) i used = (
    record { named = λ e. cc; priced = omega arith; totalled = omega arith },
    items_from-IsValidItem n (i + 1) (used + 2),
  )

  items_from-ne-nil : (n i used : ℕ) → 1 ≤ n → items_from suffix n i used ≢ []
  unfolding items_from
  items_from-ne-nil zero i used h = absurd (omega arith)
  items_from-ne-nil (suc n) i used h = λ e. cc

  apply-IsGood :
      (opt : Opt) (used : ℕ) (o : Order)
      → IsProper opt
      → IsGood parse_address o
      → IsGood parse_address (apply suffix opt (used, o)).1
  unfolding apply
  apply-IsGood (with_entry entry) used o proper good = record {
    valid = record {
      identified = good.valid.identified;
      tracked = good.valid.tracked;
      entered = proper;
      dated = good.valid.dated;
      paid = good.valid.paid;
      addressed = good.valid.addressed;
      mailable = good.valid.mailable;
      with_items = good.valid.with_items;
      items_valid = good.valid.items_valid;
    };
    paid_under = good.paid_under;
  }
  apply-IsGood (with_customer cust) used o proper good = record {
    valid = record {
      identified = good.valid.identified;
      tracked = good.valid.tracked;
      entered = good.valid.entered;
      dated = good.valid.dated;
      paid = good.valid.paid;
      addressed = good.valid.addressed;
      mailable = good.valid.mailable;
      with_items = good.valid.with_items;
      items_valid = good.valid.items_valid;
    };
    paid_under = good.paid_under;
  }
  apply-IsGood (with_order_uid uid) used o proper good = record {
    valid = record {
      identified = proper;
      tracked = good.valid.tracked;
      entered = good.valid.entered;
      dated = good.valid.dated;
      paid = record {
        identified = proper;
        in_currency = good.valid.paid.in_currency;
        not_negative = good.valid.paid.not_negative;
      };
      addressed = good.valid.addressed;
      mailable = good.valid.mailable;
      with_items = good.valid.with_items;
      items_valid = good.valid.items_valid;
    };
    paid_under = refl;
  }
  apply-IsGood (with_items n) used o proper good = record {
    valid = record {
      identified = good.valid.identified;
      tracked = good.valid.tracked;
      entered = good.valid.entered;
      dated = good.valid.dated;
      paid = good.valid.paid;
      addressed = good.valid.addressed;
      mailable = good.valid.mailable;
      with_items = items_from-ne-nil n 0 used proper;
      items_valid = items_from-IsValidItem n 0 used;
    };
    paid_under = good.paid_under;
  }

  apply_all-IsGood :
      (opts : List Opt) (used : ℕ) (o : Order)
      → All IsProper opts
      → IsGood parse_address o
      → IsGood parse_address (apply_all suffix opts (used, o)).1
  unfolding apply_all
  apply_all-IsGood [] used o proper good = good
  apply_all-IsGood (opt ∷ opts) used o proper good =
      let (used', o') = apply suffix opt (used, o) in
      apply_all-IsGood opts used' o' proper.1 (apply-IsGood opt used o proper.0 good)

  -- `MakeOrder` makes orders that the validator accepts and whose payment has the order's
  -- identifier, with whatever options in whatever order, if none sets an empty entry or identifier
  -- or asks for no items, the clock is not before 2000 and the address in the orders parses.
  pub make_order-validate :
      (opts : List Opt) (now : ℕ)
      → All IsProper opts
      → year_2000 ≤ℤ pos now
      → parse_address "john@example.com" ≡ true
      → (let o = make_order suffix opts now in
          (validate parse_address (some o) ≡ ok tt) × (o.payment.transaction ≡ o.order_uid))
  unfolding make_order
  make_order-validate opts now proper late mail =
      let good =
        apply_all-IsGood opts 4 (base_order suffix now) proper (base_order-IsGood now late mail) in
      ((validate_iff parse_address (make_order suffix opts now)).1 good.valid, good.paid_under)
