-- ===== src/Testutil/Orders.antt =====
-- factory_orders_any.go and factory_orders_integration.go of internal/testutil, which differ in
-- their build tag alone: MakeOrder and its options. The random suffixes are those of a stream, in
-- the order in which UniqSuffix is called; the time is in whole seconds. A count below 0 makes
-- `make` panic.
pub mod Valid
use Prim.Native.String.{◌++◌}
use wb_tasks_l.Prelude.{
  ℕ, zero, suc, ◌+◌, ◌*◌, ◌/◌, ◌-◌, String, List, [], ◌∷◌, map, Option, none, some, pos, ◌<◌, ◌≤◌,
  ◌≡◌, ◌≢◌, refl, arith, inl, inr, Bool, true, false, append-ne-empty, ◌≤ℤ◌, length, All, eq_iff,
  Bool-cases,
}
use wb_tasks_l.Errors.{Result, ok, err}
use wb_tasks_l.Domain.{Time, Delivery, Payment, Item, Order}
use wb_tasks_l.Validate.{year_2000, elements, validate}
use wb_tasks_l.Validate.Items.{IsValidItem}
use wb_tasks_l.Validate.Rules.{IsValidOrder, IsValidPayment, validate_iff}

-- The suffixes, and how many are used up.
abbrev pub Suffixes : Type 0
Suffixes = ℕ → String

-- The options.
pub data Opt : Type 0 where
  with_entry : (entry : String) → Opt
  with_customer : (cust : String) → Opt
  with_order_uid : (uid : String) → Opt
  with_items : (n : ℕ) → Opt

module _ (suffix : Suffixes) where
  abbrev pub widget : Item
  widget = record {
    chrt_id = pos 1001;
    track_number = "TR-" ++ (suffix 3);
    price = pos 100;
    rid = "RID-1";
    name = "Widget";
    sale = pos 0;
    size = "M";
    total_price = pos 100;
    nm_id = pos 1;
    brand = "brand";
    status = pos 200;
  }

  -- time.Now().UTC().Truncate(time.Second), in nanoseconds since Go's zero time, and its Unix
  -- seconds.
  abbrev pub truncated : ℕ → ℕ
  truncated now = now / 1000000000 * 1000000000

  abbrev pub unix : ℕ → ℕ
  unix now = now / 1000000000 - 62135596800

  -- The order before the options. The clock is behind 1970.
  unfoldable pub base_order : ℕ → Order
  base_order now =
      let uid = "ord-" ++ (suffix 0) in
      record {
        order_uid = uid;
        track_number = "TR-" ++ (suffix 1);
        entry = "WBIL";
        delivery = record {
          name = "John Smith";
          phone = "+1-202-555-01";
          zip = "000000";
          city = "Metropolis";
          address = "Main st 1";
          region = "NA";
          email = "john@example.com";
        };
        payment = record {
          transaction = uid;
          request_id = "";
          currency = "USD";
          provider = "test";
          amount = pos 123;
          payment_dt = pos (unix now);
          bank = "TC-BANK";
          delivery_cost = pos 10;
          goods_total = pos 113;
          custom_fee = pos 0;
        };
        items = some (widget ∷ []);
        locale = "";
        internal_signature = "";
        customer_id = "cust-" ++ (suffix 2);
        delivery_service = "";
        shard_key = "";
        sm_id = pos 0;
        date_created = pos (truncated now);
        oof_shard = "";
      }

  -- The body of the loop of WithItems, from the i-th round on, with `used` suffixes used up.
  unfoldable pub items_from : ℕ → ℕ → ℕ → List Item
  items_from zero i used = []
  items_from (suc rounds) i used =
      record {
        chrt_id = pos (1000 + i);
        track_number = "TR-" ++ (suffix used);
        price = pos (10 * (i + 1));
        rid = "RID-" ++ (suffix (used + 1));
        name = "Item";
        sale = pos 0;
        size = "M";
        total_price = pos (10 * (i + 1));
        nm_id = pos (i + 1);
        brand = "brand";
        status = pos 200;
      }
      ∷ items_from rounds (i + 1) (used + 2)

  -- An option applied, with the number of the suffixes used up.
  unfoldable pub apply : Opt → ℕ × Order → ℕ × Order
  unfolding items_from
  apply (with_entry entry) (used, o) = (used, record o { entry = entry })
  apply (with_customer cust) (used, o) = (used, record o { customer_id = cust })
  apply (with_order_uid uid) (used, o) =
      (used, record o { order_uid = uid; payment = record o.payment { transaction = uid } })
  apply (with_items n) (used, o) = (used + 2 * n, record o { items = some (items_from n 0 used) })

  unfoldable pub apply_all : List Opt → ℕ × Order → ℕ × Order
  unfolding apply
  apply_all [] s = s
  apply_all (opt ∷ opts) s = apply_all opts (apply opt s)

  unfoldable pub make_order : List Opt → ℕ → Order
  unfolding base_order apply_all
  make_order opts now = (apply_all opts (4, base_order now)).1
