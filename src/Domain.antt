-- ===== src/Domain.antt =====
-- internal/domain/order.go: the order and its parts. Go's `int` and `int64` are integers (the
-- program does no arithmetic on these fields), and an instant is the nanoseconds since Go's zero
-- time. A slice is `none` where it is nil, which an empty slice is not.
use wb_tasks_l.Prelude.{String, List, Option, ℤ}

-- time.Time
abbrev pub Time : Type 0
Time = ℤ

pub record Delivery : Type 0 where
  pub name : String
  pub phone : String
  pub zip : String
  pub city : String
  pub address : String
  pub region : String
  pub email : String

pub record Payment : Type 0 where
  pub transaction : String
  pub request_id : String
  pub currency : String
  pub provider : String
  pub amount : ℤ
  pub payment_dt : ℤ
  pub bank : String
  pub delivery_cost : ℤ
  pub goods_total : ℤ
  pub custom_fee : ℤ

pub record Item : Type 0 where
  pub chrt_id : ℤ
  pub track_number : String
  pub price : ℤ
  pub rid : String
  pub name : String
  pub sale : ℤ
  pub size : String
  pub total_price : ℤ
  pub nm_id : ℤ
  pub brand : String
  pub status : ℤ

pub record Order : Type 0 where
  pub order_uid : String
  pub track_number : String
  pub entry : String
  pub delivery : Delivery
  pub payment : Payment
  pub items : Option (List Item)
  pub locale : String
  pub internal_signature : String
  pub customer_id : String
  pub delivery_service : String
  pub shard_key : String
  pub sm_id : ℤ
  pub date_created : Time
  pub oof_shard : String
