-- ===== src/Http.antt =====
-- internal/transport/http/router.go and pkg/httpx/params.go: the two API handlers and the reading
-- of `limit` and `offset`. strconv.Atoi and strconv.Itoa are arguments, as is the query of a
-- request (`none` where a key is missing). The handlers run over the read service of
-- internal/ports.
pub mod Pages
pub mod Router
mod Tests
use wb_tasks_l.Prelude.{
  String, Bool, true, false, List, Option, none, some, ℤ, pos, ℕ, ltb_ℤ, leb_ℤ, ◌==◌, if◌then◌else◌,
}
use wb_tasks_l.Errors.{Error, Result, ok, err}
use wb_tasks_l.Domain.{Order}

-- ports.OrderReadService, over the state of its implementation.
pub record OrderReadService (Service : Type 0) : Type 0 where
  pub get_order : String → Service → Service × Result (Option Order)
  pub orders_by_customer : String → ℤ → ℤ → Service → Service × Result (List Order)

pub data Body : Type 0 where
  failure : String → Body
  one : Order → Body
  many : List Order → Body

-- What c.JSON writes: a status and a body.
pub record Response : Type 0 where
  pub status : ℕ
  pub body : Body

abbrev fail_with : ℕ → String → Response
fail_with status text = record { status = status; body = failure text }

-- NewHandler's timeout, in nanoseconds.
abbrev pub request_timeout : ℤ → ℤ
request_timeout t = if leb_ℤ t (pos 0) then pos 3000000000 else t

unfoldable pub clamp_int : ℤ → ℤ → ℤ → ℤ
clamp_int v lo hi = if ltb_ℤ v lo then lo else if ltb_ℤ hi v then hi else v

-- c.DefaultQuery(key, default)
abbrev default_query : (String → Option String) → String → String → String
default_query query key default = elim (query key) [ none ↦ default | some text ↦ text ]

module _ (atoi : String → Option ℤ) (itoa : ℤ → String) where
  unfoldable pub parse_limit : (String → Option String) → ℤ → ℤ → ℤ
  unfolding clamp_int
  parse_limit query default_limit max_limit =
      elim (atoi (default_query query "limit" (itoa default_limit))) [
        | none ↦ default_limit
        | some v ↦ clamp_int v (pos 1) max_limit
      ]

  unfoldable pub parse_offset : (String → Option String) → ℤ
  parse_offset query = elim (atoi (default_query query "offset" "0")) [
    | none ↦ pos 0
    | some v ↦ if leb_ℤ (pos 0) v then v else pos 0
  ]

  unfoldable pub parse_limit_offset : (String → Option String) → ℤ → ℤ → ℤ × ℤ
  unfolding parse_limit parse_offset
  parse_limit_offset query default_limit max_limit =
      (parse_limit query default_limit max_limit, parse_offset query)

module _ {Service : Type 0} (service : OrderReadService Service) where
  order_response : Result (Option Order) → Response
  order_response (err e) = fail_with 500 "internal server error"
  order_response (ok none) = fail_with 404 "order not found"
  order_response (ok (some o)) = record { status = 200; body = one o }

  unfoldable pub get_order_by_id : String → Service → Service × Response
  unfolding order_response
  get_order_by_id id s =
      if id == ""
      then (s, fail_with 400 "empty id")
      else (let (s', answer) = service.get_order id s in (s', order_response answer))

  orders_response : Result (List Order) → Response
  orders_response (err e) = fail_with 500 "internal server error"
  orders_response (ok orders) = record { status = 200; body = many orders }

  module _ (atoi : String → Option ℤ) (itoa : ℤ → String) where
    -- The page is read with the default 20 and the greatest limit 100.
    unfoldable pub list_orders_by_customer :
        (String → Option String) → String → Service → Service × Response
    unfolding parse_limit_offset orders_response
    list_orders_by_customer query id s =
        if id == ""
        then (s, fail_with 400 "empty customer id")
        else (let (limit, offset) = parse_limit_offset atoi itoa query (pos 20) (pos 100) in
            let (s', answer) = service.orders_by_customer id limit offset s in
            (s', orders_response answer))
