-- ===== src/Command/Tests.antt =====
-- The command on two lines, of which one is no order, and on a file with one order.
use wb_tasks_l.Prelude.{
  ℕ, String, ◌+◌, ◌≡◌, ◌↔◌, refl, Bool, false, List, [], ◌∷◌, ◌++◌, none, length,
}
use wb_tasks_l.Errors.{Result, ok}
use wb_tasks_l.Domain.{Order}
use wb_tasks_l.Samples.{any_address, sample_json}
use wb_tasks_l.Intake.{order_validator}
use wb_tasks_l.Jsonl.{File, counts, validate_order_from_json}
use wb_tasks_l.Jsonl.{max_line}
use wb_tasks_l.Jsonl.Stream.{buffer, accepted, filled, print_lines}
use wb_tasks_l.Command.{validate_orders, validate_orders_json, validate_orders-stdin}

abbrev one_order : List ℕ
one_order = 1 ∷ []

abbrev input : File
input = record { content = ok one_order; scanner = λ limit. (one_order ∷ (0 ∷ []) ∷ [], none) }

abbrev any_file : String → Result File
any_file path = ok input

abbrev no_ext : String → String
no_ext path = ""

abbrev digit : Order → List ℕ
digit o = 1 ∷ []

abbrev never : List ℕ → Bool
never line = false

validate_orders_json_example :
    ((validate_orders
        (order_validator any_address)
        sample_json
        digit
        never
        buffer
        any_file
        no_ext
        "a.json"
        "json"
        []).status
      ≡ 0)
    ↔ ((o : Order) × (validate_order_from_json (order_validator any_address) sample_json one_order
          ≡ ok o))
validate_orders_json_example =
    validate_orders_json (order_validator any_address) sample_json digit never any_file no_ext
      "a.json" input one_order [] refl refl refl

validate_orders-stdin_example :
    (let r =
        validate_orders
          (order_validator any_address)
          sample_json
          digit
          never
          buffer
          any_file
          no_ext
          ""
          "auto"
          [] in
      let orders =
        accepted (order_validator any_address) sample_json never (input.scanner max_line).0 in
      (r.status ≡ 0)
      × (r.stdout ≡ [] ++ print_lines digit orders)
      × ((invalid : ℕ) × (r.summary ≡ counts (length orders) invalid)
          × (length orders + invalid
              ≡ filled (order_validator any_address) sample_json never (input.scanner max_line).0)))
validate_orders-stdin_example =
    validate_orders-stdin (order_validator any_address) sample_json digit never any_file no_ext
      input [] refl refl
