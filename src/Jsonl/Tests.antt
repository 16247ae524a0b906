-- ===== src/Jsonl/Tests.antt =====
-- Streams of small lines. A line is a number, as the sample decoder reads it, or blank.
use wb_tasks_l.Prelude.{
  ℕ, ◌≡◌, refl, Bool, true, false, List, [], ◌∷◌, map, Option, none, some, arith, All, length, ◌++◌,
  ◌<◌, ◌≤◌, ◌-◌, ◌∙◌, Bool-cases, eqb, subst, ap, inl, inr, ◌==◌, if◌then◌else◌,
}
use wb_tasks_l.Errors.{Error, Result, ok, err, new, plain}
use wb_tasks_l.Domain.{Order}
use wb_tasks_l.Ports.{OrderValidator, JsonDecoder}
use wb_tasks_l.Service.{parse_message}
use wb_tasks_l.Samples.{order_of, sample_json, decode_sample, first}
use wb_tasks_l.Jsonl.{
  Scanner, max_line, drain, validate_order_from_json, write_order, count_line, scan_line,
  scan_lines, validate_jsonl_stream, validate_json_file, validate_jsonl_file, validate_format,
}
use wb_tasks_l.Jsonl.Stream.{buffer, accepted, print_lines}
use wb_tasks_l.Jsonl.Canonical.{IsScanner, validate_jsonl_stream-again}

program : Unit {0}
unfolding parse_message validate_order_from_json write_order count_line scan_line scan_lines drain
    validate_jsonl_stream validate_json_file validate_jsonl_file validate_format
program = tt

-- It asks for an identifier.
abbrev validator : OrderValidator
validator = record { validate = named }
  where
    named : Option Order → Result (Unit {0})
    named none = err (new (plain "no order"))
    named (some o) = if o.order_uid == "" then err (new (plain "no identifier")) else ok tt

abbrev marshal : Order → List ℕ
marshal o = if o.order_uid == "a" then 1 ∷ [] else if o.order_uid == "" then 2 ∷ [] else 3 ∷ []

abbrev is_blank : List ℕ → Bool
is_blank [] = true
is_blank (n ∷ line) = false

abbrev lines : List (List ℕ)
lines = (1 ∷ []) ∷ [] ∷ (2 ∷ []) ∷ (0 ∷ []) ∷ (3 ∷ []) ∷ []

valid_a_and_b :
    (validate_jsonl_stream validator sample_json marshal is_blank buffer
      (λ limit. (lines, none))
      []).0.1
    ≡ 1 ∷ 10 ∷ 3 ∷ 10 ∷ []
unfolding program
valid_a_and_b = refl

-- The decoder reads back an order that it yields.
IsKept : Order → Type 0
IsKept o = parse_message sample_json (marshal o) ≡ ok o

IsKept-samples : IsKept (order_of "a") × IsKept (order_of "") × IsKept (order_of "b")
unfolding parse_message IsKept
IsKept-samples = (refl, refl, refl)

back : (raw : List ℕ) (o : Order) → parse_message sample_json raw ≡ ok o → IsKept o
unfolding parse_message
back raw o h = elim (Bool-cases (eqb (first raw) 1)) [
  | inl p ↦ kept (order_of "a") IsKept-samples.0 (rw (p, parse_message) at h)
  | inr p ↦ elim (Bool-cases (eqb (first raw) 2)) [
    | inl q ↦ kept (order_of "") IsKept-samples.1 (rw (p, q, parse_message) at h)
    | inr q ↦ elim (Bool-cases (eqb (first raw) 3)) [
      | inl r ↦ kept (order_of "b") IsKept-samples.2 (rw (p, q, r, parse_message) at h)
      | inr r ↦ absurd (unread (rw (p, q, r, parse_message) at h))
    ]
  ]
]
  where
    kept : (o' : Order) → IsKept o' → ◌≡◌ {A = Result Order} (ok o') (ok o) → IsKept o
    kept o' k e = subst IsKept (ap content e) k
      where
        content : Result Order → Order
        content (ok x) = x
        content (err e) = o

    unread : {e : Error} → ◌≡◌ {A = Result Order} (err e) (ok o) → ⊥
    unread e = cc

-- A scanner that yields what stands between newlines, of any length.
push : ℕ → List (List ℕ) → List (List ℕ)
push b [] = (b ∷ []) ∷ []
push b (line ∷ lines) = (b ∷ line) ∷ lines

split : List ℕ → List (List ℕ)
unfolding push
split [] = []
split (b ∷ bytes) = if eqb b 10 then [] ∷ split bytes else push b (split bytes)

abbrev scan : List ℕ → Scanner
scan bytes limit = (split bytes, none)

split_line :
    (line rest : List ℕ) → All (λ b. 32 ≤ b) line → split (line ++ 10 ∷ rest) ≡ line ∷ split rest
unfolding split push
split_line [] rest h = refl
split_line (b ∷ line) rest h = ground (arith, split_line line rest h.1, h.0)

split_print :
    (limit : ℕ) (print : Order → List ℕ) (orders : List Order)
    → All (λ o. (length (print o) < limit) × All (λ b. 32 ≤ b) (print o)) orders
    → split (print_lines print orders) ≡ map print orders
unfolding split print_lines
split_print limit print [] h = refl
split_print limit print (o ∷ orders) h =
    split_line (print o) (print_lines print orders) h.0.1
    ∙ ap (◌∷◌ (print o)) (split_print limit print orders h.1)

scan-IsScanner : IsScanner scan
scan-IsScanner = record {
  splits = λ limit print orders h i. (split_print limit print orders h i, none);
}

-- The sample orders, printed as the digits "1", "2" and "3".
abbrev digit : Order → List ℕ
digit o = if o.order_uid == "a" then 49 ∷ [] else if o.order_uid == "" then 50 ∷ [] else 51 ∷ []

abbrev number : List ℕ → List ℕ
number raw = map (λ b. b - 48) raw

abbrev digit_json : JsonDecoder
digit_json = record {
  Rest = Unit;
  decode = λ raw. decode_sample (number raw);
  at_eof = λ rest. true;
}

number-digit : (o : Order) → number (digit o) ≡ marshal o
number-digit o = ground arith

digit_back :
    (raw : List ℕ) (o : Order)
    → parse_message digit_json raw ≡ ok o
    → parse_message digit_json (digit o) ≡ ok o
unfolding parse_message IsKept
digit_back raw o h = ap (λ r. parse_message sample_json r) (number-digit o) ∙ back (number raw) o h

digit_visible : (o : Order) → is_blank (digit o) ≡ false
digit_visible o = ground arith

digit_printable : (o : Order) → All (λ b. 32 ≤ b) (digit o)
digit_printable o = elim (Bool-cases (o.order_uid == "a")) [
  | inl p ↦ rw p (omega arith, tt)
  | inr p ↦ elim (Bool-cases (o.order_uid == "")) [
    | inl q ↦ rw (p, q) (omega arith, tt)
    | inr q ↦ rw (p, q) (omega arith, tt)
  ]
]

-- Two valid lines, a blank one, an order without an identifier, and a line that does not parse.
abbrev input : List ℕ
input = 49 ∷ 10 ∷ 10 ∷ 50 ∷ 10 ∷ 48 ∷ 10 ∷ 51 ∷ 10 ∷ []

input_valid :
    accepted validator digit_json is_blank (scan input max_line).0
    ≡ order_of "a" ∷ order_of "b" ∷ []
unfolding accepted split push program
input_valid = refl

input_short :
    All
      (λ o. length (digit o) < max_line)
      (accepted validator digit_json is_blank (scan input max_line).0)
input_short = rw input_valid (omega arith, (omega arith, tt))

validate_jsonl_stream-again_example :
    (let ((first, out), _) =
        validate_jsonl_stream validator digit_json digit is_blank buffer (scan input) [] in
      let ((second, again), failed) =
        validate_jsonl_stream validator digit_json digit is_blank buffer (scan out) [] in
      (again ≡ out)
      × (second.valid_lines_count ≡ first.valid_lines_count)
      × (second.invalid_lines_count ≡ 0)
      × (failed ≡ none))
validate_jsonl_stream-again_example =
    validate_jsonl_stream-again validator digit_json digit is_blank scan input
      (record { back = digit_back; visible = digit_visible }) scan-IsScanner
      (record { printable = digit_printable }) input_short
