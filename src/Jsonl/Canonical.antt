-- ===== src/Jsonl/Canonical.antt =====
-- Validation of the output of ValidateJSONLStream, and the two formats of ValidateFile compared.
use wb_tasks_l.Prelude.{
  ℕ, suc, ◌≡◌, refl, sym, ap, ◌∙◌, inl, inr, Bool, false, List, [], ◌∷◌, map, none, some, arith,
  length, All, All-both, ◌<◌, ◌≤◌, Bool-cases,
}
use wb_tasks_l.Errors.{ok, Result-cases}
use wb_tasks_l.Domain.{Order}
use wb_tasks_l.Ports.{OrderValidator, JsonDecoder}
use wb_tasks_l.Service.{parse_message}
use wb_tasks_l.Jsonl.{
  Writer, File, format_json, format_jsonl, validate_order_from_json, write_order, count_line,
  scan_line, scan_lines, Scanner, max_line, wrapped, drain, validate_jsonl_stream,
  validate_json_file, validate_jsonl_file, validate_format,
}
use wb_tasks_l.Jsonl.Stream.{buffer, accepted, filled, print_lines, validate_jsonl_stream-accepted}

-- The decoder reads back what json.Marshal prints of an order that it has read, and no such text is
-- blank.
pub record IsRoundTrip (json : JsonDecoder) (marshal : Order → List ℕ) (is_blank : List ℕ → Bool)
    : Type 0 where
  pub back :
      (raw : List ℕ) (o : Order)
      → parse_message json raw ≡ ok o
      → parse_message json (marshal o) ≡ ok o
  pub visible : (o : Order) → is_blank (marshal o) ≡ false

-- Lines that are shorter than the limit of a scanner, and have no control characters, are what it
-- yields of them.
pub record IsScanner (scan : List ℕ → Scanner) : Type 0 where
  pub splits :
      (limit : ℕ) (print : Order → List ℕ) (orders : List Order)
      → All (λ o. (length (print o) < limit) × All (λ b. 32 ≤ b) (print o)) orders
      → scan (print_lines print orders) limit ≡ (map print orders, none)

-- json.Marshal escapes the control characters in texts, and prints none between them.
pub record IsCompact (marshal : Order → List ℕ) : Type 0 where
  pub printable : (o : Order) → All (λ b. 32 ≤ b) (marshal o)

prints :
    {marshal : Order → List ℕ}
    → IsCompact marshal
    → (orders : List Order) → All (λ o. All (λ b. 32 ≤ b) (marshal o)) orders
prints compact [] = tt
prints compact (o ∷ orders) = (compact.printable o, prints compact orders)

module _ (validator : OrderValidator) (json : JsonDecoder) (marshal : Order → List ℕ)
    (is_blank : List ℕ → Bool) where
  -- An order that was read is accepted again.
  IsSettled : Order → Type 0
  IsSettled o = validate_order_from_json validator json (marshal o) ≡ ok o

  validate_order_from_json-again :
      (line : List ℕ) (o : Order)
      → IsRoundTrip json marshal is_blank
      → validate_order_from_json validator json line ≡ ok o
      → IsSettled o
  unfolding validate_order_from_json IsSettled
  validate_order_from_json-again line o rt h = elim (Result-cases (parse_message json line)) [
    | inr (e, p) ↦ cc
    | inl (o', p) ↦ elim (Result-cases (validator.validate (some o'))) [
      | inr (e, q) ↦ cc
      | inl (u, q) ↦
          let same : o' ≡ o = ground arith in rw (rt.back line o (p ∙ ap ok same), ← same, q)
    ]
  ]

  accepted-IsSettled :
      (lines : List (List ℕ))
      → IsRoundTrip json marshal is_blank
      → All IsSettled (accepted validator json is_blank lines)
  unfolding accepted
  accepted-IsSettled [] rt = tt
  accepted-IsSettled (line ∷ lines) rt = elim (Bool-cases (is_blank line)) [
    | inl q ↦ rw q (accepted-IsSettled lines rt)
    | inr q ↦ elim (Result-cases (validate_order_from_json validator json line)) [
      | inl (o, p) ↦
          rw (q, p) (validate_order_from_json-again line o rt p, accepted-IsSettled lines rt)
      | inr (e, p) ↦ rw (q, p) (accepted-IsSettled lines rt)
    ]
  ]

  accepted-print :
      (orders : List Order)
      → ((o : Order) → is_blank (marshal o) ≡ false)
      → All IsSettled orders
      → accepted validator json is_blank (map marshal orders) ≡ orders
  unfolding accepted IsSettled
  accepted-print [] visible h = refl
  accepted-print (o ∷ orders) visible h =
      rw (visible o, h.0) (ap (◌∷◌ o) (accepted-print orders visible h.1))

  filled-print :
      (orders : List Order)
      → ((o : Order) → is_blank (marshal o) ≡ false)
      → filled validator json is_blank (map marshal orders) ≡ length orders
  unfolding filled
  filled-print [] visible = refl
  filled-print (o ∷ orders) visible = rw (visible o) (ap suc (filled-print orders visible))

  -- Validation is idempotent: the bytes that a stream's validation writes, scanned and validated
  -- again, are all valid lines and are written again as they are, without an error. The decoder
  -- reads back what json.Marshal prints of an order that it has read, the print has no control
  -- characters, and no order that is printed is as long as the limit of the scanner, which a print
  -- can reach although its line did not, since json.Marshal escapes.
  pub validate_jsonl_stream-again :
      (scan : List ℕ → Scanner) (input : List ℕ)
      → IsRoundTrip json marshal is_blank
      → IsScanner scan
      → IsCompact marshal
      → All
          (λ o. length (marshal o) < max_line)
          (accepted validator json is_blank (scan input max_line).0)
      → (let ((first, out), _) =
            validate_jsonl_stream validator json marshal is_blank buffer (scan input) [] in
          let ((second, again), failed) =
            validate_jsonl_stream validator json marshal is_blank buffer (scan out) [] in
          (again ≡ out)
          × (second.valid_lines_count ≡ first.valid_lines_count)
          × (second.invalid_lines_count ≡ 0)
          × (failed ≡ none))
  validate_jsonl_stream-again scan input rt scanning compact short =
      let lines = (scan input max_line).0 in
      let orders = accepted validator json is_blank lines in
      let same = accepted-print orders rt.visible (accepted-IsSettled lines rt) in
      let (out, valid, _, _) =
        validate_jsonl_stream-accepted validator json marshal is_blank (scan input) [] in
      let rescanned : scan (print_lines marshal orders) max_line ≡ (map marshal orders, none) =
        scanning.splits max_line marshal orders
          (All-both _ _ orders short (prints compact orders)) in
      rw out (
        let (again, valid', total, fine) =
          validate_jsonl_stream-accepted validator json marshal is_blank
            (scan (print_lines marshal orders)) [] in
        let printed = filled-print orders rt.visible in
        let kept =
          valid'
          ∙ ap (λ r. length (accepted validator json is_blank r.0)) rescanned
          ∙ ap length same in
        let all = total ∙ ap (λ r. filled validator json is_blank r.0) rescanned ∙ printed in
        (
          again
              ∙ ap (λ r. print_lines marshal (accepted validator json is_blank r.0)) rescanned
              ∙ ap (print_lines marshal) same,
          kept ∙ sym valid,
          omega (arith, kept, all),
          fine ∙ ap (λ r. wrapped "scan" r.1) rescanned,
        ))

  module _ {W : Type 0} (writer : Writer W) (line : List ℕ) (w : W)
      (visible : is_blank line ≡ false) (scanner : Scanner)
      (single : scanner max_line ≡ (line ∷ [], none)) where
    one_line :
        (let (out, summary, _) =
            validate_json_file validator json marshal is_blank writer (ok line) w in
          let (out', summary', _) =
            validate_jsonl_file validator json marshal is_blank writer scanner w in
          (out ≡ out') × (summary ≡ summary'))
    unfolding validate_json_file validate_jsonl_file validate_jsonl_stream drain scan_lines
        scan_line count_line write_order
    one_line = ground (arith, visible, single)

  -- A file of one line that is not blank is treated alike in both formats: what is written and the
  -- counts are the same, whatever the writer does. (An invalid order is an error in the format JSON
  -- only, and the texts of the errors differ.)
  pub validate_format-one_line :
      {W : Type 0} (writer : Writer W) (line : List ℕ) (file : File) (w : W)
      → is_blank line ≡ false
      → file.content ≡ ok line
      → file.scanner max_line ≡ (line ∷ [], none)
      → (let (out, summary, _) =
            validate_format validator json marshal is_blank writer format_json file w in
          let (out', summary', _) =
            validate_format validator json marshal is_blank writer format_jsonl file w in
          (out ≡ out') × (summary ≡ summary'))
  unfolding validate_format
  validate_format-one_line writer line file w visible content single =
      rw content (one_line writer line w visible file.scanner single)
