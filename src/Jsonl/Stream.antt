-- ===== src/Jsonl/Stream.antt =====
-- What the validation of a stream writes and counts.
use mathlib.Core.List.{append-nil, append_assoc}
use wb_tasks_l.Prelude.{
  ℕ, suc, ◌+◌, ◌≡◌, refl, sym, ap, ◌∙◌, inl, inr, Bool, true, false, List, [], ◌∷◌, ◌++◌, Option,
  none, arith, length, Bool-cases, if◌then◌else◌,
}
use wb_tasks_l.Errors.{Error, Result, ok, err, Result-cases}
use wb_tasks_l.Domain.{Order}
use wb_tasks_l.Ports.{OrderValidator, JsonDecoder}
use wb_tasks_l.Jsonl.{
  Writer, JsonlResult, validate_order_from_json, write_order, count_line, scan_line, scan_lines,
  Scanner, max_line, wrapped, drain, validate_jsonl_stream,
}

-- bytes.Buffer, whose Write never fails.
abbrev pub buffer : Writer (List ℕ)
buffer = record { write = λ bytes w. (w ++ bytes, none) }

module _ (validator : OrderValidator) (json : JsonDecoder) (is_blank : List ℕ → Bool) where
  abbrev pub ok_part : Result Order → List Order → List Order
  ok_part (ok o) rest = o ∷ rest
  ok_part (err e) rest = rest

  -- The orders of the lines that are valid, in order.
  unfoldable pub accepted : List (List ℕ) → List Order
  accepted [] = []
  accepted (line ∷ lines) =
      let rest = accepted lines in
      if is_blank line then rest else ok_part (validate_order_from_json validator json line) rest

  unfoldable pub filled : List (List ℕ) → ℕ
  filled [] = 0
  filled (line ∷ lines) = let rest = filled lines in if is_blank line then rest else suc rest

-- The orders in compact JSON, each with a newline behind it.
unfoldable pub print_lines : (Order → List ℕ) → List Order → List ℕ
print_lines marshal [] = []
print_lines marshal (o ∷ orders) = marshal o ++ 10 ∷ print_lines marshal orders

module _ (validator : OrderValidator) (json : JsonDecoder) (marshal : Order → List ℕ)
    (is_blank : List ℕ → Bool) where
  -- What a scan into a buffer reaches.
  record Reaches (lines : List (List ℕ)) (res : JsonlResult) (w : List ℕ)
      (result : (JsonlResult × List ℕ) × Option Error) : Type 0 where
    out : result.0.1 ≡ w ++ print_lines marshal (accepted validator json is_blank lines)
    valid :
        result.0.0.valid_lines_count
        ≡ res.valid_lines_count + length (accepted validator json is_blank lines)
    total :
        result.0.0.valid_lines_count + result.0.0.invalid_lines_count
        ≡ res.valid_lines_count + res.invalid_lines_count + filled validator json is_blank lines
    fine : result.1 ≡ none

  shift : (w xs ys : List ℕ) → ((w ++ xs) ++ 10 ∷ []) ++ ys ≡ w ++ (xs ++ 10 ∷ ys)
  shift w xs ys = append_assoc (w ++ xs) (10 ∷ []) ys ∙ append_assoc w xs (10 ∷ ys)

  module _ (line : List ℕ) (lines : List (List ℕ)) (res : JsonlResult) (w : List ℕ) where
    scan_line_blank :
        is_blank line ≡ true
        → scan_line validator json marshal is_blank buffer line res w ≡ ((res, w), none)
    unfolding scan_line
    scan_line_blank q = rw q

    scan_line_ok :
        (o : Order)
        → is_blank line ≡ false
        → validate_order_from_json validator json line ≡ ok o
        → scan_line validator json marshal is_blank buffer line res w ≡ (
          (
            record res { valid_lines_count = res.valid_lines_count + 1 },
            (w ++ marshal o) ++ 10 ∷ [],
          ),
          none,
        )
    unfolding scan_line count_line write_order
    scan_line_ok o q p = rw (scan_line, q, p)

    scan_line_err :
        (e : Error)
        → is_blank line ≡ false
        → validate_order_from_json validator json line ≡ err e
        → scan_line validator json marshal is_blank buffer line res w
          ≡ ((record res { invalid_lines_count = res.invalid_lines_count + 1 }, w), none)
    unfolding scan_line count_line
    scan_line_err e q p = rw (scan_line, q, p)

    -- A line that does not fail is stepped over.
    scan_cons :
        (res' : JsonlResult) (w' : List ℕ)
        → scan_line validator json marshal is_blank buffer line res w ≡ ((res', w'), none)
        → scan_lines validator json marshal is_blank buffer (line ∷ lines) res w
          ≡ scan_lines validator json marshal is_blank buffer lines res' w'
    unfolding scan_lines
    scan_cons res' w' h =
        rw (scan_lines, h)
          (ap (λ s. scan_lines validator json marshal is_blank buffer lines s.0.0 s.0.1) h)

  scan_lines-Reaches :
      (lines : List (List ℕ)) (res : JsonlResult) (w : List ℕ)
      → Reaches lines res w (scan_lines validator json marshal is_blank buffer lines res w)
  unfolding scan_lines accepted filled print_lines
  scan_lines-Reaches [] res w = record {
    out = sym (append-nil w);
    valid = omega arith;
    total = omega arith;
    fine = refl;
  }
  scan_lines-Reaches (line ∷ lines) res w = elim (Bool-cases (is_blank line)) [
    | inl q ↦
        let ih = scan_lines-Reaches lines res w in
        rw (scan_cons line lines res w _ _ (scan_line_blank line lines res w q)) (record {
          out = rw (q, accepted) ih.out;
          valid = rw q ih.valid;
          total = rw q ih.total;
          fine = ih.fine;
        })
    | inr q ↦ elim (Result-cases (validate_order_from_json validator json line)) [
      | inl (o, p) ↦
          let ih =
            scan_lines-Reaches lines (record res { valid_lines_count = res.valid_lines_count + 1 })
              ((w ++ marshal o) ++ 10 ∷ []) in
          rw (scan_cons line lines res w _ _ (scan_line_ok line lines res w o q p)) (record {
            out =
                rw (q, p)
                  (ih.out
                    ∙ shift w (marshal o)
                        (print_lines marshal (accepted validator json is_blank lines)));
            valid = rw (q, p) (omega (arith, ih.valid));
            total = rw q (omega (arith, ih.total));
            fine = ih.fine;
          })
      | inr (e, p) ↦
          let ih =
            scan_lines-Reaches lines
              (record res { invalid_lines_count = res.invalid_lines_count + 1 }) w in
          rw (scan_cons line lines res w _ _ (scan_line_err line lines res w e q p)) (record {
            out = rw (q, p) ih.out;
            valid = rw (q, p) ih.valid;
            total = rw q (omega (arith, ih.total));
            fine = ih.fine;
          })
    ]
  ]

  -- Into a buffer, a stream is validated to the last line that the scanner yields: the buffer gains
  -- the orders of the valid lines in compact JSON, in order, each with a newline; the valid lines and
  -- the invalid ones are counted, and each line that is not blank is one of them; the error is the
  -- scanner's, if it has one.
  pub validate_jsonl_stream-accepted :
      (scanner : Scanner) (w : List ℕ)
      → (let (lines, scan_err) = scanner max_line in
          let ((res, out), failed) =
            validate_jsonl_stream validator json marshal is_blank buffer scanner w in
          (out ≡ w ++ print_lines marshal (accepted validator json is_blank lines))
          × (res.valid_lines_count ≡ length (accepted validator json is_blank lines))
          × (res.valid_lines_count + res.invalid_lines_count ≡ filled validator json is_blank lines)
          × (failed ≡ wrapped "scan" scan_err))
  unfolding validate_jsonl_stream drain
  validate_jsonl_stream-accepted scanner w =
      let (lines, scan_err) = scanner max_line in
      let r =
        scan_lines-Reaches lines (record { valid_lines_count = 0; invalid_lines_count = 0 }) w in
      rw (validate_jsonl_stream, drain, r.fine)
        (r.out, omega (arith, r.valid), omega (arith, r.total), refl)
